-- ===== src/Collector/Disk/Collect.antt =====
-- Rounds of `Collect` of internal/collector/disk.go.
use sugi.Base.{◌≡◌, refl, ap, ◌∙◌, Option, none, some, List, [], ◌∷◌}
use sugi.Base.Result.{Result, ok, err}
use sugi.Model.Time.{Instant}
use sugi.Collector.Float.{Float64}
use sugi.Collector.Scan.{Reader}
use sugi.Collector.Rounds.{Round, parsed_at, last_parsed}
use sugi.Collector.Disk.{
  DiskTable, DiskError, DiskCollector, parse_proc_diskstats, disk_stats_after, disk_after_parse,
  collect_disk,
}

abbrev pub base_of : Option DiskTable × Instant → DiskCollector
base_of (table, time) = record { last_stats = table; last_time = time }

module _ (f : Float64) where
  pub disk_collects : List Round → DiskCollector → DiskCollector
  disk_collects [] d = d
  disk_collects ((file, now) ∷ rounds) d = disk_collects rounds (collect_disk f file now d).1

  state-disk_after_parse :
      (r : Result DiskError DiskTable) (now : Instant) (d : DiskCollector)
      → (disk_after_parse f r now d).1 ≡ base_of (parsed_at r now (d.last_stats, d.last_time))
  unfolding disk_after_parse
  state-disk_after_parse (ok table) now d = refl
  state-disk_after_parse (err e) now d = refl

  state-disk_collects :
      (rounds : List Round) (d : DiskCollector)
      → disk_collects rounds d
        ≡ base_of (last_parsed parse_proc_diskstats rounds (d.last_stats, d.last_time))
  unfolding disk_collects collect_disk
  state-disk_collects [] d = refl
  state-disk_collects ((none, now) ∷ rounds) d = state-disk_collects rounds d
  state-disk_collects ((some file, now) ∷ rounds) d =
      ap (disk_collects rounds) (state-disk_after_parse (parse_proc_diskstats file) now d)
      ∙ state-disk_collects rounds
          (base_of (parsed_at (parse_proc_diskstats file) now (d.last_stats, d.last_time)))

  -- After any rounds, failed ones included, a round whose file parses returns the activity since
  -- the last round whose file did, over the time between the two, or no rates if there was none.
  pub collect_disk-since_last :
      (rounds : List Round) (d : DiskCollector) (file : Reader) (now : Instant) {curr : DiskTable}
      → parse_proc_diskstats file ≡ ok curr
      → (collect_disk f (some file) now (disk_collects rounds d)).0
        ≡ ok (
            disk_stats_after f
              (base_of (last_parsed parse_proc_diskstats rounds (d.last_stats, d.last_time)))
              curr
              now)
  unfolding collect_disk disk_after_parse
  collect_disk-since_last rounds d file now e = rw (e, state-disk_collects rounds d)
