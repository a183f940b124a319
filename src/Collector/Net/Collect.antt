-- ===== src/Collector/Net/Collect.antt =====
-- Rounds of `Collect` of internal/collector/net.go.
use sugi.Base.{◌≡◌, refl, ap, ◌∙◌, Option, none, some, List, [], ◌∷◌}
use sugi.Base.Result.{Result, ok, err}
use sugi.Model.Time.{Instant}
use sugi.Collector.Float.{Float64}
use sugi.Collector.Scan.{Reader}
use sugi.Collector.Rounds.{Round, parsed_at, last_parsed}
use sugi.Collector.Net.{
  NetTable, NetError, NetCollector, parse_proc_net_dev, net_stats_after, net_after_parse,
  collect_net,
}

abbrev pub base_of : Option NetTable × Instant → NetCollector
base_of (table, time) = record { last_stats = table; last_time = time }

module _ (f : Float64) where
  pub net_collects : List Round → NetCollector → NetCollector
  net_collects [] n = n
  net_collects ((file, now) ∷ rounds) n = net_collects rounds (collect_net f file now n).1

  state-net_after_parse :
      (r : Result NetError NetTable) (now : Instant) (n : NetCollector)
      → (net_after_parse f r now n).1 ≡ base_of (parsed_at r now (n.last_stats, n.last_time))
  unfolding net_after_parse
  state-net_after_parse (ok table) now n = refl
  state-net_after_parse (err e) now n = refl

  state-net_collects :
      (rounds : List Round) (n : NetCollector)
      → net_collects rounds n
        ≡ base_of (last_parsed parse_proc_net_dev rounds (n.last_stats, n.last_time))
  unfolding net_collects collect_net
  state-net_collects [] n = refl
  state-net_collects ((none, now) ∷ rounds) n = state-net_collects rounds n
  state-net_collects ((some file, now) ∷ rounds) n =
      ap (net_collects rounds) (state-net_after_parse (parse_proc_net_dev file) now n)
      ∙ state-net_collects rounds
          (base_of (parsed_at (parse_proc_net_dev file) now (n.last_stats, n.last_time)))

  -- After any rounds, failed ones included, a round whose file parses returns the throughput since
  -- the last round whose file did, over the time between the two, or no rates if there was none.
  pub collect_net-since_last :
      (rounds : List Round) (n : NetCollector) (file : Reader) (now : Instant) {curr : NetTable}
      → parse_proc_net_dev file ≡ ok curr
      → (collect_net f (some file) now (net_collects rounds n)).0
        ≡ ok (
            net_stats_after f
              (base_of (last_parsed parse_proc_net_dev rounds (n.last_stats, n.last_time)))
              curr
              now)
  unfolding collect_net net_after_parse
  collect_net-since_last rounds n file now e = rw (e, state-net_collects rounds n)
