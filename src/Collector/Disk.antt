-- ===== src/Collector/Disk.antt =====
-- internal/collector/disk.go: disk activity from /proc/diskstats. `Collect` calls
-- `CalculateDiskStats`, whose own reading of the clock it overwrites.
pub mod Parse
pub mod Figures
pub mod Collect
mod Tests
use sugi.Base.{
  ℕ, ◌-◌, ◌*◌, ◌%◌, ◌^◌, ◌||◌, ◌&&◌, not, Bool, true, false, Option, none, some, List, [], ◌∷◌,
  if◌then◌else◌, ltb, leb, length, get_or, drop, map,
}
use sugi.Base.Int.{pos}
use sugi.Base.Text.{Text, codes, has_prefix, contains, fields}
use sugi.Base.Dict.{lookup, insert, value_or}
use sugi.Base.Result.{Result, ok, err}
use sugi.Base.Sort.{sort_texts}
use sugi.Model.Time.{Instant, Duration, time_sub}
use sugi.Model.Metrics.{RawDiskStats, DiskDeviceStats, DiskStats}
use sugi.Collector.Scan.{Reader, scan_lines, parse_uint, or_zero, atoi, int_or_zero}
use sugi.Collector.Float.{Float64}
use sugi.Collector.Rates.{keys, elapsed_seconds, rate, total_of}

abbrev pub DiskTable : Type 0
DiskTable = List (Text × RawDiskStats)

pub data DiskError : Type 0 where
  open_failed scan_failed : DiskError

abbrev pub sector_size_bytes : ℕ
sector_size_bytes = 512

-- `n * SectorSizeBytes`, a uint64 product.
abbrev pub sector_bytes : ℕ → ℕ
sector_bytes n = (n * sector_size_bytes) % 2 ^ 64

-- `shouldSkipDevice`.
unfoldable pub should_skip_device : Text → Bool
unfolding has_prefix
should_skip_device name = has_prefix name (codes "loop") || has_prefix name (codes "ram")

-- The closure `parseUint` of `ParseProcDiskstats`; its caller has checked that there is such a
-- field.
abbrev pub uint_field : List Text → ℕ → ℕ
uint_field fs idx = or_zero (parse_uint (get_or fs idx []))

unfoldable pub disk_of : List Text → RawDiskStats
disk_of fs = record {
  major = int_or_zero (atoi (get_or fs 0 []));
  minor = int_or_zero (atoi (get_or fs 1 []));
  device_name = get_or fs 2 [];
  reads_completed = uint_field fs 3;
  reads_merged = uint_field fs 4;
  sectors_read = uint_field fs 5;
  read_time_ms = uint_field fs 6;
  writes_completed = uint_field fs 7;
  writes_merged = uint_field fs 8;
  sectors_written = uint_field fs 9;
  write_time_ms = uint_field fs 10;
  io_in_progress = uint_field fs 11;
  io_time_ms = uint_field fs 12;
  weighted_io_time = uint_field fs 13;
}

-- One round of the loop of `ParseProcDiskstats`, on the fields of the line.
unfoldable pub disk_fields : List Text → DiskTable → DiskTable
unfolding should_skip_device disk_of insert
disk_fields fs result =
    let name = get_or fs 2 [] in
    if ltb (length fs) 14
    then result
    else if should_skip_device name
    then result
    else insert name (disk_of fs) result

unfoldable pub disk_lines : List Text → DiskTable → DiskTable
unfolding disk_fields fields
disk_lines [] result = result
disk_lines (line ∷ lines) result = disk_lines lines (disk_fields (fields line) result)

-- `ParseProcDiskstats`.
unfoldable pub parse_proc_diskstats : Reader → Result DiskError DiskTable
unfolding scan_lines disk_lines
parse_proc_diskstats r =
    let (lines, failed) = scan_lines r in
    if failed then err scan_failed else ok (disk_lines lines [])

-- The test of the suffix in `isPrimaryDisk`.
unfoldable pub one_letter : Text → Bool
one_letter [] = false
one_letter (c ∷ []) = leb b'a' c && leb c b'z'
one_letter (c ∷ d ∷ s) = false

-- The loop of `isPrimaryDisk` over the prefixes.
unfoldable pub whole_disk : Text → List Text → Bool
unfolding one_letter has_prefix
whole_disk name [] = false
whole_disk name (prefix ∷ prefixes) =
    if has_prefix name prefix
    then one_letter (drop (length prefix) name)
    else whole_disk name prefixes

-- `isPrimaryDisk`.
unfoldable pub is_primary_disk : Text → Bool
unfolding whole_disk contains has_prefix
is_primary_disk name =
    if has_prefix name (codes "nvme")
    then not (contains name (codes "p"))
    else if has_prefix name (codes "mmcblk")
    then not (contains name (codes "p"))
    else whole_disk name (codes "sd" ∷ codes "vd" ∷ codes "hd" ∷ codes "xvd" ∷ [])

-- What a map gives for a missing key.
abbrev pub no_disk : RawDiskStats
no_disk = record {
  major = pos 0;
  minor = pos 0;
  device_name = [];
  reads_completed = 0;
  reads_merged = 0;
  sectors_read = 0;
  read_time_ms = 0;
  writes_completed = 0;
  writes_merged = 0;
  sectors_written = 0;
  write_time_ms = 0;
  io_in_progress = 0;
  io_time_ms = 0;
  weighted_io_time = 0;
}

module _ (f : Float64) where
  open f use {F, of_uint}

  -- A device without rates.
  unfoldable pub idle_device : Text → RawDiskStats → DiskDeviceStats F
  idle_device name dev = record {
    device = name;
    read_bytes = sector_bytes dev.sectors_read;
    write_bytes = sector_bytes dev.sectors_written;
    read_bytes_per_sec = of_uint 0;
    write_bytes_per_sec = of_uint 0;
    read_iops = of_uint 0;
    write_iops = of_uint 0;
    io_time_ms = dev.io_time_ms;
  }

  -- One round of the loop of `CalculateDiskStats`.
  unfoldable pub device_stats : F → Text → Option RawDiskStats → RawDiskStats → DiskDeviceStats F
  unfolding idle_device rate
  device_stats secs name none curr = idle_device name curr
  device_stats secs name (some prev) curr = record (idle_device name curr) {
    read_bytes_per_sec = rate f sector_bytes prev.sectors_read curr.sectors_read secs;
    write_bytes_per_sec = rate f sector_bytes prev.sectors_written curr.sectors_written secs;
    read_iops = rate f (λ n. n) prev.reads_completed curr.reads_completed secs;
    write_iops = rate f (λ n. n) prev.writes_completed curr.writes_completed secs;
  }

  unfoldable pub devices_of : F → DiskTable → DiskTable → List Text → List (DiskDeviceStats F)
  unfolding device_stats lookup
  devices_of secs prev curr [] = []
  devices_of secs prev curr (name ∷ names) =
      device_stats secs name (lookup name prev) (value_or no_disk (lookup name curr))
      ∷ devices_of secs prev curr names

  abbrev pub is_counted : DiskDeviceStats F → Bool
  is_counted d = is_primary_disk d.device

  -- `CalculateDiskStats` at the time `now`.
  unfoldable pub calculate_disk_stats : Instant → DiskTable → DiskTable → Duration → DiskStats F
  unfolding devices_of elapsed_seconds total_of is_primary_disk sort_texts keys
  calculate_disk_stats now prev curr duration =
      let devices =
        devices_of (elapsed_seconds f duration) prev curr (sort_texts (λ name. name) (keys curr)) in
      record {
        timestamp = now;
        total_read_bytes_per_sec = total_of f is_counted (λ d. d.read_bytes_per_sec) devices;
        total_write_bytes_per_sec = total_of f is_counted (λ d. d.write_bytes_per_sec) devices;
        total_read_iops = total_of f is_counted (λ d. d.read_iops) devices;
        total_write_iops = total_of f is_counted (λ d. d.write_iops) devices;
        devices = devices;
      }

-- `DiskCollector`; `none` is the nil map before the first snapshot.
pub record DiskCollector : Type 0 where
  pub last_stats : Option DiskTable
  pub last_time : Instant

module _ (f : Float64) where
  open f use {F, of_uint}

  -- What `Collect` returns for a table that was read at the time `now`.
  unfoldable pub disk_stats_after : DiskCollector → DiskTable → Instant → DiskStats F
  unfolding calculate_disk_stats idle_device sort_texts time_sub
  disk_stats_after d curr now = elim d.last_stats [
    | none ↦ record {
      timestamp = now;
      total_read_bytes_per_sec = of_uint 0;
      total_write_bytes_per_sec = of_uint 0;
      total_read_iops = of_uint 0;
      total_write_iops = of_uint 0;
      devices = sort_texts (λ dev. dev.device) (map (λ (name, dev). idle_device f name dev) curr);
    }
    | some prev ↦ calculate_disk_stats f now prev curr (time_sub now d.last_time)
  ]

  unfoldable pub disk_after_parse :
      Result DiskError DiskTable
      → Instant
      → DiskCollector
      → Result DiskError (DiskStats F) × DiskCollector
  unfolding disk_stats_after
  disk_after_parse (err e) now d = (err e, d)
  disk_after_parse (ok curr) now d =
      (ok (disk_stats_after d curr now), record { last_stats = some curr; last_time = now })

  -- `Collect`; the argument is what `fs.Open("diskstats")` returns.
  unfoldable pub collect_disk :
      Option Reader → Instant → DiskCollector → Result DiskError (DiskStats F) × DiskCollector
  unfolding disk_after_parse parse_proc_diskstats
  collect_disk none now d = (err open_failed, d)
  collect_disk (some file) now d = disk_after_parse (parse_proc_diskstats file) now d
