-- ===== src/Collector/Disk/Tests.antt =====
-- Disk activity at concrete files and snapshots.
use sugi.Base.{◌≡◌, refl, ◌*◌, false, [], ◌∷◌}
use sugi.Base.Int.{pos}
use sugi.Base.Text.{codes, text_eq}
use sugi.Base.Dict.{lookup}
use sugi.Base.Result.{ok}
use sugi.Model.Time.{zero_time, second}
use sugi.Model.Metrics.{RawDiskStats}
use sugi.Collector.Fixed.{fixed, unit}
use sugi.Collector.Scan.{Reader, scan_lines, atoi, parse_uint}
use sugi.Collector.Disk.{DiskTable, no_disk, parse_proc_diskstats, disk_lines, calculate_disk_stats}

abbrev diskstats : Reader
diskstats = record {
  text =
      codes
        " 8 0 sdb 1 0 2 0 3 0 4 0 0 5 6\n 7 0 loop0 1 0 2 0 3 0 4 0 0 5 6\n 8 1 sda 0 0 0 0 0 0 0 0 0 0 0\nshort\n";
  failed = false;
}

abbrev sdb : RawDiskStats
sdb = record no_disk {
  major = pos 8;
  device_name = codes "sdb";
  reads_completed = 1;
  sectors_read = 2;
  writes_completed = 3;
  sectors_written = 4;
  io_time_ms = 5;
  weighted_io_time = 6;
}

abbrev sda : RawDiskStats
sda = record no_disk { major = pos 8; minor = pos 1; device_name = codes "sda" }

abbrev table : DiskTable
table = (codes "sdb", sdb) ∷ (codes "sda", sda) ∷ []

parse_diskstats : parse_proc_diskstats diskstats ≡ ok table
unfolding parse_proc_diskstats scan_lines disk_lines text_eq atoi parse_uint
parse_diskstats = refl

-- Two seconds after a snapshot in which sdb was idle.
abbrev before : DiskTable
before = (codes "sdb", record sdb { sectors_read = 0; reads_completed = 0 }) ∷ []

sdb_reads_half_a_block_per_second :
    (calculate_disk_stats fixed zero_time before table (pos (2 * second))).total_read_bytes_per_sec
    ≡ 512 * unit
unfolding calculate_disk_stats lookup text_eq
sdb_reads_half_a_block_per_second = refl
