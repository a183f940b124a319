-- ===== src/Collector/Mem/Tests.antt =====
-- The memory figures of a concrete file.
use sugi.Base.{◌≡◌, refl, false, ◌*◌}
use sugi.Base.Text.{codes, text_eq}
use sugi.Base.Result.{ok}
use sugi.Model.Time.{zero_time}
use sugi.Model.Metrics.{MemStats}
use sugi.Collector.Fixed.{fixed, unit}
use sugi.Base.Dict.{lookup}
use sugi.Collector.Scan.{Reader, scan_lines}
use sugi.Collector.Mem.{
  parse_proc_meminfo, meminfo_lines, mem_stats, bytes_of, used_and_available, percent_of,
  swap_stats,
}
use sugi.Collector.Mem.Accounts.{Accounts, parse_proc_meminfo-Accounts}

abbrev meminfo : Reader
meminfo = record {
  text =
      codes
        "MemTotal:  100 kB\nMemFree: 40 kB\nMemAvailable: 60 kB\nSwapTotal: 10 kB\nSwapFree: 10 kB\n";
  failed = false;
}

abbrev figures : MemStats fixed.F
figures = record {
  timestamp = zero_time;
  total_bytes = 102400;
  free_bytes = 40960;
  available_bytes = 61440;
  buffers_bytes = 0;
  cached_bytes = 0;
  used_bytes = 40960;
  used_percent = 40 * unit;
  swap_total_bytes = 10240;
  swap_free_bytes = 10240;
  swap_used_bytes = 0;
  swap_used_percent = 0;
}

parse_meminfo : parse_proc_meminfo fixed meminfo zero_time ≡ ok figures
unfolding parse_proc_meminfo scan_lines meminfo_lines text_eq mem_stats bytes_of lookup
    used_and_available percent_of swap_stats
parse_meminfo = refl

parse_proc_meminfo-Accounts_example : Accounts figures
parse_proc_meminfo-Accounts_example =
    parse_proc_meminfo-Accounts fixed meminfo zero_time parse_meminfo
