-- ===== src/Collector/Cpu/Tests.antt =====
-- CPU usage at concrete files and snapshots.
use sugi.Base.{◌*◌, ◌≡◌, refl, false, none, some, [], ◌∷◌}
use sugi.Base.Text.{codes, text_eq}
use sugi.Base.Result.{ok}
use sugi.Model.Time.{zero_time}
use sugi.Model.Metrics.{CpuTicks, CoreUsage}
use sugi.Collector.Fixed.{fixed, fixed-FloatLaws, unit}
use sugi.Collector.Scan.{Reader, parse_uint, parsed}
use sugi.Collector.Cpu.{
  Ticks, CpuCollector, core_index, parse_proc_stat, calculate_delta, calculate_cpu_usage,
  collect_cpu, stats_after,
}
use sugi.Collector.Cpu.Parse.{parse_proc_stat-Labelled}
use sugi.Collector.Cpu.Usage.{InRange, calculate_delta-InRange}
use sugi.Collector.Cpu.Order.{Ascending, cores-Ascending}
use sugi.Collector.Cpu.Collect.{collects, collect_since_last, last_good}

abbrev stat_file : Reader
stat_file = record {
  text = codes "cpu  10 0 5 80 5 0 0 0 0 0\ncpu10 1 2 3 4\ncpu2 1 0 1 8\nintr 5\ncpux 1 2 3 4\n";
  failed = false;
}

abbrev zeros : CpuTicks
zeros = record {
  id = codes "cpu";
  user = 0;
  nice = 0;
  system = 0;
  idle = 0;
  io_wait = 0;
  irq = 0;
  soft_irq = 0;
  steal = 0;
  guest = 0;
  guest_nice = 0;
}

abbrev all_cores : CpuTicks
all_cores = record zeros { user = 10; system = 5; idle = 80; io_wait = 5 }

abbrev core_10 : CpuTicks
core_10 = record zeros { id = codes "cpu10"; user = 1; nice = 2; system = 3; idle = 4 }

abbrev core_2 : CpuTicks
core_2 = record zeros { id = codes "cpu2"; user = 1; system = 1; idle = 8 }

abbrev ticks : Ticks
ticks = (codes "cpu", all_cores) ∷ (codes "cpu10", core_10) ∷ (codes "cpu2", core_2) ∷ []

parse_stat_file : parse_proc_stat stat_file ≡ ok ticks
unfolding parse_proc_stat text_eq
parse_stat_file = refl

five : parse_uint (codes "5") ≡ parsed 5
unfolding parse_uint
five = refl

busy_15 : calculate_delta fixed zeros all_cores ≡ record {
  id = codes "cpu";
  total_usage = 15 * unit;
  user_usage = 10 * unit;
  system_usage = 5 * unit;
  io_wait_usage = 5 * unit;
  steal_usage = 0;
}
unfolding calculate_delta
busy_15 = refl

calculate_delta-InRange_example :
    InRange fixed fixed-FloatLaws (calculate_delta fixed zeros all_cores)
calculate_delta-InRange_example = calculate_delta-InRange fixed fixed-FloatLaws zeros all_cores

-- Ten ticks of I/O wait are taken back while twenty ticks of work are added.
abbrev taken_back : CpuTicks
taken_back = record all_cores { user = 30; io_wait = 0; idle = 75 }

cores-Ascending_example :
    Ascending
      (λ (u : CoreUsage fixed.F). core_index u.id)
      (calculate_cpu_usage fixed zero_time ticks ticks).cores
cores-Ascending_example =
    cores-Ascending fixed zero_time ticks ticks
      (parse_proc_stat-Labelled stat_file parse_stat_file).0

abbrev start : CpuCollector
start = record { last_ticks = none; last_time = zero_time }

collect_since_last_example :
    (collect_cpu fixed
      (some stat_file)
      zero_time
      (collects fixed ((some stat_file, zero_time) ∷ (none, zero_time) ∷ []) start)).0
    ≡ ok (
        stats_after fixed
          (last_good none ((some stat_file, zero_time) ∷ (none, zero_time) ∷ []))
          ticks
          zero_time)
collect_since_last_example =
    collect_since_last fixed ((some stat_file, zero_time) ∷ (none, zero_time) ∷ []) start stat_file
      zero_time parse_stat_file
