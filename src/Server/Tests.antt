-- ===== src/Server/Tests.antt =====
-- The server at concrete settings and rounds.
use sugi.Base.{
  ◌≡◌, refl, ◌||◌, ◌&&◌, Bool, true, false, Option, none, some, [], ◌∷◌, ◌++◌, take, take_last,
  length, arith,
}
use sugi.Base.Int.{pos, negsuc}
use sugi.Base.Text.{Text, codes, text_eq, split}
use sugi.Base.Result.{err}
use sugi.Model.Time.{zero_time}
use sugi.Model.Metrics.{SystemSnapshot}
use sugi.Collector.Fixed.{fixed}
use sugi.Collector.Scan.{Reader, parsed, atoi}
use sugi.Collector.Mem.{open_failed, collect_mem}
use sugi.Collector.Harvester.{new_log_harvester, start, active_files, default_syslog_candidates}
use sugi.Collector.Harvester.Targets.{elem, Distinct, is_watched, is_detected}
use sugi.Storage.Ring.{default_capacity, get_all, get_capacity}
use sugi.Server.{
  Config, default_server_config, with_server_defaults, harvester_config, Printer, startup_logs,
  log_entries,
}
use sugi.Server.Logging.{room, announce, log_entries-take}
use sugi.Storage.Writer.{AsyncLogWriter, default_config, new_writer, with_defaults}
use sugi.Api.Hub.{new_hub}
use sugi.Model.Log.{LogEntry}
use sugi.Server.Sampling.{
  ProcFs, Sampler, new_collectors, zero_disk_stats, zero_net_stats, baseline, new_sampler,
  sample_all,
}
use sugi.Server.Rounds.{snapshots, get_all-sample_all}
use sugi.Storage.Sqlite.Open.{Driver}
use sugi.Server.Setup.{new_server}
use sugi.Server.Setup.Ready.{NewOutcome, new_server-NewOutcome}
use sugi.Server.Served.{handle_get_metrics_history-sample_all}
use sugi.Api.Queries.{found, handle_get_metrics_history}
use sugi.Server.Watched.{active_files-harvester_config}

abbrev cfg : Config
cfg = record default_server_config {
  port = negsuc 0;
  watch_logs = codes "/srv/a.log, /var/log/syslog,,";
}

defaults : with_server_defaults cfg ≡ record cfg { port = pos 8080 }
unfolding with_server_defaults
defaults = refl

abbrev readable : Text → Bool
readable p = text_eq p (codes "/var/log/syslog")

active_files-harvester_config_example :
    let active = active_files (start readable (new_log_harvester (harvester_config cfg))) in
    Distinct active
    × (elem (codes "/srv/a.log") active ≡ (
        is_watched (codes "/srv/a.log") (split b',' cfg.watch_logs)
        || cfg.auto_syslog && is_detected (codes "/srv/a.log") default_syslog_candidates readable))
active_files-harvester_config_example =
    active_files-harvester_config cfg readable (codes "/srv/a.log")

abbrev file : Text → Option Reader
file text = some (record { text = text; failed = false })

abbrev first : ProcFs
first = record {
  stat = file (codes "cpu  10 0 5 80 5 0 0 0 0 0\n");
  meminfo = file (codes "MemTotal: 1000 kB\nMemAvailable: 400 kB\n");
  diskstats = none;
  net_dev = none;
  cpu_time = zero_time;
  mem_time = zero_time;
  disk_time = zero_time;
  net_time = zero_time;
  now = zero_time;
}

abbrev no_memory : ProcFs
no_memory = record first { meminfo = none }

abbrev empty : SystemSnapshot fixed.F
empty = record {
  timestamp = zero_time;
  cpu = record {
    timestamp = zero_time;
    total_usage = 0;
    user_usage = 0;
    system_usage = 0;
    io_wait_usage = 0;
    cores = [];
  };
  memory = record {
    timestamp = zero_time;
    total_bytes = 0;
    free_bytes = 0;
    available_bytes = 0;
    buffers_bytes = 0;
    cached_bytes = 0;
    used_bytes = 0;
    used_percent = 0;
    swap_total_bytes = 0;
    swap_free_bytes = 0;
    swap_used_bytes = 0;
    swap_used_percent = 0;
  };
  disk = zero_disk_stats fixed;
  network = zero_net_stats fixed;
}

abbrev marshal : SystemSnapshot fixed.F → Option Text
marshal x = some (codes "{}")

abbrev started : Sampler fixed
started = new_sampler fixed first empty

get_all-sample_all_example :
    get_all empty (sample_all fixed marshal (first ∷ no_memory ∷ first ∷ []) started).ring
    ≡ take_last default_capacity
        (snapshots fixed (first ∷ no_memory ∷ first ∷ []) (baseline fixed first new_collectors))
get_all-sample_all_example =
    get_all-sample_all fixed marshal first empty (first ∷ no_memory ∷ first ∷ [])

no_meminfo : collect_mem fixed no_memory.meminfo no_memory.mem_time ≡ err open_failed
unfolding collect_mem
no_meminfo = refl

two : atoi (codes "2") ≡ parsed (pos 2)
unfolding atoi
two = refl

handle_get_metrics_history-sample_all_example :
    let sampler = sample_all fixed marshal (first ∷ no_memory ∷ first ∷ []) started in
    let served = take_last 2 (
      take_last default_capacity
        (snapshots fixed (first ∷ no_memory ∷ first ∷ []) (baseline fixed first new_collectors))) in
    handle_get_metrics_history empty (some sampler.ring) (codes "2")
    ≡ found (length served, get_capacity sampler.ring, served)
handle_get_metrics_history-sample_all_example =
    handle_get_metrics_history-sample_all fixed marshal first empty (first ∷ no_memory ∷ first ∷ [])
      (codes "2") 2 refl two (omega arith)

abbrev printer : Printer
printer = record { show_int = λ n. codes "1"; show_duration = λ d. codes "1s"; pid = pos 1 }

abbrev json : LogEntry → Option Text
json entry = some entry.message

abbrev small : AsyncLogWriter
small = new_writer (record default_config { buffer_size = pos 3 })

small_open : small.closed ≡ false
unfolding new_writer
small_open = refl

log_entries-take_example :
    log_entries json (startup_logs printer cfg zero_time) (small, new_hub) ≡ (
      record small { ch = small.ch ++ take (room small) (startup_logs printer cfg zero_time) },
      announce json (take (room small) (startup_logs printer cfg zero_time)) new_hub,
    )
log_entries-take_example =
    log_entries-take json (startup_logs printer cfg zero_time) small new_hub small_open

room_of_three : room small ≡ 3
unfolding new_writer with_defaults
room_of_three = refl

-- A driver on which every statement succeeds.
abbrev driver : Driver
driver = record {
  Handle = Text;
  opens = λ path. some path;
  limits = λ open_conns idle_conns lifetime h. h;
  exec = λ sql h. (true, h);
  close = λ h. h;
}

abbrev unset : Config
unset = record cfg { port = negsuc 0; sample_interval = pos 0; backup_interval = negsuc 4 }

new_server-NewOutcome_example :
    NewOutcome driver fixed unset (new_server driver fixed unset first empty)
new_server-NewOutcome_example = new_server-NewOutcome driver fixed unset first empty
