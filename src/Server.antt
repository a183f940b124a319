-- ===== src/Server.antt =====
-- internal/server/server.go: the settings, and how the parts are put together.
pub mod Sampling
pub mod Rounds
pub mod Watched
pub mod Served
pub mod Logging
pub mod Stop
pub mod Setup
pub mod Backups
mod Tests
use sugi.Base.{Option, ℕ, ◌*◌, ◌&&◌, Bool, true, false, List, [], ◌∷◌, ◌++◌, if◌then◌else◌}
use sugi.Base.Int.{ℤ, pos, le_zero}
use sugi.Base.Text.{Text, codes, is_empty, trim_space, split}
use sugi.Model.Time.{Duration, Instant, second, hour, millisecond, time_add}
use sugi.Model.Log.{LogEntry}
use sugi.Storage.Writer.{AsyncLogWriterConfig, AsyncLogWriter, default_config, enqueue}
use sugi.Collector.Harvester.{LogHarvesterConfig}
use sugi.Api.Hub.{SseHub, broadcast_log}

pub record Config : Type 0 where
  pub port : ℤ
  pub db_path : Text
  pub retention : Duration
  pub sample_interval : Duration
  pub backup_interval : Duration
  pub backup_dir : Text
  pub version : Text
  pub auto_syslog : Bool
  pub watch_logs : Text

abbrev pub week : Duration
week = pos (7 * 24 * hour)

-- `DefaultConfig`.
abbrev pub default_server_config : Config
default_server_config = record {
  port = pos 8080;
  db_path = codes "sugi.db";
  retention = week;
  sample_interval = pos (1 * second);
  backup_interval = pos 0;
  backup_dir = [];
  version = codes "0.2.0";
  auto_syslog = true;
  watch_logs = [];
}

-- How `NewServer` replaces settings that are missing.
unfoldable pub with_server_defaults : Config → Config
with_server_defaults cfg = record cfg {
  port = if le_zero cfg.port then pos 8080 else cfg.port;
  db_path = if is_empty cfg.db_path then codes "sugi.db" else cfg.db_path;
  retention = if le_zero cfg.retention then week else cfg.retention;
  sample_interval = if le_zero cfg.sample_interval then pos (1 * second) else cfg.sample_interval;
  version = if is_empty cfg.version then codes "0.2.0" else cfg.version;
}

-- `writerCfg`.
unfoldable pub writer_config : Config → AsyncLogWriterConfig
writer_config cfg = record default_config { retention = cfg.retention }

-- The loop over the parts of `WatchLogs`.
unfoldable pub trimmed_paths : List Text → List Text
unfolding trim_space
trimmed_paths [] = []
trimmed_paths (p ∷ ps) =
    let path = trim_space p in
    let rest = trimmed_paths ps in if is_empty path then rest else path ∷ rest

unfoldable pub watch_paths : Text → List Text
unfolding trimmed_paths split
watch_paths watch_logs = if is_empty watch_logs then [] else trimmed_paths (split b',' watch_logs)

-- `harvesterCfg`.
unfoldable pub harvester_config : Config → LogHarvesterConfig
unfolding watch_paths
harvester_config cfg = record {
  auto_syslog = cfg.auto_syslog;
  watch_paths = watch_paths cfg.watch_logs;
  tail_lines = pos 50;
  poll_interval = pos (1 * second);
  max_rate = pos 500;
}

-- What the harvester and the start of the server do with an entry; `marshal` is json.Marshal.
unfoldable pub log_entry :
    (LogEntry → Option Text) → LogEntry → AsyncLogWriter × SseHub → AsyncLogWriter × SseHub
unfolding enqueue broadcast_log
log_entry marshal entry (writer, hub) =
    let (queued, writer') = enqueue writer entry in
    if queued then (writer', broadcast_log (marshal entry) hub) else (writer', hub)

unfoldable pub log_entries :
    (LogEntry → Option Text) → List LogEntry → AsyncLogWriter × SseHub → AsyncLogWriter × SseHub
unfolding log_entry
log_entries marshal [] s = s
log_entries marshal (entry ∷ entries) s = log_entries marshal entries (log_entry marshal entry s)

-- What the messages of `Start` print: an int, a `time.Duration` and the process id.
pub record Printer : Type 0 where
  pub show_int : ℤ → Text
  pub show_duration : Duration → Text
  pub pid : ℤ

abbrev info : Instant → Text → Text → List (Text × Text) → LogEntry
info t service message attributes = record {
  id = pos 0;
  timestamp = t;
  level = codes "INFO";
  service = service;
  message = message;
  attributes = attributes;
}

-- The entries that `Start` logs about the server itself.
unfoldable pub startup_logs : Printer → Config → Instant → List LogEntry
unfolding time_add
startup_logs p cfg now =
    info now (codes "sugi-core")
      (codes "Sugi Observability Engine v" ++ (cfg.version ++ codes " started"))
      ((codes "pid", p.show_int p.pid) ∷ (codes "port", p.show_int cfg.port) ∷ [])
    ∷ info (time_add now (pos millisecond)) (codes "storage")
        (codes "SQLite WAL storage ready (retention: "
          ++ (p.show_duration cfg.retention ++ codes ")"))
        ((codes "db", cfg.db_path) ∷ [])
    ∷ info (time_add now (pos (2 * millisecond))) (codes "collector")
        (codes "Linux procfs metrics collector online (sampling rate: "
          ++ (p.show_duration cfg.sample_interval ++ codes ")"))
        ((codes "interval", p.show_duration cfg.sample_interval) ∷ [])
    ∷ info (time_add now (pos (3 * millisecond))) (codes "http-server")
        (codes "Web dashboard and API listening on :" ++ p.show_int cfg.port)
        ((codes "url", codes "http://localhost:" ++ p.show_int cfg.port) ∷ [])
    ∷ []
