-- ===== src/Server/Setup.antt =====
-- `NewServer` of internal/server/server.go, and the tickers of the goroutines of its server.
pub mod Ready
use sugi.Base.{◌*◌, Option, none, some, List, [], ◌∷◌, if◌then◌else◌}
use sugi.Base.Int.{ℤ, pos, le_zero}
use sugi.Base.Result.{Result, ok, err}
use sugi.Model.Time.{Duration, second}
use sugi.Model.Metrics.{SystemSnapshot}
use sugi.Collector.Float.{Float64}
use sugi.Collector.Harvester.{LogHarvester, new_log_harvester}
use sugi.Storage.Writer.{AsyncLogWriter, new_writer}
use sugi.Storage.Sqlite.Open.{Driver, OpenError, new_sqlite_storage}
use sugi.Server.{Config, with_server_defaults, writer_config, harvester_config}
use sugi.Server.Sampling.{ProcFs, Sampler, new_sampler}

-- The deadlines of the HTTP server.
pub record HttpServer : Type 0 where
  pub port : ℤ
  pub read_timeout : Duration
  pub write_timeout : Duration
  pub idle_timeout : Duration

unfoldable pub http_server : Config → HttpServer
http_server cfg = record {
  port = cfg.port;
  read_timeout = pos (10 * second);
  write_timeout = pos (10 * second);
  idle_timeout = pos (60 * second);
}

-- One more ticker, where there is one.
abbrev pub with_ticker : Option Duration → List Duration → List Duration
with_ticker none rest = rest
with_ticker (some interval) rest = interval ∷ rest

module _ (d : Driver) (f : Float64) where
  open d use {Handle}
  open f use {F}

  -- The hub stands with the collectors and the ring buffer, which share it with the API handler.
  pub record Server : Type 0 where
    pub cfg : Config
    pub http : HttpServer
    pub sqlite : Handle
    pub log_writer : AsyncLogWriter
    pub sampler : Sampler f
    pub harvester : LogHarvester

  -- A storage without an error is never nil.
  abbrev pub wired :
      Config
      → ProcFs
      → SystemSnapshot F
      → Option OpenError × Option Handle
      → Result OpenError Server
  wired cfg p empty (some e, left) = err e
  wired cfg p empty (none, none) = err OpenError.open_failed
  wired cfg p empty (none, some db) = ok (record {
    cfg = cfg;
    http = http_server cfg;
    sqlite = db;
    log_writer = new_writer (writer_config cfg);
    sampler = new_sampler f p empty;
    harvester = new_log_harvester (harvester_config cfg);
  })

  -- `NewServer`; `p` is what the baseline finds, and `empty` the zero snapshot.
  unfoldable pub new_server : Config → ProcFs → SystemSnapshot F → Result OpenError Server
  unfolding with_server_defaults new_sqlite_storage
  new_server cfg p empty =
      let cfg' = with_server_defaults cfg in wired cfg' p empty (new_sqlite_storage d cfg'.db_path)

  -- The interval of the ticker of the loop of the backups, where `Start` starts that loop.
  unfoldable pub backup_ticker : Server → Option Duration
  backup_ticker s = if le_zero s.cfg.backup_interval then none else some s.cfg.backup_interval

  -- The intervals that the goroutines of the server give to `time.NewTicker`: those of the sampling
  -- loop, of the two workers of the log writer and of the loop of the backups.
  unfoldable pub tickers : Server → List Duration
  unfolding backup_ticker
  tickers s = with_ticker (backup_ticker s) (
      s.cfg.sample_interval ∷ s.log_writer.cfg.flush_interval ∷ s.log_writer.cfg.prune_interval
      ∷ [])
