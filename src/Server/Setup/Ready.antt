-- ===== src/Server/Setup/Ready.antt =====
-- What `NewServer` of internal/server/server.go returns.
use sugi.Base.{◌≡◌, refl, arith, Bool-cases, inl, inr, false, Option, none, some, List, All}
use sugi.Base.Int.{le_zero}
use sugi.Base.Result.{Result, ok, err}
use sugi.Model.Time.{Duration}
use sugi.Model.Metrics.{SystemSnapshot}
use sugi.Collector.Float.{Float64}
use sugi.Storage.Writer.{new_writer, with_defaults}
use sugi.Storage.Sqlite.Open.{Driver, OpenError, new_sqlite_storage}
use sugi.Storage.Sqlite.Open.Outcome.{Opened, new_sqlite_storage-Opened}
use sugi.Server.{Config, with_server_defaults, writer_config}
use sugi.Server.Sampling.{ProcFs}
use sugi.Server.Setup.{Server, wired, new_server, backup_ticker, with_ticker, tickers}

-- What `time.NewTicker` takes without a panic.
abbrev pub IsInterval : Duration → Type 0
IsInterval interval = le_zero interval ≡ false

intervals_pos :
    (cfg : Config)
    → let cfg' = with_server_defaults cfg in
      let w = new_writer (writer_config cfg') in
      IsInterval cfg'.sample_interval
      × IsInterval w.cfg.flush_interval
      × IsInterval w.cfg.prune_interval
      × IsInterval w.cfg.retention
unfolding with_server_defaults new_writer with_defaults writer_config
intervals_pos cfg = ground arith

module _ (d : Driver) (f : Float64) where
  open d use {Handle}
  open f use {F}

  -- `NewServer` fails where the database does; or it has a server on the database.
  abbrev pub NewOutcome : Config → Result OpenError (Server d f) → Type 0
  NewOutcome cfg (err e) =
      (left : Option Handle) × (new_sqlite_storage d (with_server_defaults cfg).db_path
        ≡ (some e, left))
  NewOutcome cfg (ok s) =
      (new_sqlite_storage d (with_server_defaults cfg).db_path ≡ (none, some s.sqlite))
      × All IsInterval (tickers d f s)
      × IsInterval s.log_writer.cfg.retention

  -- The loop of the backups has a ticker only where its interval is positive.
  backups-IsInterval :
      (s : Server d f) (rest : List Duration)
      → All IsInterval rest
      → All IsInterval (with_ticker (backup_ticker d f s) rest)
  unfolding backup_ticker
  backups-IsInterval s rest h = elim (Bool-cases (le_zero s.cfg.backup_interval)) [
    | inl off ↦ rw off h
    | inr on ↦ rw on (on, h)
  ]

  tickers-IsInterval :
      (cfg : Config) (s : Server d f)
      → s.cfg ≡ with_server_defaults cfg
      → s.log_writer ≡ new_writer (writer_config (with_server_defaults cfg))
      → All IsInterval (tickers d f s) × IsInterval s.log_writer.cfg.retention
  unfolding tickers
  tickers-IsInterval cfg s same_cfg same_writer =
      let (a, b, c, p) = intervals_pos cfg in
      let a' : IsInterval s.cfg.sample_interval = rw (same_cfg) a in
      rw (same_writer) (backups-IsInterval s _ (a', (b, (c, tt))), p)

  wired-NewOutcome :
      (cfg : Config) (p : ProcFs) (empty : SystemSnapshot F) (r : Option OpenError × Option Handle)
      → new_sqlite_storage d (with_server_defaults cfg).db_path ≡ r
      → Opened d (with_server_defaults cfg).db_path r
      → NewOutcome cfg (wired d f (with_server_defaults cfg) p empty r)
  wired-NewOutcome cfg p empty (some e, left) h o = (left, h)
  wired-NewOutcome cfg p empty (none, none) h o = absurd o
  wired-NewOutcome cfg p empty (none, some db) h o =
      (let (all, kept) = tickers-IsInterval cfg _ refl refl in (h, all, kept))

  -- For any settings, `NewServer` returns the error of `NewSQLiteStorage` and no other, or a server
  -- on its handle. Of that server, each interval that the sampling loop, the workers of the log
  -- writer and the loop of the backups, where `Start` starts it, give to `time.NewTicker` is
  -- positive, so that none of these calls panics; and the retention is positive.
  pub new_server-NewOutcome :
      (cfg : Config) (p : ProcFs) (empty : SystemSnapshot F)
      → NewOutcome cfg (new_server d f cfg p empty)
  unfolding new_server
  new_server-NewOutcome cfg p empty =
      let path = (with_server_defaults cfg).db_path in
      wired-NewOutcome cfg p empty (new_sqlite_storage d path) refl
        (new_sqlite_storage-Opened d path)
