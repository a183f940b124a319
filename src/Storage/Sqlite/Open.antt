-- ===== src/Storage/Sqlite/Open.antt =====
-- How internal/storage/sqlite.go opens the database: `NewSQLiteStorage` with `initSchema`.
-- The driver is a parameter: a handle, and the calls on it.
pub mod Outcome
use sugi.Base.{ℕ, ◌*◌, Bool, true, false, Option, none, some, List, [], ◌∷◌, ◌++◌, if◌then◌else◌}
use sugi.Base.Text.{Text, codes, is_empty}
use sugi.Base.Int.{pos}
use sugi.Model.Time.{Duration, hour}

pub record Driver : Type 1 where
  pub Handle : Type 0
  -- `sql.Open`.
  pub opens : Text → Option Handle
  -- The limits of the pool: connections, idle connections and the age of one.
  pub limits : ℕ → ℕ → Duration → Handle → Handle
  -- `Exec`, and whether it succeeds.
  pub exec : Text → Handle → Bool × Handle
  pub close : Handle → Handle

pub data OpenError : Type 0 where
  open_failed : OpenError
  -- The statement that failed.
  init_failed : Text → OpenError

abbrev pub pragmas : List Text
pragmas =
    codes "PRAGMA journal_mode=WAL;"
    ∷ codes "PRAGMA synchronous=NORMAL;"
    ∷ codes "PRAGMA busy_timeout=5000;"
    ∷ codes "PRAGMA foreign_keys=ON;"
    ∷ codes "PRAGMA cache_size=-2000;"
    ∷ []

abbrev pub schema : Text
schema =
    codes
      "\n\tCREATE TABLE IF NOT EXISTS system_logs (\n\t\tid INTEGER PRIMARY KEY AUTOINCREMENT,\n"
    ++ (codes
          "\t\ttimestamp INTEGER NOT NULL,\n\t\tlevel TEXT NOT NULL,\n\t\tservice TEXT NOT NULL,\n"
        ++ (codes "\t\tmessage TEXT NOT NULL,\n\t\tattributes TEXT\n\t);\n\n\t"
            ++ (codes
                  "CREATE INDEX IF NOT EXISTS idx_logs_timestamp ON system_logs(timestamp DESC);\n\t"
                ++ (codes
                      "CREATE INDEX IF NOT EXISTS idx_logs_service_ts ON system_logs(service, timestamp DESC);\n\t"
                    ++ codes
                        "CREATE INDEX IF NOT EXISTS idx_logs_level_ts ON system_logs(level, timestamp DESC);\n\t"))))

module _ (d : Driver) where
  open d use {Handle}

  abbrev pub then_run :
      (Handle → Option Text × Handle) → Text → Bool × Handle → Option Text × Handle
  then_run rest sql (true, h) = rest h
  then_run rest sql (false, h) = (some sql, h)

  -- The statements in their order, to the first that fails.
  unfoldable pub exec_all : List Text → Handle → Option Text × Handle
  exec_all [] h = (none, h)
  exec_all (sql ∷ sqls) h = then_run (exec_all sqls) sql (d.exec sql h)

  abbrev pub after_pragmas : Option Text × Handle → Option Text × Handle
  after_pragmas (none, h) = then_run (λ k. (none, k)) schema (d.exec schema h)
  after_pragmas (some sql, h) = (some sql, h)

  -- `initSchema`.
  unfoldable pub init_schema : Handle → Option Text × Handle
  unfolding exec_all
  init_schema h = after_pragmas (exec_all pragmas h)

  abbrev pub initialised : Option Text × Handle → Option OpenError × Option Handle
  initialised (none, h) = (none, some h)
  initialised (some sql, h) = (some (init_failed sql), some (d.close h))

  abbrev pub opened : Option Handle → Option OpenError × Option Handle
  opened none = (some open_failed, none)
  opened (some h) = initialised (init_schema (d.limits 10 5 (pos (1 * hour)) h))

  -- `NewSQLiteStorage`. Beside an error stands the handle that is left behind; the caller gets
  -- none.
  unfoldable pub new_sqlite_storage : Text → Option OpenError × Option Handle
  unfolding init_schema
  new_sqlite_storage path = opened (d.opens (if is_empty path then codes "sugi.db" else path))
