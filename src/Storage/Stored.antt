-- ===== src/Storage/Stored.antt =====
-- The log writer of internal/storage/log_writer.go on the log table of internal/storage/sqlite.go:
-- where the writer calls `WriteBatch`, the table answers; the prune worker deletes between the
-- batches.
pub mod Thinned
pub mod Kept
use sugi.Base.{ℕ, ◌≡◌, Bool, true, false, Option, none, some, List, [], ◌∷◌, ◌++◌}
use sugi.Base.Int.{ℤ}
use sugi.Model.Time.{Instant}
use sugi.Model.Log.{LogEntry}
use sugi.Storage.Writer.{AsyncLogWriterConfig, AsyncLogWriter, new_writer}
use sugi.Storage.Writer.Steps.{Step}
use sugi.Storage.Sqlite.{Engine, Codec, DbError, write_batch}
use sugi.Storage.Sqlite.Reads.{QueryEngine, prune_old_logs, prune_threshold}

module _ (e : Engine) (c : Codec) where
  open e use {Db}

  -- Calls of `WriteBatch` with their outcomes, from one database to another.
  pub data Wrote : Db → List (List LogEntry × Bool) → Db → Type 0 where
    done : (db : Db) → Wrote db [] db
    written :
        {db db' db'' : Db} {writes : List (List LogEntry × Bool)} (batch : List LogEntry)
        (clock : ℕ → Instant)
        → write_batch e c batch clock db ≡ (none, db')
        → Wrote db' writes db''
        → Wrote db ((batch, true) ∷ writes) db''
    failed :
        {db db' db'' : Db} {writes : List (List LogEntry × Bool)} (batch : List LogEntry)
        (clock : ℕ → Instant) (error : DbError)
        → write_batch e c batch clock db ≡ (some error, db')
        → Wrote db' writes db''
        → Wrote db ((batch, false) ∷ writes) db''

-- The writer and its database.
pub record Store (e : Engine) : Type 0 where
  pub writer : AsyncLogWriter
  pub db : e.Db

-- The writer as it starts on a database.
abbrev pub start : {e : Engine} → AsyncLogWriterConfig → e.Db → Store e
start cfg db = record { writer = new_writer cfg; db = db }

module _ (e : Engine) (q : QueryEngine e) (c : Codec) where
  -- One action, with the entries accepted and the times before which rows are deleted.
  pub data Move : Store e → List LogEntry → List ℤ → Store e → Type 0 where
    works :
        (s : Store e) {xs : List LogEntry} {w : AsyncLogWriter} {db : e.Db}
        (new : List (List LogEntry × Bool))
        → Step s.writer xs w
        → w.writes ≡ s.writer.writes ++ new
        → Wrote e c s.db new db
        → Move s xs [] (record { writer = w; db = db })
    -- The ticker of the prune worker fires.
    prunes :
        (s : Store e) (now : Instant)
        → s.writer.pruning ≡ true
        → Move s []
            (prune_threshold s.writer.cfg.retention now ∷ [])
            (record s { db = (prune_old_logs e q s.writer.cfg.retention now s.db).1 })

  -- Whether the action calls the storage, which holds its lock `s.mu` meanwhile.
  abbrev pub calls_storage :
      {s t : Store e} {xs : List LogEntry} {ts : List ℤ} → Move s xs ts t → Bool
  calls_storage (works s [] step grown wrote) = false
  calls_storage (works s (call ∷ new) step grown wrote) = true
  calls_storage (prunes s now live) = true

  -- The states that follow `s`.
  pub data Moves (s : Store e) : List LogEntry → List ℤ → Store e → Type 0 where
    here : Moves s [] [] s
    next :
        {xs ys : List LogEntry} {ts us : List ℤ} {t u : Store e}
        → Moves s xs ts t
        → Move t ys us u
        → Moves s (xs ++ ys) (ts ++ us) u
