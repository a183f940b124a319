-- ===== src/Storage/Stored/Kept.antt =====
-- What of the accepted entries the log table has: internal/storage/log_writer.go together with
-- internal/storage/sqlite.go.
use sugi.Base.{
  ℕ, zero, suc, ◌≡◌, refl, sym, ap, ◌∙◌, Bool, true, false, Option, none, some, List, [], ◌∷◌, ◌++◌,
  append-nil, append_assoc,
}
use sugi.Base.Int.{ℤ}
use sugi.Model.Time.{Instant, zero_time}
use sugi.Model.Log.{LogEntry}
use sugi.Storage.Writer.{AsyncLogWriterConfig, AsyncLogWriter, new_writer}
use sugi.Storage.Writer.Inv.{handed}
use sugi.Storage.Writer.Calls.{held-accepted}
use sugi.Storage.Writer.Steps.{Run}
use sugi.Storage.Sqlite.{Row, Engine, EngineLaws, Codec, row_of}
use sugi.Storage.Sqlite.Reads.{QueryEngine, Deletes, after_delete, prune_old_logs, prune_threshold}
use sugi.Storage.Sqlite.Batch.{rows_of, Atomic, write_batch-Atomic}
use sugi.Storage.Stored.{
  Wrote, Store, Move, Moves, done, written, failed, works, prunes, here, next, start,
}
use sugi.Storage.Stored.Thinned.{
  Thinned, Thinned-refl, Thinned-append, Thinned-more, Thinned-rows_from,
}

-- The entries of the batches that `WriteBatch` has written, in order.
abbrev pub succeeded : List (List LogEntry × Bool) → List LogEntry
succeeded [] = []
succeeded ((batch, true) ∷ writes) = batch ++ succeeded writes
succeeded ((batch, false) ∷ writes) = succeeded writes

succeeded-append :
    (xs ys : List (List LogEntry × Bool)) → succeeded (xs ++ ys) ≡ succeeded xs ++ succeeded ys
succeeded-append [] ys = refl
succeeded-append ((batch, true) ∷ xs) ys = rw (succeeded-append xs ys, append_assoc)
succeeded-append ((batch, false) ∷ xs) ys = succeeded-append xs ys

-- The first clock for the entries, the second behind them.
abbrev joined : List LogEntry → (ℕ → Instant) → (ℕ → Instant) → ℕ → Instant
joined [] first then' i = then' i
joined (x ∷ xs) first then' zero = first 0
joined (x ∷ xs) first then' (suc i) = joined xs (λ k. first (suc k)) then' i

rows_of-append :
    (c : Codec) (xs ys : List LogEntry) (first then' : ℕ → Instant)
    → rows_of c (xs ++ ys) (joined xs first then') ≡ rows_of c xs first ++ rows_of c ys then'
rows_of-append c [] ys first then' = refl
rows_of-append c (x ∷ xs) ys first then' =
    ap (◌∷◌ (row_of c (first 0) x)) (rows_of-append c xs ys (λ k. first (suc k)) then')

-- The rows of some entries, whatever the clock showed as each was inserted.
abbrev pub RowsOf : Codec → List LogEntry → List Row → Type 0
RowsOf c xs rows = (clock : ℕ → Instant) × (rows ≡ rows_of c xs clock)

RowsOf-append :
    (c : Codec) (xs ys : List LogEntry) {rows rows' : List Row}
    → RowsOf c xs rows
    → RowsOf c ys rows'
    → RowsOf c (xs ++ ys) (rows ++ rows')
RowsOf-append c xs ys (first, h) (then', k) =
    (joined xs first then', rw (h, k) (sym (rows_of-append c xs ys first then')))

module _ (e : Engine) (laws : EngineLaws e) (q : QueryEngine e) (law : Deletes e q)
    (c : Codec) where
  open e use {Db}

  Wrote-rows :
      {db db' : Db} {writes : List (List LogEntry × Bool)}
      → Wrote e c db writes db'
      → (rows : List Row) × RowsOf c (succeeded writes) rows × (e.rows db' ≡ e.rows db ++ rows)
  Wrote-rows (done db) = ([], ((λ i. zero_time), refl), sym (append-nil (e.rows db)))
  Wrote-rows (failed {db} {db'} batch clock error h rest) =
      let (rows, clocks, k) = Wrote-rows rest in
      let same : Atomic e laws c (rows_of c batch clock) db (some error, db') =
        rw h at (write_batch-Atomic e laws c batch clock db) in
      (rows, clocks, k ∙ ap (λ d. e.rows d ++ rows) same)
  Wrote-rows (written {db} {db'} {writes = writes} batch clock h rest) =
      let (rows, clocks, k) = Wrote-rows rest in
      let added : Atomic e laws c (rows_of c batch clock) db (none, db') =
        rw h at (write_batch-Atomic e laws c batch clock db) in
      (
        rows_of c batch clock ++ rows,
        RowsOf-append c batch (succeeded writes) (clock, refl) clocks,
        k ∙ ap (λ xs. xs ++ rows) added ∙ append_assoc (e.rows db) (rows_of c batch clock) rows,
      )

  -- The table `before` with the rows of the written entries, less some that have expired.
  pub record Kept (before : List Row) (ts : List ℤ) (s : Store e) : Type 0 where
    pub rows : List Row
    pub clocks : RowsOf c (succeeded s.writer.writes) rows
    pub thinned : Thinned ts (before ++ rows) (e.rows s.db)

  pruned-Kept :
      {before : List Row} {ts : List ℤ} {s : Store e} (t : ℤ) (result : Option (Db × Option ℤ))
      → q.delete_before t s.db ≡ result
      → Kept before ts s
      → Kept before (ts ++ t ∷ []) (record s { db = (after_delete e q s.db result).1 })
  pruned-Kept t none h k = record {
    rows = k.rows;
    clocks = k.clocks;
    thinned = Thinned-more (t ∷ []) k.thinned;
  }
  pruned-Kept {ts = ts} {s} t (some (db', n)) h k = record {
    rows = k.rows;
    clocks = k.clocks;
    thinned = rw (law t s.db db' n h) (Thinned-rows_from t k.thinned);
  }

  pub Move-Kept :
      {before : List Row} {s t : Store e} {ts us : List ℤ} {xs : List LogEntry}
      → Move e q c s xs us t
      → Kept before ts s
      → Kept before (ts ++ us) t
  unfolding prune_old_logs
  Move-Kept (prunes s now live) k =
      let ms = prune_threshold s.writer.cfg.retention now in
      pruned-Kept ms (q.delete_before ms s.db) refl k
  Move-Kept {before} {ts} (works s {w = w} {db} new step grown wrote) k =
      let (rows, clocks, added) = Wrote-rows wrote in
      record {
        rows = k.rows ++ rows;
        clocks =
            rw (grown, succeeded-append s.writer.writes new)
              (RowsOf-append c (succeeded s.writer.writes) (succeeded new) k.clocks clocks);
        thinned =
            rw (append-nil ts, added, ← append_assoc before k.rows rows)
              (Thinned-append rows k.thinned);
      }

  Moves-Kept :
      {before : List Row} {s t : Store e} {ts : List ℤ} {xs : List LogEntry}
      → Moves e q c s xs ts t
      → Kept before [] s
      → Kept before ts t
  Moves-Kept here k = k
  Moves-Kept (next r m) k = Move-Kept m (Moves-Kept r k)

  pub Move-Run :
      {w : AsyncLogWriter} {s t : Store e} {xs ys : List LogEntry} {us : List ℤ}
      → Run w xs s.writer
      → Move e q c s ys us t
      → Run w (xs ++ ys) t.writer
  Move-Run r (works s new step grown wrote) = Run.next r step
  Move-Run {xs = xs} r (prunes s now live) = rw (append-nil xs) r

  pub Moves-Run :
      {s t : Store e} {xs : List LogEntry} {ts : List ℤ}
      → Moves e q c s xs ts t
      → Run s.writer xs t.writer
  Moves-Run here = Run.here
  Moves-Run (next r m) = Move-Run (Moves-Run r) m

  pub fresh-Kept : (cfg : AsyncLogWriterConfig) (db : Db) → Kept (e.rows db) [] (start cfg db)
  unfolding new_writer
  fresh-Kept cfg db = record {
    rows = [];
    clocks = ((λ i. zero_time), refl);
    thinned = rw (append-nil (e.rows db)) (Thinned-refl [] (e.rows db));
  }

  -- Given EngineLaws and Deletes, whatever the goroutines of the log writer do from its start on a
  -- database, the table then is what it was, followed by a row for each entry of the batches that
  -- `WriteBatch` has written, less rows older than the time of some deletion; and the entries
  -- handed to `WriteBatch`, the batch and the channel are the accepted entries, in the order of
  -- acceptance.
  pub table_of_accepted :
      (cfg : AsyncLogWriterConfig) (db : Db) {t : Store e} {xs : List LogEntry} {ts : List ℤ}
      → Moves e q c (start cfg db) xs ts t
      → Kept (e.rows db) ts t × (handed t.writer.writes ++ (t.writer.batch ++ t.writer.ch) ≡ xs)
  table_of_accepted cfg db r = (Moves-Kept r (fresh-Kept cfg db), held-accepted cfg (Moves-Run r))
