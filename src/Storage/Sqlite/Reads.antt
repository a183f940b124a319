-- ===== src/Storage/Sqlite/Reads.antt =====
-- internal/storage/sqlite.go: what is read from the log table, retention, the count and the close.
use sugi.Base.{◌≡◌, Bool, Option, none, some, List, [], ◌∷◌, if◌then◌else◌}
use sugi.Base.Int.{ℤ, ltb_ℤ}
use sugi.Base.Text.{Text, is_empty}
use sugi.Base.Result.{Result, ok, err}
use sugi.Model.Time.{Instant, Duration, unix_milli, from_unix_milli, time_add, negate}
use sugi.Model.Log.{LogEntry, LogFilter}
use sugi.Storage.Sqlite.{Row, Engine, Codec, Value, query_logs}

-- A row of the result; `none` is the NULL of the column `attributes`.
pub record StoredRow : Type 0 where
  pub id : ℤ
  pub timestamp : ℤ
  pub level : Text
  pub service : Text
  pub message : Text
  pub attributes : Option Text

-- json.Unmarshal to a map of strings.
abbrev pub Unmarshal : Type 0
Unmarshal = Text → Option (List (Text × Text))

abbrev or_nil {ℓ} : {A : Type ℓ} → Option (List A) → List A
or_nil none = []
or_nil (some xs) = xs

abbrev pub attributes_of : Unmarshal → Option Text → List (Text × Text)
attributes_of unmarshal none = []
attributes_of unmarshal (some s) = if is_empty s then [] else or_nil (unmarshal s)

-- The body of the loop over the rows.
unfoldable pub entry_of : Unmarshal → StoredRow → LogEntry
unfolding from_unix_milli
entry_of unmarshal row = record {
  id = row.id;
  timestamp = from_unix_milli row.timestamp;
  level = row.level;
  service = row.service;
  message = row.message;
  attributes = attributes_of unmarshal row.attributes;
}

pub data QueryError : Type 0 where
  query_failed row_scan_failed iteration_failed : QueryError

abbrev and_then {ℓ κ} : {A : Type ℓ} {E : Type κ} → A → Result E (List A) → Result E (List A)
and_then a (ok as') = ok (a ∷ as')
and_then a (err e) = err e

-- The loop over the rows, `none` being one that `Scan` refuses, with what `rows.Err` says behind
-- it.
unfoldable pub read_rows :
    Unmarshal → List (Option StoredRow) → Bool → Result QueryError (List LogEntry)
unfolding entry_of
read_rows unmarshal [] failed = if failed then err iteration_failed else ok []
read_rows unmarshal (none ∷ rows) failed = err row_scan_failed
read_rows unmarshal (some row ∷ rows) failed =
    and_then (entry_of unmarshal row) (read_rows unmarshal rows failed)

-- The other calls of the engine: a query with its arguments, the deletion of the rows before a time
-- with the number of them, and the count of the rows.
pub record QueryEngine (e : Engine) : Type 0 where
  pub query : Text → List Value → e.Db → Option (List (Option StoredRow) × Bool)
  pub delete_before : ℤ → e.Db → Option (e.Db × Option ℤ)
  pub count : e.Db → Option ℤ

-- What an engine documents about the deletion: the rows at the time and behind it are kept.
abbrev pub rows_from : ℤ → List Row → List Row
rows_from ms [] = []
rows_from ms (r ∷ rs) = if ltb_ℤ r.timestamp ms then rows_from ms rs else r ∷ rows_from ms rs

abbrev pub Deletes : (e : Engine) → QueryEngine e → Type 0
Deletes e q =
    (ms : ℤ) (db db' : e.Db) (n : Option ℤ)
    → q.delete_before ms db ≡ some (db', n)
    → e.rows db' ≡ rows_from ms (e.rows db)

abbrev read_result :
    Unmarshal → Option (List (Option StoredRow) × Bool) → Result QueryError (List LogEntry)
read_result unmarshal none = err query_failed
read_result unmarshal (some (rows, failed)) = read_rows unmarshal rows failed

-- The time before which `PruneOldLogs` deletes.
unfoldable pub prune_threshold : Duration → Instant → ℤ
unfolding time_add unix_milli
prune_threshold retention now = unix_milli (time_add now (negate retention))

module _ (e : Engine) (q : QueryEngine e) where
  open e use {Db}

  -- `QueryLogs`.
  unfoldable pub run_query : Codec → Unmarshal → LogFilter → Db → Result QueryError (List LogEntry)
  unfolding query_logs read_rows
  run_query c unmarshal filter db =
      let (query, args) = query_logs c filter in read_result unmarshal (q.query query args db)

  abbrev pub after_delete : Db → Option (Db × Option ℤ) → Option ℤ × Db
  after_delete db none = (none, db)
  after_delete db (some (db', n)) = (n, db')

  -- `PruneOldLogs`; the result is the number of rows, `none` being an error.
  unfoldable pub prune_old_logs : Duration → Instant → Db → Option ℤ × Db
  unfolding prune_threshold
  prune_old_logs retention now db =
      after_delete db (q.delete_before (prune_threshold retention now) db)

  -- `CountLogs`.
  unfoldable pub count_logs : Db → Option ℤ
  count_logs db = q.count db
