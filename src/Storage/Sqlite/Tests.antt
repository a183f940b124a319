-- ===== src/Storage/Sqlite/Tests.antt =====
-- The log table with an engine that keeps its rows in a list.
use sugi.Base.{
  ℕ, ◌+◌, ◌*◌, ◌≡◌, refl, sym, ap, false, arith, true, Option, none, some, List, [], ◌∷◌, ◌++◌,
  if◌then◌else◌, length, not,
}
use sugi.Base.Int.{pos}
use sugi.Base.Text.{Text, text_eq, codes, is_empty, to_upper, trim_space}
use sugi.Model.Time.{Instant, zero_time, unix_milli, second}
use sugi.Model.Log.{LogEntry, LogFilter}
use mathlib.Core.Option.{some-injective}
use sugi.Storage.Sqlite.Reads.{Unmarshal, QueryEngine, Deletes, rows_from, entry_of, prune_old_logs}
use sugi.Storage.Sqlite.RoundTrip.{IsNormal, stored, entry_of-row_of}
use sugi.Storage.Sqlite.Open.{Driver, init_failed, new_sqlite_storage}
use sugi.Storage.Sqlite.Open.Outcome.{Opened, new_sqlite_storage-Opened}
use sugi.Storage.Sqlite.Prune.{Holds, prune_old_logs-Holds}
use sugi.Storage.Sqlite.{
  Row, Engine, EngineLaws, Codec, integer, text, row_of, write_batch, query_logs,
}
use sugi.Storage.Sqlite.Batch.{rows_of, Atomic, write_batch-Atomic}

-- It refuses a row without a message.
abbrev insert_in_list : Row → List Row → Option (List Row)
insert_in_list row rows = if is_empty row.message then none else some (rows ++ row ∷ [])

abbrev in_list : Engine
in_list = record {
  Db = List Row;
  Tx = List Row;
  begin_tx = λ db. some db;
  prepares = λ tx. true;
  exec_insert = insert_in_list;
  commit = λ tx. some tx;
  rows = λ db. db;
  tx_rows = λ tx. tx;
}

same_rows : (xs ys : List Row) → some xs ≡ some ys → ys ≡ xs
same_rows xs ys h = cc

inserted : (row : Row) (tx tx' : List Row) → insert_in_list row tx ≡ some tx' → tx' ≡ tx ++ row ∷ []
inserted row tx tx' h = ground (arith, h)

in_list-EngineLaws : EngineLaws in_list
in_list-EngineLaws = record {
  begin_rows = same_rows;
  insert_rows = inserted;
  commit_rows = same_rows;
}

abbrev codec : Codec
codec = record { wide_upper = λ c. c; marshal = λ attrs. some (codes "{}") }

abbrev at : ℕ → Instant
at i = record { sec = pos (100 + i); nsec = 0 }

abbrev entry : LogEntry
entry = record {
  id = pos 0;
  timestamp = record { sec = pos 7; nsec = 5000000 };
  level = codes " warn";
  service = [];
  message = codes "disk full";
  attributes = [];
}

abbrev undated : LogEntry
undated = record entry { timestamp = zero_time }

stored_row : row_of codec (at 0) entry ≡ record {
  timestamp = pos 7005;
  level = codes "WARN";
  service = codes "default";
  message = codes "disk full";
  attributes = [];
}
unfolding row_of
stored_row = refl

one_bad_entry_stores_nothing :
    (write_batch in_list codec (entry ∷ record entry { message = [] } ∷ []) at []).1 ≡ []
unfolding write_batch
one_bad_entry_stores_nothing = refl

write_batch-Atomic_example :
    Atomic in_list in_list-EngineLaws codec
      (rows_of codec (entry ∷ undated ∷ []) at)
      []
      (write_batch in_list codec (entry ∷ undated ∷ []) at [])
write_batch-Atomic_example =
    write_batch-Atomic in_list in_list-EngineLaws codec (entry ∷ undated ∷ []) at []

abbrev filter : LogFilter
filter = record {
  start_time = some (at 0);
  end_time = none;
  level = codes "warn";
  service = [];
  search = codes "a?b";
  limit = pos 5000;
  offset = pos 3;
}

query_of_filter : query_logs codec filter ≡ (
  codes
      "SELECT id, timestamp, level, service, message, attributes FROM system_logs WHERE timestamp >= ? AND level = ? AND message LIKE ? ORDER BY timestamp DESC LIMIT ? OFFSET ?",
  integer (pos 100000)
      ∷ text (codes "WARN")
      ∷ text (codes "%a?b%")
      ∷ integer (pos 100)
      ∷ integer (pos 3)
      ∷ [],
)
unfolding query_logs unix_milli
query_of_filter = refl

abbrev tagged : LogEntry
tagged = record entry {
  level = codes "WARN";
  service = codes "app";
  attributes = (codes "k", codes "v") ∷ [];
}

abbrev unmarshal : Unmarshal
unmarshal s = some ((codes "k", codes "v") ∷ [])

tagged-IsNormal : IsNormal codec tagged
unfolding to_upper trim_space unix_milli
tagged-IsNormal = record {
  level_upper = refl;
  level_given = refl;
  service_trimmed = refl;
  service_given = refl;
  not_1970 = refl;
  milliseconds = 5;
  below_second = omega arith;
  nsec_milli = refl;
}

entry_of-row_of_example :
    entry_of unmarshal (stored (pos 9) (row_of codec (at 0) tagged)) ≡ record tagged { id = pos 9 }
entry_of-row_of_example =
    entry_of-row_of codec unmarshal (at 0) (pos 9) tagged tagged-IsNormal
      (codes "{}", refl, refl, refl)

abbrev queries : QueryEngine in_list
queries = record {
  query = λ query args db. some ([], false);
  delete_before = λ ms db. some (rows_from ms db, none);
  count = λ db. some (pos (length db));
}

queries-Deletes : Deletes in_list queries
queries-Deletes ms db db' n h = let e = some-injective _ _ h in sym (ap (λ p. p.0) e)

abbrev late_row : Row
late_row = row_of codec (at 0) tagged

late_row-timestamp : late_row.timestamp ≡ unix_milli tagged.timestamp
unfolding row_of unix_milli
late_row-timestamp = refl

prune_old_logs-Holds_example :
    Holds late_row
      (prune_old_logs in_list queries
        (pos (2 * second))
        (record { sec = pos 9; nsec = 1 })
        (late_row ∷ [])).1
prune_old_logs-Holds_example =
    prune_old_logs-Holds in_list queries queries-Deletes 9 1 (2 * second) 7 5000000 (late_row ∷ [])
      late_row (omega arith) (omega arith) (omega arith) late_row-timestamp ([], [], refl)

-- A driver that keeps the statements, and has no foreign keys.
abbrev no_foreign_keys : Driver
no_foreign_keys = record {
  Handle = List Text;
  opens = λ path. some [];
  limits = λ open_conns idle_conns lifetime h. h;
  exec = λ sql h. (not (text_eq sql (codes "PRAGMA foreign_keys=ON;")), h ++ sql ∷ []);
  close = λ h. h ++ codes "close" ∷ [];
}

left_closed : new_sqlite_storage no_foreign_keys [] ≡ (
  some (init_failed (codes "PRAGMA foreign_keys=ON;")),
  some (
      codes "PRAGMA journal_mode=WAL;"
      ∷ codes "PRAGMA synchronous=NORMAL;"
      ∷ codes "PRAGMA busy_timeout=5000;"
      ∷ codes "PRAGMA foreign_keys=ON;"
      ∷ codes "close"
      ∷ []),
)
unfolding new_sqlite_storage text_eq
left_closed = refl

new_sqlite_storage-Opened_example :
    Opened no_foreign_keys [] (new_sqlite_storage no_foreign_keys [])
new_sqlite_storage-Opened_example = new_sqlite_storage-Opened no_foreign_keys []
