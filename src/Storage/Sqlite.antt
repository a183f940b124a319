-- ===== src/Storage/Sqlite.antt =====
-- internal/storage/sqlite.go: the log table. The SQL engine is a parameter: a database, the
-- transactions on it and the calls that the code makes, `none` being an error. A transaction that
-- is not committed leaves no trace, so `Rollback` needs no step.
pub mod Batch
pub mod Query
pub mod Open
pub mod Reads
pub mod RoundTrip
pub mod Prune
mod Tests
use sugi.Base.{
  ℕ, suc, ◌+◌, ◌≡◌, Bool, true, false, not, Option, none, some, List, [], ◌∷◌, ◌++◌, if◌then◌else◌,
  ltb, ◌==◌, ◌||◌,
}
use sugi.Base.Int.{ℤ, pos, negsuc, le_zero, ltb_ℤ}
use sugi.Base.Text.{Text, codes, is_empty, trim_space, to_upper}
use sugi.Base.Result.{Result, ok, err}
use sugi.Model.Time.{Instant, unix_milli}
use sugi.Model.Log.{LogEntry, LogFilter}

-- The columns of an inserted row, in the order of the statement.
pub record Row : Type 0 where
  pub timestamp : ℤ
  pub level : Text
  pub service : Text
  pub message : Text
  pub attributes : Text

-- An argument of a query.
pub data Value : Type 0 where
  integer : ℤ → Value
  text : Text → Value

pub record Engine : Type 1 where
  pub Db : Type 0
  pub Tx : Type 0
  pub begin_tx : Db → Option Tx
  -- Whether the insert statement can be prepared.
  pub prepares : Tx → Bool
  pub exec_insert : Row → Tx → Option Tx
  pub commit : Tx → Option Db
  -- The rows that a database or an open transaction has, in the order of insertion.
  pub rows : Db → List Row
  pub tx_rows : Tx → List Row

-- What an engine documents.
pub record EngineLaws (e : Engine) : Type 0 where
  pub begin_rows : (db : e.Db) (tx : e.Tx) → e.begin_tx db ≡ some tx → e.tx_rows tx ≡ e.rows db
  pub insert_rows :
      (row : Row) (tx tx' : e.Tx)
      → e.exec_insert row tx ≡ some tx'
      → e.tx_rows tx' ≡ e.tx_rows tx ++ row ∷ []
  pub commit_rows : (tx : e.Tx) (db : e.Db) → e.commit tx ≡ some db → e.rows db ≡ e.tx_rows tx

pub data DbError : Type 0 where
  begin_failed prepare_failed insert_failed commit_failed : DbError

-- What the code takes from elsewhere: the tables of unicode.ToUpper beyond ASCII, and json.Marshal.
pub record Codec : Type 0 where
  pub wide_upper : ℕ → ℕ
  pub marshal : List (Text × Text) → Option Text

abbrev pub is_zero_ℤ : ℤ → Bool
is_zero_ℤ (pos n) = n == 0
is_zero_ℤ (negsuc n) = false

abbrev or_empty : Option Text → Text
or_empty none = []
or_empty (some s) = s

abbrev or_default : Text → Text → Text
or_default d s = if is_empty s then d else s

abbrev pub attr_str : Codec → List (Text × Text) → Text
attr_str c [] = []
attr_str c (a ∷ as') = or_empty (c.marshal (a ∷ as'))

-- The arguments of the insert for an entry; `now` is the clock where the code reads it.
unfoldable pub row_of : Codec → Instant → LogEntry → Row
unfolding unix_milli to_upper trim_space
row_of c now entry =
    let ts = unix_milli entry.timestamp in
    record {
      timestamp = if is_zero_ℤ ts then unix_milli now else ts;
      level = or_default (codes "INFO") (to_upper c.wide_upper (trim_space entry.level));
      service = or_default (codes "default") (trim_space entry.service);
      message = entry.message;
      attributes = attr_str c entry.attributes;
    }

module _ (e : Engine) (c : Codec) where
  open e use {Db, Tx}

  -- The loop of `WriteBatch`; `clock i` is what the clock shows at the entry `i`.
  unfoldable pub insert_entries : List LogEntry → (ℕ → Instant) → Tx → Option Tx
  unfolding row_of
  insert_entries [] clock tx = some tx
  insert_entries (entry ∷ entries) clock tx = elim (e.exec_insert (row_of c (clock 0) entry) tx) [
    | none ↦ none
    | some tx' ↦ insert_entries entries (λ i. clock (suc i)) tx'
  ]

  unfoldable pub commit_tx : Option Tx → Db → Option DbError × Db
  commit_tx none db = (some insert_failed, db)
  commit_tx (some tx) db = elim (e.commit tx) [
    | none ↦ (some commit_failed, db)
    | some db' ↦ (none, db')
  ]

  unfoldable pub in_tx : Option Tx → List LogEntry → (ℕ → Instant) → Db → Option DbError × Db
  unfolding insert_entries commit_tx
  in_tx none entries clock db = (some begin_failed, db)
  in_tx (some tx) entries clock db =
      if e.prepares tx
      then commit_tx (insert_entries entries clock tx) db
      else (some prepare_failed, db)

  -- `WriteBatch`.
  unfoldable pub write_batch : List LogEntry → (ℕ → Instant) → Db → Option DbError × Db
  unfolding in_tx
  write_batch [] clock db = (none, db)
  write_batch (entry ∷ entries) clock db = in_tx (e.begin_tx db) (entry ∷ entries) clock db

  -- `WriteLog`.
  unfoldable pub write_log : LogEntry → (ℕ → Instant) → Db → Option DbError × Db
  unfolding write_batch
  write_log entry clock db = write_batch (entry ∷ []) clock db

-- The variables `conditions` and `args` of `QueryLogs`.
abbrev pub Clauses : Type 0
Clauses = List Text × List Value

unfoldable pub add_clause : Text → Option Value → Clauses → Clauses
add_clause condition none (conditions, args) = (conditions, args)
add_clause condition (some v) (conditions, args) = (conditions ++ condition ∷ [], args ++ v ∷ [])

abbrev pub time_value : Option Instant → Option Value
time_value none = none
time_value (some t) = some (integer (unix_milli t))

abbrev pub text_value : (Text → Text) → Text → Option Value
text_value change s = if is_empty s then none else some (text (change s))

unfoldable pub filter_clauses : Codec → LogFilter → Clauses
unfolding add_clause to_upper
filter_clauses c filter =
    add_clause (codes "message LIKE ?")
      (text_value (λ s. codes "%" ++ (s ++ codes "%")) filter.search)
      (add_clause (codes "service = ?") (text_value (λ s. s) filter.service) (
        add_clause (codes "level = ?") (text_value (to_upper c.wide_upper) filter.level) (
          add_clause (codes "timestamp <= ?") (time_value filter.end_time)
            (add_clause (codes "timestamp >= ?") (time_value filter.start_time) ([], [])))))

-- `strings.Join(conditions, " AND ")`.
unfoldable pub join_and : List Text → Text
join_and [] = []
join_and (s ∷ []) = s
join_and (s ∷ t ∷ ss) = s ++ (codes " AND " ++ join_and (t ∷ ss))

unfoldable pub effective_limit : ℤ → ℤ
effective_limit limit = if le_zero limit || ltb_ℤ (pos 1000) limit then pos 100 else limit

abbrev pub where_clause : List Text → Text
where_clause [] = []
where_clause (s ∷ ss) = codes " WHERE " ++ join_and (s ∷ ss)

-- The query and the arguments that `QueryLogs` passes to the database.
unfoldable pub query_logs : Codec → LogFilter → Text × List Value
unfolding filter_clauses join_and effective_limit
query_logs c filter =
    let (conditions, args) = filter_clauses c filter in
    let query =
      codes "SELECT id, timestamp, level, service, message, attributes FROM system_logs"
      ++ (where_clause conditions ++ codes " ORDER BY timestamp DESC LIMIT ?") in
    let limited = args ++ integer (effective_limit filter.limit) ∷ [] in
    if ltb_ℤ (pos 0) filter.offset
    then (query ++ codes " OFFSET ?", limited ++ integer filter.offset ∷ [])
    else (query, limited)
