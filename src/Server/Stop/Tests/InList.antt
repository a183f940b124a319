-- ===== src/Server/Stop/Tests/InList.antt =====
-- An engine that keeps its rows in a list and whether it is open, and a log writer on it.
use sugi.Base.{
  ℕ, ◌+◌, ◌≡◌, refl, sym, ap, Bool, true, false, Option, none, some, List, [], ◌∷◌, ◌++◌,
}
use sugi.Base.Int.{ℤ, pos}
use sugi.Base.Text.{codes}
use mathlib.Core.Option.{some-injective}
use sugi.Model.Time.{Instant}
use sugi.Model.Log.{LogEntry}
use sugi.Storage.Writer.{AsyncLogWriter, Worker, default_config}
use sugi.Storage.Sqlite.{Row, Engine, EngineLaws, Codec, row_of}
use sugi.Storage.Sqlite.Reads.{QueryEngine, Deletes, rows_from}
use sugi.Server.Stop.{Closing}

abbrev pub ListDb : Type 0
ListDb = Bool × List Row

abbrev pub begin_in : ListDb → Option (List Row)
begin_in (true, rows) = some rows
begin_in (false, rows) = none

abbrev pub delete_in : ℤ → ListDb → Option (ListDb × Option ℤ)
delete_in ms (true, rows) = some ((true, rows_from ms rows), none)
delete_in ms (false, rows) = none

abbrev pub in_list : Engine
in_list = record {
  Db = ListDb;
  Tx = List Row;
  begin_tx = begin_in;
  prepares = λ tx. true;
  exec_insert = λ row tx. some (tx ++ row ∷ []);
  commit = λ tx. some (true, tx);
  rows = λ db. db.1;
  tx_rows = λ tx. tx;
}

abbrev pub queries : QueryEngine in_list
queries = record {
  query = λ query args db. some ([], false);
  delete_before = delete_in;
  count = λ db. none;
}

begun : (db : ListDb) (tx : List Row) → begin_in db ≡ some tx → tx ≡ db.1
begun (true, rows) tx h = cc
begun (false, rows) tx h = cc

pub in_list-EngineLaws : EngineLaws in_list
in_list-EngineLaws = record {
  begin_rows = begun;
  insert_rows = λ row tx tx' h. sym (some-injective _ _ h);
  commit_rows = λ tx db h. sym (ap (λ d. d.1) (some-injective _ _ h));
}

deleted :
    (ms : ℤ) (db db' : ListDb) (n : Option ℤ)
    → delete_in ms db ≡ some (db', n)
    → db'.1 ≡ rows_from ms db.1
deleted ms (true, rows) db' n h = sym (ap (λ d. d.0.1) (some-injective _ _ h))
deleted ms (false, rows) db' n h = cc

pub queries-Deletes : Deletes in_list queries
queries-Deletes = deleted

abbrev pub closing : Closing in_list queries
closing = record {
  close = λ db. (false, db.1);
  rows_closed = λ db. refl;
  begin_closed = λ db. refl;
  delete_closed = λ ms db. refl;
}

abbrev pub codec : Codec
codec = record { wide_upper = λ c. c; marshal = λ attrs. none }

abbrev pub at : ℕ → Instant
at i = record { sec = pos (100 + i); nsec = 0 }

abbrev pub line : LogEntry
line = record {
  id = pos 0;
  timestamp = at 0;
  level = codes "INFO";
  service = codes "api";
  message = codes "up";
  attributes = [];
}

abbrev pub fresh : AsyncLogWriter
fresh = record {
  cfg = default_config;
  ch = [];
  done = false;
  closed = false;
  batch = [];
  worker = Worker.selecting;
  pruning = true;
  entering = [];
  closing = false;
  writes = [];
}

abbrev pub empty : ListDb
empty = (true, [])

abbrev pub stored : ListDb
stored = (true, row_of codec (at 0) line ∷ [])
