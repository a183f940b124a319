-- ===== src/Storage/Writer.antt =====
-- internal/storage/log_writer.go: the buffered writer of log entries.
-- The state holds what its goroutines share, with the program counter of each: the `Enqueue` calls
-- that have passed the test of `closed` and have not sent yet, the `Close` call that has set
-- `closed` and has not closed `done` yet, the batch worker and the prune worker. Where the code
-- calls `storage.WriteBatch`, the outcome is chosen by the step. The channel `ch` is never closed,
-- so the branches for a closed channel are not taken and have no step.
pub mod Steps
pub mod Inv
pub mod Shutdown
pub mod Ends
pub mod Calls
mod Tests
use sugi.Base.{
  ℕ, ◌+◌, ◌*◌, Bool, true, false, List, [], ◌∷◌, ◌++◌, if◌then◌else◌, ltb, leb, ◌==◌, length,
}
use sugi.Base.Int.{ℤ, pos, pos_part, le_zero}
use sugi.Model.Time.{Duration, millisecond, hour}
use sugi.Model.Log.{LogEntry}

pub record AsyncLogWriterConfig : Type 0 where
  pub buffer_size : ℤ
  pub batch_size : ℤ
  pub flush_interval : Duration
  pub retention : Duration
  pub prune_interval : Duration

abbrev pub default_config : AsyncLogWriterConfig
default_config = record {
  buffer_size = pos 5000;
  batch_size = pos 200;
  flush_interval = pos (500 * millisecond);
  retention = pos (7 * 24 * hour);
  prune_interval = pos (1 * hour);
}

-- How `NewAsyncLogWriter` replaces each setting that is not positive.
unfoldable pub with_defaults : AsyncLogWriterConfig → AsyncLogWriterConfig
with_defaults cfg = record {
  buffer_size = if le_zero cfg.buffer_size then pos 5000 else cfg.buffer_size;
  batch_size = if le_zero cfg.batch_size then pos 200 else cfg.batch_size;
  flush_interval =
      if le_zero cfg.flush_interval then pos (500 * millisecond) else cfg.flush_interval;
  retention = if le_zero cfg.retention then pos (7 * 24 * hour) else cfg.retention;
  prune_interval = if le_zero cfg.prune_interval then pos (1 * hour) else cfg.prune_interval;
}

-- The batch worker waits in its first `select`, empties the channel in the second, or has returned.
pub data Worker : Type 0 where
  selecting draining returned : Worker

pub record AsyncLogWriter : Type 0 where
  pub cfg : AsyncLogWriterConfig
  -- The channel `ch`, oldest entry first.
  pub ch : List LogEntry
  -- Whether the channel `done` is closed.
  pub done : Bool
  pub closed : Bool
  -- The local `batch` of the batch worker.
  pub batch : List LogEntry
  pub worker : Worker
  -- Whether the prune worker still runs.
  pub pruning : Bool
  -- Entries of `Enqueue` calls between the test of `closed` and the send.
  pub entering : List LogEntry
  -- Whether a `Close` call stands between setting `closed` and closing `done`.
  pub closing : Bool
  -- The calls of `storage.WriteBatch` so far, with whether each succeeded.
  pub writes : List (List LogEntry × Bool)

unfoldable pub new_writer : AsyncLogWriterConfig → AsyncLogWriter
new_writer cfg = record {
  cfg = with_defaults cfg;
  ch = [];
  done = false;
  closed = false;
  batch = [];
  worker = Worker.selecting;
  pruning = true;
  entering = [];
  closing = false;
  writes = [];
}

-- The second half of `Enqueue`: a send that does not block.
unfoldable pub send : AsyncLogWriter → LogEntry → Bool × AsyncLogWriter
send w entry =
    if ltb (length w.ch) (pos_part w.cfg.buffer_size)
    then (true, record w { ch = w.ch ++ entry ∷ [] })
    else (false, w)

-- `Enqueue` with no other goroutine between its halves.
unfoldable pub enqueue : AsyncLogWriter → LogEntry → Bool × AsyncLogWriter
unfolding send
enqueue w entry = if w.closed then (false, w) else send w entry

-- The closure `flush` of the batch worker; `written` is what `WriteBatch` makes of the batch.
unfoldable pub flush : Bool → AsyncLogWriter → AsyncLogWriter
flush written w =
    if length w.batch == 0
    then w
    else record w { batch = []; writes = w.writes ++ (w.batch, written) ∷ [] }

-- What both `select`s do with an entry from the channel.
unfoldable pub append : Bool → LogEntry → AsyncLogWriter → AsyncLogWriter
unfolding flush
append written entry w =
    let w' = record w { batch = w.batch ++ entry ∷ [] } in
    if leb (pos_part w.cfg.batch_size) (length w'.batch) then flush written w' else w'

-- The first half of `Close`, under the lock; the result says whether the call goes on.
unfoldable pub mark_closed : AsyncLogWriter → Bool × AsyncLogWriter
mark_closed w = if w.closed then (false, w) else (true, record w { closed = true; closing = true })
