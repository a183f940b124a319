-- ===== src/Storage/Writer/Steps.antt =====
-- The interleavings of the goroutines of internal/storage/log_writer.go.
use sugi.Base.{◌≡◌, ◌≢◌, Bool, true, false, List, [], ◌∷◌, ◌++◌}
use sugi.Storage.Writer.{AsyncLogWriter, Worker, send, flush, append, mark_closed}
use sugi.Model.Log.{LogEntry}

-- The entries for which a send returns true.
abbrev pub accepted : LogEntry → Bool × AsyncLogWriter → List LogEntry
accepted entry (true, w) = entry ∷ []
accepted entry (false, w) = []

-- One atomic action of one goroutine, with the entries that it accepts.
pub data Step : AsyncLogWriter → List LogEntry → AsyncLogWriter → Type 0 where
  -- An `Enqueue` call finds the writer open.
  enters :
      (w : AsyncLogWriter) (entry : LogEntry)
      → w.closed ≡ false
      → Step w [] (record w { entering = entry ∷ w.entering })
  -- One that has done so sends, or drops its entry where the channel is full.
  sends :
      (w : AsyncLogWriter) (entry : LogEntry) (before after : List LogEntry)
      → w.entering ≡ before ++ entry ∷ after
      → Step w
          (accepted entry (send w entry))
          (record (send w entry).1 { entering = before ++ after })
  -- The batch worker receives, in either `select`.
  receives :
      (w : AsyncLogWriter) (entry : LogEntry) (rest : List LogEntry) (written : Bool)
      → w.worker ≢ Worker.returned
      → w.ch ≡ entry ∷ rest
      → Step w [] (append written entry (record w { ch = rest }))
  -- Its ticker fires.
  ticks :
      (w : AsyncLogWriter) (written : Bool)
      → w.worker ≡ Worker.selecting
      → Step w [] (flush written w)
  -- It sees `done`.
  sees_done :
      (w : AsyncLogWriter)
      → w.worker ≡ Worker.selecting
      → w.done ≡ true
      → Step w [] (record w { worker = Worker.draining })
  -- The channel is empty while it drains: it flushes and returns.
  finishes :
      (w : AsyncLogWriter) (written : Bool)
      → w.worker ≡ Worker.draining
      → w.ch ≡ []
      → Step w [] (record (flush written w) { worker = Worker.returned })
  -- The prune worker sees `done`. (What it prunes is the storage's.)
  stops_pruning : (w : AsyncLogWriter) → w.done ≡ true → Step w [] (record w { pruning = false })
  -- A `Close` call takes the lock.
  marks : (w : AsyncLogWriter) → Step w [] (mark_closed w).1
  -- The one that goes on closes `done`.
  closes_done :
      (w : AsyncLogWriter)
      → w.closing ≡ true
      → Step w [] (record w { done = true; closing = false })

-- The states that follow `w`, with the entries accepted on the way, in order.
pub data Run (w : AsyncLogWriter) : List LogEntry → AsyncLogWriter → Type 0 where
  here : Run w [] w
  next :
      {xs ys : List LogEntry} {u v : AsyncLogWriter} → Run w xs u → Step u ys v → Run w (xs ++ ys) v
