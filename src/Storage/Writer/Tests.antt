-- ===== src/Storage/Writer/Tests.antt =====
-- The log writer's theorems at concrete runs.
use sugi.Base.{◌≡◌, ◌≢◌, ◌<◌, ◌≤◌, refl, true, false, [], ◌∷◌, length, All}
use sugi.Base.Int.{pos, negsuc, pos_part}
use sugi.Base.Text.{codes}
use sugi.Model.Time.{zero_time}
use sugi.Model.Log.{LogEntry}
use sugi.Storage.Writer.{
  AsyncLogWriterConfig, AsyncLogWriter, Worker, new_writer, with_defaults, default_config, enqueue,
  send,
}
use sugi.Storage.Writer.Steps.{
  Run, here, next, enters, sends, receives, marks, closes_done, sees_done, finishes,
}
use sugi.Storage.Writer.Inv.{Sized}
use sugi.Storage.Writer.Calls.{writes-Sized}
use sugi.Storage.Writer.Ends.{Proceeds, worker_steps, draining_ends}
use sugi.Storage.Writer.Shutdown.{late_entries_stay}

abbrev line : LogEntry
line = record {
  id = pos 0;
  timestamp = zero_time;
  level = codes "INFO";
  service = codes "api";
  message = codes "up";
  attributes = [];
}

-- A writer whose settings are all taken from the defaults.
abbrev cfg : AsyncLogWriterConfig
cfg = record default_config { buffer_size = pos 0; batch_size = negsuc 4 }

abbrev fresh : AsyncLogWriter
fresh = record {
  cfg = default_config;
  ch = [];
  done = false;
  closed = false;
  batch = [];
  worker = Worker.selecting;
  pruning = true;
  entering = [];
  closing = false;
  writes = [];
}

fresh-new_writer : new_writer cfg ≡ fresh
unfolding new_writer with_defaults
fresh-new_writer = refl

-- One entry is accepted.
abbrev sent : AsyncLogWriter
sent = record fresh { ch = line ∷ [] }

sent-Run : Run (new_writer cfg) (line ∷ []) sent
unfolding new_writer with_defaults send
sent-Run =
    next (next here (enters fresh line refl))
      (sends (record fresh { entering = line ∷ [] }) line [] [] refl)

-- `Close` has set `closed`.
abbrev marked : AsyncLogWriter
marked = record sent { closed = true; closing = true }

marked-Run : Run (new_writer cfg) (line ∷ []) marked
unfolding sugi.Storage.Writer.mark_closed
marked-Run = next sent-Run (marks sent)

-- The batch worker has seen `done`.
abbrev stopping : AsyncLogWriter
stopping = record sent { closed = true; done = true; worker = Worker.draining }

stopping-Run : Run (new_writer cfg) (line ∷ []) stopping
stopping-Run =
    next (next marked-Run (closes_done marked refl))
      (sees_done (record sent { closed = true; done = true }) refl refl)

-- It has written the entry and returned.
abbrev over : AsyncLogWriter
over = record stopping { ch = []; worker = Worker.returned; writes = (line ∷ [], true) ∷ [] }

over-Run : Run (new_writer cfg) (line ∷ []) over
unfolding sugi.Storage.Writer.append
over-Run =
    next (next stopping-Run (receives stopping line [] true (cc) refl))
      (finishes (record stopping { ch = []; batch = line ∷ [] }) true refl refl)

enqueue_full :
    (enqueue (record sent { cfg = record default_config { buffer_size = pos 1 } }) line).0 ≡ false
unfolding enqueue
enqueue_full = refl

writes-Sized_example :
    All (Sized (with_defaults cfg)) over.writes
    × (length over.batch < pos_part (with_defaults cfg).batch_size)
    × (length over.ch ≤ pos_part (with_defaults cfg).buffer_size)
writes-Sized_example = writes-Sized cfg over-Run

live : Worker.draining ≢ Worker.returned
live = λ c. cc

abbrev ending : Run stopping [] over
unfolding sugi.Storage.Writer.append
ending =
    next (next here (receives stopping line [] true live refl))
      (finishes (record stopping { ch = []; batch = line ∷ [] }) true refl refl)

draining_ends_example : (worker_steps ending ≤ 2) × Proceeds over
unfolding sugi.Storage.Writer.append
draining_ends_example = draining_ends cfg {u = stopping} stopping-Run refl ending

-- The test of `closed` came before `Close`, the send after the worker's return.
abbrev late : AsyncLogWriter
late = record over { entering = line ∷ [] }

late-Run : Run late (line ∷ []) (record over { ch = line ∷ [] })
unfolding send
late-Run = next here (sends late line [] [] refl)

late_entries_stay_example : (over.writes ≡ over.writes) × (line ∷ [] ≡ line ∷ [])
late_entries_stay_example = late_entries_stay {u = late} refl late-Run
