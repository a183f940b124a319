-- ===== src/Server/Stop/Tests.antt =====
-- `Shutdown` at concrete runs, on an engine that keeps its rows in a list and whether it is open.
mod InList
use sugi.Base.{
  ◌≤◌, ℕ, zero, ◌+◌, ◌≡◌, ◌≢◌, refl, sym, ap, arith, Bool, true, false, Option, none, some, List,
  [], ◌∷◌, ◌++◌,
}
use sugi.Base.Int.{ℤ, pos}
use sugi.Base.Text.{codes}
use sugi.Model.Time.{is_zero_time}
use sugi.Model.Log.{LogEntry}
use mathlib.Core.Option.{some-injective}
use sugi.Storage.Writer.{
  AsyncLogWriter, Worker, new_writer, with_defaults, enqueue, default_config, send, append,
  mark_closed,
}
use sugi.Storage.Writer.Steps
use sugi.Storage.Sqlite.{Row, Engine, EngineLaws, Codec, row_of, write_batch}
use sugi.Storage.Sqlite.Reads.{QueryEngine, Deletes, rows_from, prune_threshold, prune_old_logs}
use sugi.Storage.Stored.{Store, Wrote, Moves, works, prunes, done, written, start}
use sugi.Storage.Stored.Kept.{Kept, table_of_accepted}
use sugi.Api.Hub.{SseHub, Channel, Phase, new_hub, on_close}
use sugi.Server.Stop.Tests.InList.{
  ListDb, begin_in, delete_in, in_list, queries, in_list-EngineLaws, queries-Deletes, closing,
  codec, at, line, fresh, empty, stored,
}
use sugi.Server.Stop.{
  Closing, Running, Progress, Acts, started, stores, locks, expires, closes_stop_chan, closes_hub,
  stops_harvester, http_ends, http_times_out, marks_closed, closes_done, workers_end, closes_db,
  here, next,
}
use sugi.Server.Stop.Clean.{Persisted, shutdown-Persisted}
use sugi.Server.Stop.Drain.{EndsInTime, awaiting-EndsInTime}
use sugi.Server.{log_entries}
use sugi.Server.Stop.Logged.{Acts-append, log_entries-Persisted}
use sugi.Api.Ingest.{ingest, fill_entry}
use sugi.Api.Ingest.Outcome.{accepted_of, server_sink}
use sugi.Server.Stop.Ingested.{ingest-Persisted}
use sugi.Server.Stop.Late.{closed_database_stays}
use sugi.Server.Stop.Streams.{Waits, open_stream-Waits}

abbrev hub : SseHub
hub = record { channels = []; broadcast = []; running = true; stopped = false }

abbrev server : AsyncLogWriter → ListDb → SseHub → Progress → Bool → Running in_list
server w db h p idle = record {
  store = record { writer = w; db = db };
  hub = h;
  progress = p;
  locked = false;
  expired = false;
  idle = idle;
  http_failed = false;
  writer_failed = false;
}

abbrev RunTo : List LogEntry → Running in_list → Type 0
RunTo xs s =
    Acts in_list queries codec closing (started in_list queries codec closing default_config empty)
      xs [] s

-- One entry is accepted.
abbrev sent : AsyncLogWriter
sent = record fresh { ch = line ∷ [] }

sent-Run : RunTo (line ∷ []) (server sent empty hub Progress.serving false)
unfolding new_writer with_defaults send new_hub
sent-Run =
    next
      (next here (
        stores (server fresh empty hub Progress.serving false)
          (works _ [] (Steps.enters fresh line refl) refl (done empty)) false refl refl (λ h. cc)
          refl))
      (stores (server (record fresh { entering = line ∷ [] }) empty hub Progress.serving false)
        (works _ [] (Steps.sends (record fresh { entering = line ∷ [] }) line [] [] refl) refl
          (done empty))
        false refl refl (λ h. cc) refl)

-- From there on, no more entries are accepted.
abbrev After : Running in_list → Type 0
After s = Acts in_list queries codec closing (server sent empty hub Progress.serving false) [] [] s

-- `Shutdown` has stopped the hub, the harvester and the HTTP server.
abbrev hub' : SseHub
hub' = record hub { stopped = true }

quiet-Run : After (server sent empty hub' Progress.closing_writer true)
unfolding on_close
quiet-Run =
    next
      (next
        (next (next here (closes_stop_chan (server sent empty hub Progress.serving false) refl))
          (closes_hub (server sent empty hub Progress.closing_hub false) hub' refl refl))
        (stops_harvester (server sent empty hub' Progress.stopping_harvester false) refl))
      (http_ends (server sent empty hub' Progress.stopping_http false) refl refl tt)

-- It has closed `done`.
abbrev ending : AsyncLogWriter
ending = record sent { closed = true; done = true }

ending-Run : After (server ending empty hub' Progress.awaiting_workers true)
unfolding mark_closed
ending-Run =
    next (next quiet-Run (marks_closed (server sent empty hub' Progress.closing_writer true) refl))
      (closes_done
        (server (record sent { closed = true; closing = true }) empty hub' Progress.closing_done
          true)
        refl)

-- The batch worker has written the entry, and both workers have returned.
abbrev draining : AsyncLogWriter
draining = record ending { worker = Worker.draining }

abbrev received : AsyncLogWriter
received = record draining { ch = []; batch = line ∷ [] }

abbrev over : AsyncLogWriter
over = record draining { ch = []; worker = Worker.returned; writes = (line ∷ [], true) ∷ [] }

live : Worker.draining ≢ Worker.returned
live = λ k. cc

selecting : Worker.selecting ≢ Worker.returned
selecting = λ k. cc

wrote : Wrote in_list codec empty ((line ∷ [], true) ∷ []) stored
unfolding write_batch
wrote = written (line ∷ []) at refl (done stored)

over-Run : After (server over stored hub' Progress.awaiting_workers true)
unfolding append
over-Run =
    next
      (next
        (next
          (next ending-Run (
            stores (server ending empty hub' Progress.awaiting_workers true)
              (works _ [] (Steps.sees_done ending refl refl) refl (done empty)) false refl refl
              (λ h. omega arith) refl))
          (stores (server draining empty hub' Progress.awaiting_workers true)
            (works _ [] (Steps.receives draining line [] true live refl) refl (done empty)) false
            refl refl (λ h. omega arith) refl))
        (locks (server received empty hub' Progress.awaiting_workers true) refl))
      (stores (record (server received empty hub' Progress.awaiting_workers true) { locked = true })
        (works _ ((line ∷ [], true) ∷ []) (Steps.finishes received true refl refl) refl wrote) false
        refl refl (λ h. omega arith) (refl, refl))

abbrev pruned : AsyncLogWriter
pruned = record over { pruning = false }

abbrev complete : Running in_list
complete = server pruned (false, stored.1) hub' Progress.complete true

complete-Run : After complete
complete-Run =
    next
      (next
        (next over-Run (
          stores (server over stored hub' Progress.awaiting_workers true)
            (works _ [] (Steps.stops_pruning over refl) refl (done stored)) false refl refl
            (λ h. omega arith) refl))
        (workers_end (server pruned stored hub' Progress.awaiting_workers true) refl refl refl))
      (closes_db (server pruned stored hub' Progress.closing_db true) refl refl)

-- The whole run.
whole : {s : Running in_list} → After s → RunTo (line ∷ []) s
whole r = Acts-append in_list queries codec closing sent-Run r

log_entries-Persisted_example : Persisted codec (line ∷ []) [] [] stored.1
unfolding new_writer with_defaults log_entries new_hub
log_entries-Persisted_example =
    log_entries-Persisted in_list in_list-EngineLaws queries queries-Deletes codec closing
      default_config empty (λ entry. none) (line ∷ []) here refl refl complete-Run refl refl refl
      (refl, tt)

-- A client sends the entry without its level.
abbrev bare : LogEntry
bare = record line { level = [] }

ingest-Persisted_example :
    (accepted_of (ingest (server_sink (λ entry. none)) (bare ∷ []) (at 9) (fresh, hub)).0 ≡ 1)
    × Persisted codec (line ∷ []) [] [] stored.1
unfolding new_writer with_defaults ingest new_hub fill_entry enqueue is_zero_time
ingest-Persisted_example =
    ingest-Persisted in_list in_list-EngineLaws queries queries-Deletes codec closing default_config
      empty (λ entry. none) (at 9) (bare ∷ []) here refl refl complete-Run refl refl refl (refl, tt)

shutdown-Persisted_example : Persisted codec (line ∷ []) [] [] stored.1
shutdown-Persisted_example =
    shutdown-Persisted in_list in_list-EngineLaws queries queries-Deletes codec closing
      default_config empty (whole complete-Run) refl refl refl (refl, tt)

closed_database_stays_example :
    (complete.store.db ≡ complete.store.db) × (Progress.complete ≡ Progress.complete)
closed_database_stays_example =
    closed_database_stays in_list queries codec closing default_config empty (whole complete-Run)
      refl (next here (expires complete))

awaiting-EndsInTime_example :
    EndsInTime in_list queries codec closing
      (server ending empty hub' Progress.awaiting_workers true)
awaiting-EndsInTime_example =
    awaiting-EndsInTime in_list queries codec closing in_list-EngineLaws queries-Deletes
      default_config empty (whole ending-Run) refl

-- An event stream is open when the hub stops.
abbrev stream : Channel
stream = record { buf = []; is_open = false; member = false; phase = Phase.leaving; out = [] }

abbrev streaming : Running in_list
streaming =
    server sent empty (record hub' { channels = stream ∷ []; running = false })
      Progress.stopping_http false

abbrev waited : Running in_list
waited = record streaming { expired = true; http_failed = true; progress = Progress.closing_writer }

waited-Run : Acts in_list queries codec closing streaming [] [] waited
waited-Run =
    next (next here (expires streaming))
      (http_times_out (record streaming { expired = true }) refl refl)

stream_left : Phase.leaving ≢ Phase.gone
stream_left = λ k. cc

open_stream-Waits_example : Waits waited
open_stream-Waits_example =
    open_stream-Waits in_list queries codec closing {s = streaming} zero refl stream_left refl
      waited-Run

-- The ticker of the batch worker fires, then that of the prune worker.
abbrev flushed : AsyncLogWriter
flushed = record fresh { writes = (line ∷ [], true) ∷ [] }

abbrev after : Store in_list
after = record { writer = flushed; db = stored }

abbrev threshold : ℤ
threshold = prune_threshold default_config.retention (at 50)

after-Moves :
    Moves in_list queries codec (start default_config empty) (line ∷ []) (threshold ∷ []) after
unfolding new_writer with_defaults send append row_of prune_old_logs
after-Moves =
    Moves.next
      (Moves.next
        (Moves.next
          (Moves.next
            (Moves.next Moves.here (
              works (record { writer = fresh; db = empty }) [] (Steps.enters fresh line refl) refl
                (done empty)))
            (works (record { writer = record fresh { entering = line ∷ [] }; db = empty }) []
              (Steps.sends (record fresh { entering = line ∷ [] }) line [] [] refl) refl
              (done empty)))
          (works (record { writer = sent; db = empty }) []
            (Steps.receives sent line [] true selecting refl) refl (done empty)))
        (works (record { writer = record fresh { batch = line ∷ [] }; db = empty })
          ((line ∷ [], true) ∷ []) (Steps.ticks (record fresh { batch = line ∷ [] }) true refl) refl
          wrote))
      (prunes after (at 50) refl)

table_of_accepted_example :
    Kept in_list in_list-EngineLaws queries queries-Deletes codec [] (threshold ∷ []) after
    × (line ∷ [] ≡ line ∷ [])
table_of_accepted_example =
    table_of_accepted in_list in_list-EngineLaws queries queries-Deletes codec default_config empty
      after-Moves
