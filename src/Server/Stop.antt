-- ===== src/Server/Stop.antt =====
-- `Shutdown` of internal/server/server.go, among the goroutines of the log writer, of the hub and
-- of the callers of both. The harvester's `Stop` and the HTTP server's `Shutdown` are steps that
-- wait; the deadline is the context of the caller. What `Shutdown` only logs is not modelled.
pub mod Stays
pub mod Inv
pub mod Clean
pub mod Logged
pub mod Ingested
pub mod Drain
pub mod Late
pub mod Streams
pub mod Ends
mod Tests
use sugi.Base.{
  ℕ, ◌≡◌, ◌≤◌, Bool, true, false, Option, none, some, List, [], ◌∷◌, ◌++◌, if◌then◌else◌, length,
  All,
}
use sugi.Base.Int.{ℤ}
use sugi.Model.Log.{LogEntry}
use sugi.Storage.Writer.{AsyncLogWriterConfig, AsyncLogWriter, Worker, mark_closed}
use sugi.Storage.Sqlite.{Row, Engine, Codec}
use sugi.Storage.Sqlite.Reads.{QueryEngine}
use sugi.Storage.Stored.{Store, Move, start, calls_storage}
use sugi.Api.Hub.{SseHub, Channel, Phase, new_hub, on_close}
use sugi.Api.Hub.Steps

-- `db.Close`, and what an engine documents about it: the rows stay in the file, and later calls
-- fail.
pub record Closing (e : Engine) (q : QueryEngine e) : Type 0 where
  pub close : e.Db → e.Db
  pub rows_closed : (db : e.Db) → e.rows (close db) ≡ e.rows db
  pub begin_closed : (db : e.Db) → e.begin_tx (close db) ≡ none
  pub delete_closed : (ms : ℤ) (db : e.Db) → q.delete_before ms (close db) ≡ none

-- Where `Shutdown` stands: not called, before each of its calls (`logWriter.Close` is three steps),
-- or over.
pub data Progress : Type 0 where
  serving closing_hub stopping_harvester stopping_http closing_writer closing_done awaiting_workers
        closing_db complete :
      Progress

pub record Running (e : Engine) : Type 0 where
  pub store : Store e
  pub hub : SseHub
  pub progress : Progress
  -- Whether a call of the storage holds its lock `s.mu`.
  pub locked : Bool
  -- Whether the deadline of the context has passed.
  pub expired : Bool
  -- Whether the harvester has stopped and the HTTP server has ended without an error.
  pub idle : Bool
  -- Whether the calls of `Shutdown` and `Close` have returned an error.
  pub http_failed : Bool
  pub writer_failed : Bool

abbrev pub IsGone : Channel → Type 0
IsGone c = c.phase ≡ Phase.gone

-- Where `logWriter.Close` goes on, by what it finds under the lock.
abbrev pub after_mark : Bool → Progress
after_mark true = closing_done
after_mark false = closing_db

-- A call of the storage ends with the action: it has the lock, and gives it back.
abbrev pub Releases : Bool → Bool → Bool → Type 0
Releases true before after = (before ≡ true) × (after ≡ false)
Releases false before after = after ≡ before

abbrev pub with_writer : {e : Engine} → Running e → AsyncLogWriter → Running e
with_writer s w = record s { store = record s.store { writer = w } }

module _ (e : Engine) (q : QueryEngine e) (c : Codec) (closing : Closing e q) where
  -- The server as it serves.
  abbrev pub started : AsyncLogWriterConfig → e.Db → Running e
  started cfg db = record {
    store = start cfg db;
    hub = new_hub;
    progress = serving;
    locked = false;
    expired = false;
    idle = false;
    http_failed = false;
    writer_failed = false;
  }

  -- One action, with the entries that the writer accepts and the times of the deletions.
  pub data Act : Running e → List LogEntry → List ℤ → Running e → Type 0 where
    -- The goroutines of the log writer and its callers. Only `Shutdown` closes the writer; where
    -- there is no request and no harvester, no call begins.
    stores :
        (s : Running e) {xs : List LogEntry} {ts : List ℤ} {t : Store e}
        (m : Move e q c s.store xs ts t) (locked : Bool)
        → t.writer.closed ≡ s.store.writer.closed
        → t.writer.done ≡ s.store.writer.done
        → (s.idle ≡ true → length t.writer.entering ≤ length s.store.writer.entering)
        → Releases (calls_storage e q c m) s.locked locked
        → Act s xs ts (record s { store = t; locked = locked })
    -- A call of the storage takes the lock; one that only reads gives it back.
    locks : (s : Running e) → s.locked ≡ false → Act s [] [] (record s { locked = true })
    unlocks : (s : Running e) → s.locked ≡ true → Act s [] [] (record s { locked = false })
    -- The goroutines of the hub and its callers.
    streams :
        (s : Running e) (h : SseHub)
        → Steps.Step s.hub (some h)
        → h.stopped ≡ s.hub.stopped
        → (s.idle ≡ true → length h.channels ≤ length s.hub.channels)
        → Act s [] [] (record s { hub = h })
    expires : (s : Running e) → Act s [] [] (record s { expired = true })
    closes_stop_chan :
        (s : Running e) → s.progress ≡ serving → Act s [] [] (record s { progress = closing_hub })
    closes_hub :
        (s : Running e) (h : SseHub)
        → s.progress ≡ Progress.closing_hub
        → on_close s.hub ≡ some h
        → Act s [] [] (record s { hub = h; progress = Progress.stopping_harvester })
    stops_harvester :
        (s : Running e)
        → s.progress ≡ stopping_harvester
        → Act s [] [] (record s { progress = stopping_http })
    -- All requests are over, those of the event streams with them.
    http_ends :
        (s : Running e)
        → s.progress ≡ stopping_http
        → s.store.writer.entering ≡ []
        → All IsGone s.hub.channels
        → Act s [] [] (record s { idle = true; progress = closing_writer })
    http_times_out :
        (s : Running e)
        → s.progress ≡ stopping_http
        → s.expired ≡ true
        → Act s [] [] (record s { http_failed = true; progress = closing_writer })
    marks_closed :
        (s : Running e)
        → s.progress ≡ closing_writer
        → Act s [] [] (record (with_writer s (mark_closed s.store.writer).1) {
          progress = after_mark (mark_closed s.store.writer).0;
        })
    closes_done :
        (s : Running e)
        → s.progress ≡ closing_done
        → Act s [] []
            (record (with_writer s (record s.store.writer { done = true; closing = false })) {
              progress = awaiting_workers;
            })
    workers_end :
        (s : Running e)
        → s.progress ≡ awaiting_workers
        → s.store.writer.worker ≡ Worker.returned
        → s.store.writer.pruning ≡ false
        → Act s [] [] (record s { progress = closing_db })
    workers_time_out :
        (s : Running e)
        → s.progress ≡ awaiting_workers
        → s.expired ≡ true
        → Act s [] [] (record s { writer_failed = true; progress = closing_db })
    -- `sqlite.Close` waits for the lock.
    closes_db :
        (s : Running e)
        → s.progress ≡ closing_db
        → s.locked ≡ false
        → Act s [] [] (record s {
          store = record s.store { db = closing.close s.store.db };
          progress = complete;
        })

  -- The states that follow `s`.
  pub data Acts (s : Running e) : List LogEntry → List ℤ → Running e → Type 0 where
    here : Acts s [] [] s
    next :
        {xs ys : List LogEntry} {ts us : List ℤ} {t u : Running e}
        → Acts s xs ts t
        → Act t ys us u
        → Acts s (xs ++ ys) (ts ++ us) u
