-- ===== src/Server/Stop/Ingested.antt =====
-- The entries that a client sends reach the table: `HandleIngestLogs` of internal/api/handler.go in
-- the runs of internal/server/server.go.
use sugi.Base.{
  ℕ, ◌≡◌, refl, sym, ap, ◌∙◌, Bool-cases, false, Option, List, [], ◌∷◌, ◌++◌, arith, map, take,
  length, All, inl, inr, ltb, ◌==◌, ◌&&◌,
}
use sugi.Base.Int.{ℤ}
use sugi.Base.Text.{Text}
use mathlib.Core.List.{append_cancel_left}
use sugi.Model.Time.{Instant}
use sugi.Model.Log.{LogEntry}
use sugi.Storage.Writer.{AsyncLogWriterConfig, AsyncLogWriter, enqueue}
use sugi.Storage.Sqlite.{Engine, EngineLaws, Codec}
use sugi.Storage.Sqlite.Reads.{QueryEngine, Deletes}
use sugi.Api.Hub.{SseHub}
use sugi.Api.Ingest.{fill_entry, ingest_entry, ingest_entries, ingest}
use sugi.Api.Ingest.Outcome.{accepted_of, server_sink, ingest-Queued}
use sugi.Server.{log_entry, log_entries}
use sugi.Server.Logging.{room, log_entries-take}
use sugi.Server.Stop.{Closing, Running, Progress, Acts, started, with_writer}
use sugi.Server.Stop.Clean.{Persisted, Succeeded}
use sugi.Server.Stop.Logged.{log_entries-Persisted}

-- The entries as they are handed to the log writer.
abbrev pub filled : Instant → List LogEntry → List LogEntry
filled now entries = map (fill_entry now) entries

module _ (marshal : LogEntry → Option Text) (now : Instant) where
  -- Apart from its counts the handler does with an entry what the server does with its own.
  ingest_entry-log_entry :
      (entry : LogEntry) (a d : ℕ) (w : AsyncLogWriter) (h : SseHub)
      → (ingest_entry (server_sink marshal) now entry (a, d, (w, h))).2
        ≡ log_entry marshal (fill_entry now entry) (w, h)
  unfolding ingest_entry log_entry
  ingest_entry-log_entry entry a d w h = elim (Bool-cases (enqueue w (fill_entry now entry)).0) [
    | inl taken ↦ rw taken refl
    | inr dropped ↦ rw dropped refl
  ]

  ingest_entries-log_entries :
      (entries : List LogEntry) (a d : ℕ) (s : AsyncLogWriter × SseHub)
      → (ingest_entries (server_sink marshal) entries now (a, d, s)).2
        ≡ log_entries marshal (filled now entries) s
  unfolding ingest_entries log_entries
  ingest_entries-log_entries [] a d s = refl
  ingest_entries-log_entries (entry ∷ entries) a d (w, h) =
      let (a', d', s') = ingest_entry (server_sink marshal) now entry (a, d, (w, h)) in
      ingest_entries-log_entries entries a' d' s'
      ∙ ap (log_entries marshal (filled now entries)) (ingest_entry-log_entry entry a d w h)

  ingest-log_entries :
      (entries : List LogEntry) (s : AsyncLogWriter × SseHub)
      → (ingest (server_sink marshal) entries now s).1 ≡ log_entries marshal (filled now entries) s
  unfolding ingest
  ingest-log_entries entries s =
      let (a, d, s') = ingest_entries (server_sink marshal) entries now (0, 0, s) in
      elim (Bool-cases ((a == 0) && ltb 0 d)) [
        | inl none_taken ↦ rw none_taken (ingest_entries-log_entries entries 0 0 s)
        | inr some_taken ↦ rw some_taken (ingest_entries-log_entries entries 0 0 s)
      ]

  -- What is queued is as many of the entries as the channel has room for, and their number is
  -- replied.
  accepted_of-take :
      (entries : List LogEntry) (w : AsyncLogWriter) (h : SseHub)
      → w.closed ≡ false
      → accepted_of (ingest (server_sink marshal) entries now (w, h)).0
        ≡ length (take (room w) (filled now entries))
  accepted_of-take entries w h open_ =
      let (taken, (grew, (counted, filled_in))) = ingest-Queued marshal entries now w h in
      let state =
        ingest-log_entries entries (w, h)
        ∙ log_entries-take marshal (filled now entries) w h open_ in
      let same : taken ≡ take (room w) (filled now entries) =
        append_cancel_left w.ch taken (take (room w) (filled now entries))
          (sym grew ∙ ap (λ s. s.0.ch) state) in
      omega (arith, counted, ap length same)

-- Given EngineLaws, Deletes and Closing: of the entries of a request that `HandleIngestLogs` takes
-- while the log writer is open and nothing comes in between, as many as its reply counts as
-- accepted, the first ones, filled in, are in the closed database once `Shutdown` has ended without
-- running into the deadline and no `WriteBatch` has failed, between the entries accepted before and
-- later, less rows older than the time of some deletion.
pub ingest-Persisted :
    (e : Engine) (laws : EngineLaws e) (q : QueryEngine e) (law : Deletes e q) (c : Codec)
    (closing : Closing e q) (cfg : AsyncLogWriterConfig) (db : e.Db)
    (marshal : LogEntry → Option Text) (now : Instant) (entries : List LogEntry) {s t : Running e}
    {xs ys : List LogEntry} {ts us : List ℤ}
    → Acts e q c closing (started e q c closing cfg db) xs ts s
    → s.store.writer.closed ≡ false
    → s.idle ≡ false
    → Acts e q c closing
        (with_writer s (ingest (server_sink marshal) entries now (s.store.writer, s.hub)).1.0)
        ys
        us
        t
    → t.progress ≡ Progress.complete
    → t.http_failed ≡ false
    → t.writer_failed ≡ false
    → All Succeeded t.store.writer.writes
    → let reply = (ingest (server_sink marshal) entries now (s.store.writer, s.hub)).0 in
      let stored = take (room s.store.writer) (filled now entries) in
      (accepted_of reply ≡ length stored)
      × Persisted c (xs ++ stored ++ ys) (ts ++ us) (e.rows db) (e.rows t.store.db)
ingest-Persisted e laws q law c closing cfg db marshal now entries {s} r open_ busy r' over http
      writer ok =
    let state = ingest-log_entries marshal now entries (s.store.writer, s.hub) in
    (
      accepted_of-take marshal now entries s.store.writer s.hub open_,
      log_entries-Persisted e laws q law c closing cfg db marshal (filled now entries) r open_ busy
          (rw state at r') over http writer ok,
    )
