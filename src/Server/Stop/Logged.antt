-- ===== src/Server/Stop/Logged.antt =====
-- The entries that the server and its harvester log reach the table: `Enqueue` of
-- internal/storage/log_writer.go in the runs of internal/server/server.go.
use sugi.Base.{
  ℕ, zero, suc, ◌≡◌, refl, sym, true, false, Option, List, [], ◌∷◌, ◌++◌, arith, append-nil,
  append_assoc, take, length-append, All,
}
use sugi.Base.Int.{ℤ}
use sugi.Base.Text.{Text}
use sugi.Model.Log.{LogEntry}
use sugi.Storage.Writer.{AsyncLogWriterConfig, AsyncLogWriter, send}
use sugi.Storage.Writer.Steps
use sugi.Storage.Sqlite.{Engine, EngineLaws, Codec}
use sugi.Storage.Sqlite.Reads.{QueryEngine, Deletes}
use sugi.Storage.Stored.{done, works}
use sugi.Api.Hub.{SseHub}
use sugi.Server.{log_entries}
use sugi.Server.Logging.{room, log_entries-take}
use sugi.Server.Stop.{Closing, Running, Progress, Acts, started, with_writer, stores, here, next}
use sugi.Server.Stop.Clean.{Persisted, Succeeded, shutdown-Persisted}

-- A send to a channel with room.
send-room :
    (w : AsyncLogWriter) (entry : LogEntry) (n : ℕ)
    → room w ≡ suc n
    → send w entry ≡ (true, record w { ch = w.ch ++ entry ∷ [] })
unfolding send
send-room w entry n h = ground (arith, h)

module _ (e : Engine) (q : QueryEngine e) (c : Codec) (closing : Closing e q) where
  pub Acts-append :
      {s t u : Running e} {xs ys : List LogEntry} {ts us : List ℤ}
      → Acts e q c closing s xs ts t
      → Acts e q c closing t ys us u
      → Acts e q c closing s (xs ++ ys) (ts ++ us) u
  Acts-append {xs = xs} {ts = ts} r here = rw (append-nil xs, append-nil ts) r
  Acts-append {xs = xs} {ts = ts} r (next {xs = ys} {ys = zs} {ts = us} {us = vs} r' a) =
      rw (← append_assoc xs ys zs, ← append_assoc ts us vs) (next (Acts-append r r') a)

  -- An `Enqueue` call with nothing in between.
  enqueue-Acts :
      (s : Running e) (entry : LogEntry) (n : ℕ)
      → s.store.writer.closed ≡ false
      → s.idle ≡ false
      → room s.store.writer ≡ suc n
      → Acts e q c closing s
          (entry ∷ [])
          []
          (with_writer s (record s.store.writer { ch = s.store.writer.ch ++ entry ∷ [] }))
  enqueue-Acts s entry n open_ busy h =
      let w = s.store.writer in
      let w' = record w { entering = entry ∷ w.entering } in
      let sends : Steps.Step w' (entry ∷ []) (record w { ch = w.ch ++ entry ∷ [] }) =
        rw (send-room w' entry n h) at (Steps.sends w' entry [] w.entering refl) in
      let nothing = sym (append-nil w.writes) in
      next
        (next here (
          stores s (works s.store [] (Steps.enters w entry open_) nothing (done s.store.db))
            s.locked refl refl (λ k. cc) refl))
        (stores (with_writer s w')
          (works (record s.store { writer = w' }) [] sends nothing (done s.store.db)) s.locked refl
          refl (λ k. cc) refl)

  -- As many as the channel has room for are accepted.
  queued-Acts :
      (entries : List LogEntry) (n : ℕ) (s : Running e)
      → room s.store.writer ≡ n
      → s.store.writer.closed ≡ false
      → s.idle ≡ false
      → Acts e q c closing s
          (take n entries)
          []
          (with_writer s (record s.store.writer { ch = s.store.writer.ch ++ take n entries }))
  queued-Acts entries zero s h open_ busy = rw (append-nil s.store.writer.ch) here
  queued-Acts [] (suc n) s h open_ busy = rw (append-nil s.store.writer.ch) here
  queued-Acts (entry ∷ entries) (suc n) s h open_ busy =
      let w = record s.store.writer { ch = s.store.writer.ch ++ entry ∷ [] } in
      let less : room w ≡ n = omega (arith, h, length-append s.store.writer.ch (entry ∷ [])) in
      rw (← append_assoc s.store.writer.ch (entry ∷ []) (take n entries)) (
        Acts-append (enqueue-Acts s entry n open_ busy h)
          (queued-Acts entries n (with_writer s w) less open_ busy))

  -- The writer that `log_entries` leaves is reached by `Enqueue` calls that follow one another.
  -- What the hub is given with them is actions of its own.
  log_entries-Acts :
      (marshal : LogEntry → Option Text) (entries : List LogEntry) (h : SseHub) (s : Running e)
      → s.store.writer.closed ≡ false
      → s.idle ≡ false
      → Acts e q c closing s
          (take (room s.store.writer) entries)
          []
          (with_writer s (log_entries marshal entries (s.store.writer, h)).0)
  log_entries-Acts marshal entries h s open_ busy =
      rw (log_entries-take marshal entries s.store.writer h open_)
        (queued-Acts entries (room s.store.writer) s refl open_ busy)

-- Given EngineLaws, Deletes and Closing: when the server logs entries one after the other with no
-- other action in between (no worker receives meanwhile, so the room of the channel is that of the
-- state before), while its log writer is open and the HTTP server has not ended in time (`idle` is
-- false), then as many as the channel has room for are in the closed database once `Shutdown` has
-- ended without running into the deadline and no `WriteBatch` has failed: they stand between those
-- accepted before and those accepted later, less rows older than the time of some deletion.
pub log_entries-Persisted :
    (e : Engine) (laws : EngineLaws e) (q : QueryEngine e) (law : Deletes e q) (c : Codec)
    (closing : Closing e q) (cfg : AsyncLogWriterConfig) (db : e.Db)
    (marshal : LogEntry → Option Text) (entries : List LogEntry) {s t : Running e}
    {xs ys : List LogEntry} {ts us : List ℤ}
    → Acts e q c closing (started e q c closing cfg db) xs ts s
    → s.store.writer.closed ≡ false
    → s.idle ≡ false
    → Acts e q c closing
        (with_writer s (log_entries marshal entries (s.store.writer, s.hub)).0)
        ys
        us
        t
    → t.progress ≡ Progress.complete
    → t.http_failed ≡ false
    → t.writer_failed ≡ false
    → All Succeeded t.store.writer.writes
    → Persisted c
        (xs ++ take (room s.store.writer) entries ++ ys)
        (ts ++ us)
        (e.rows db)
        (e.rows t.store.db)
log_entries-Persisted e laws q law c closing cfg db marshal entries {s} {ts = ts} r open_ busy r' =
    let logs = log_entries-Acts e q c closing marshal entries s.hub s open_ busy in
    let logged = rw (append-nil ts) at (Acts-append e q c closing r logs) in
    shutdown-Persisted e laws q law c closing cfg db (Acts-append e q c closing logged r')
