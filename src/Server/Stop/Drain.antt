-- ===== src/Server/Stop/Drain.antt =====
-- The log writer lets `Shutdown` of internal/server/server.go end without the deadline.
mod Outcomes
use sugi.Server.Stop.Drain.Outcomes.{
  Same, flush-Answered, append-Answered, flush-Same, append-Same, append-state,
}
use sugi.Base.{
  ◌≡◌, refl, sym, ap, ◌∙◌, Bool, Bool-cases, true, false, inl, inr, List, [], ◌∷◌, ◌++◌, append-nil,
  arith, length,
}
use sugi.Base.Int.{ℤ}
use sugi.Model.Log.{LogEntry}
use sugi.Storage.Writer.{AsyncLogWriterConfig, AsyncLogWriter, Worker, append}
use sugi.Storage.Writer.Steps
use sugi.Storage.Sqlite.{Engine, EngineLaws, Codec}
use sugi.Storage.Sqlite.Reads.{QueryEngine, Deletes}
use sugi.Storage.Stored.{Store, Wrote, done, works}
use sugi.Server.Stop.{
  Closing, Running, Progress, Acts, started, stores, locks, unlocks, workers_end, closes_db, here,
  next,
}
use sugi.Server.Stop.Logged.{Acts-append}
use sugi.Server.Stop.Inv.{Acts-Inv, started-Inv}

module _ (e : Engine) (q : QueryEngine e) (c : Codec) (closing : Closing e q) where
  -- The server with another store and the lock of the storage free, by actions of the batch worker
  -- and of calls that give the lock back.
  record Reached (s : Running e) (t : Store e) : Type 0 where
    acts : Acts e q c closing s [] [] (record s { store = t; locked = false })
    same : Same s.store.writer t.writer

  -- An action of the log writer that begins with the lock free ends with it free.
  free_stores :
      (s : Running e) (t : Store e) {w : AsyncLogWriter} {db : e.Db}
      (new : List (List LogEntry × Bool))
      → Steps.Step t.writer [] w
      → w.writes ≡ t.writer.writes ++ new
      → Wrote e c t.db new db
      → Same t.writer w
      → Acts e q c closing
          (record s { store = t; locked = false })
          []
          []
          (record s { store = record { writer = w; db = db }; locked = false })
  free_stores s t [] step grown wrote same = next here (
      stores (record s { store = t; locked = false }) (works t [] step grown wrote) false
        same.same_closed same.same_done (λ h. omega (arith, ap length same.same_entering)) refl)
  free_stores s t (call ∷ new) step grown wrote same =
      next (next here (locks (record s { store = t; locked = false }) refl)) (
        stores (record s { store = t; locked = true }) (works t (call ∷ new) step grown wrote) false
          same.same_closed same.same_done (λ h. omega (arith, ap length same.same_entering))
          (refl, refl))

  -- One action of the batch worker more.
  then_works :
      {s : Running e} {t : Store e} {w : AsyncLogWriter} {db : e.Db}
      → Reached s t
      → (new : List (List LogEntry × Bool)) → Steps.Step t.writer [] w
      → w.writes ≡ t.writer.writes ++ new
      → Wrote e c t.db new db
      → Same t.writer w
      → Reached s (record { writer = w; db = db })
  then_works {s} {t} {w} {db} r new step grown wrote same = record {
    acts = Acts-append e q c closing r.acts (free_stores s t new step grown wrote same);
    same = record {
      same_closed = same.same_closed ∙ r.same.same_closed;
      same_done = same.same_done ∙ r.same.same_done;
      same_entering = same.same_entering ∙ r.same.same_entering;
    };
  }

  drains :
      {s : Running e} (rest : List LogEntry) (t : Store e)
      → Reached s t
      → t.writer.worker ≡ Worker.draining
      → t.writer.ch ≡ rest
      → (u : Store e) × Reached s u × (u.writer.worker ≡ Worker.returned)
  drains [] t r h empty =
      let w = t.writer in
      let (ok, db, new, grown, wrote) = flush-Answered e c t.db w in
      let same = flush-Same ok w in
      (
        _,
        then_works r new (Steps.finishes w ok h empty) grown wrote (record {
          same_closed = same.same_closed;
          same_done = same.same_done;
          same_entering = same.same_entering;
        }),
        refl,
      )
  drains (entry ∷ rest) t r h more =
      let w = record t.writer { ch = rest } in
      let (ok, db, new, grown, wrote) = append-Answered e c t.db w entry in
      let same = append-Same ok entry w in
      let (state, left) = append-state ok entry w in
      drains rest (record { writer = append ok entry w; db = db })
        (then_works r new (Steps.receives t.writer entry rest ok (rw h (λ k. cc)) more) grown wrote
          (record {
            same_closed = same.same_closed;
            same_done = same.same_done;
            same_entering = same.same_entering;
          }))
        (state ∙ h) left

  frees : (s : Running e) → Acts e q c closing s [] [] (record s { locked = false })
  frees s = elim (Bool-cases s.locked) [
    | inl held ↦ next here (unlocks s held)
    | inr free ↦ rw (ap (λ l. record s { locked = l }) (sym free)) here
  ]

  unmoved : (s : Running e) → Reached s s.store
  unmoved s = record {
    acts = frees s;
    same = record { same_closed = refl; same_done = refl; same_entering = refl };
  }

  -- However far it is, the batch worker comes to its return once `done` is closed.
  returns :
      (s : Running e) (k : Worker)
      → s.store.writer.worker ≡ k
      → s.store.writer.done ≡ true
      → (u : Store e) × Reached s u × (u.writer.worker ≡ Worker.returned)
  returns s Worker.returned h told = (s.store, unmoved s, h)
  returns s Worker.draining h told = drains s.store.writer.ch s.store (unmoved s) h refl
  returns s Worker.selecting h told =
      let w = s.store.writer in
      drains w.ch (record s.store { writer = record w { worker = Worker.draining } })
        (then_works (unmoved s) [] (Steps.sees_done w h told) (sym (append-nil w.writes))
          (done s.store.db) (record { same_closed = refl; same_done = refl; same_entering = refl }))
        refl refl

  -- The workers' part is over; the prune worker stops, and `Shutdown` goes on to its end.
  abbrev pub EndsInTime : Running e → Type 0
  EndsInTime s =
      (t : Running e) × Acts e q c closing s [] [] t
      × (t.progress ≡ Progress.complete)
      × (t.writer_failed ≡ false)
      × (t.http_failed ≡ s.http_failed)
      × (t.expired ≡ s.expired)

  workers-EndsInTime :
      {s : Running e} (u : Store e)
      → Reached s u
      → s.progress ≡ Progress.awaiting_workers
      → s.writer_failed ≡ false
      → u.writer.worker ≡ Worker.returned
      → s.store.writer.done ≡ true
      → EndsInTime s
  workers-EndsInTime {s} u r p in_time over told =
      let w = u.writer in
      let w' = record w { pruning = false } in
      let r' : Reached s (record u { writer = w' }) =
        then_works r [] (Steps.stops_pruning w (r.same.same_done ∙ told))
          (sym (append-nil w.writes)) (done u.db)
          (record { same_closed = refl; same_done = refl; same_entering = refl }) in
      let s' = record s { store = record u { writer = w' }; locked = false } in
      (
        _,
        next (next r'.acts (workers_end s' p over refl))
            (closes_db (record s' { progress = Progress.closing_db }) refl refl),
        refl,
        in_time,
        refl,
        refl,
      )

  -- Given EngineLaws and Deletes: from every moment at which `Shutdown` waits for the workers of
  -- the log writer there are actions by which these return and it comes to its end with no error of
  -- the log writer and no new entry, whatever the writer still holds, whatever the outcomes of
  -- `WriteBatch` and whoever holds the lock of the storage. The deadline does not pass in between:
  -- where it had not passed before, it has not passed at the end.
  pub awaiting-EndsInTime :
      (laws : EngineLaws e) (law : Deletes e q) (cfg : AsyncLogWriterConfig) (db : e.Db)
      {s : Running e} {xs : List LogEntry} {ts : List ℤ}
      → Acts e q c closing (started e q c closing cfg db) xs ts s
      → s.progress ≡ Progress.awaiting_workers
      → EndsInTime s
  awaiting-EndsInTime laws law cfg db {s} r p =
      let k =
        Acts-Inv e laws q law c closing cfg (e.rows db) r
          (started-Inv e laws q law c closing cfg db) in
      let told = k.awaited p in
      let (u, reached, over) = returns s s.store.writer.worker refl told in
      workers-EndsInTime u reached p (k.in_time (rw p refl)) over told
