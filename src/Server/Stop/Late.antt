-- ===== src/Server/Stop/Late.antt =====
-- What the log writer still does behind the end of `Shutdown` of internal/server/server.go has no
-- effect on the database.
use sugi.Base.{ℕ, ◌≡◌, ◌≢◌, refl, sym, ap, ◌∙◌, Bool, true, false, none, List, [], ◌∷◌}
use sugi.Base.Int.{ℤ}
use sugi.Model.Time.{Instant}
use sugi.Model.Log.{LogEntry}
use sugi.Storage.Sqlite.{Engine, Codec, write_batch, in_tx}
use sugi.Storage.Sqlite.Reads.{QueryEngine, prune_old_logs, prune_threshold}
use sugi.Storage.Writer.{AsyncLogWriterConfig, mark_closed}
use sugi.Storage.Stored.{Store, Wrote, Move, done, written, failed, works, prunes}
use sugi.Server.Stop.{
  Closing, Running, Progress, Act, Acts, started, after_mark, stores, locks, unlocks, streams,
  expires, closes_stop_chan, closes_hub, stops_harvester, http_ends, http_times_out, marks_closed,
  closes_done, workers_end, workers_time_out, closes_db, here, next,
}

module _ (e : Engine) (q : QueryEngine e) (c : Codec) (closing : Closing e q) where
  write_batch-closed :
      (batch : List LogEntry) (clock : ℕ → Instant) (d : e.Db)
      → (write_batch e c batch clock (closing.close d)).1 ≡ closing.close d
  unfolding write_batch in_tx
  write_batch-closed [] clock d = refl
  write_batch-closed (entry ∷ entries) clock d = rw (closing.begin_closed d) refl

  Wrote-closed :
      {db db' : e.Db} {writes : List (List LogEntry × Bool)} (d : e.Db)
      → Wrote e c db writes db'
      → db ≡ closing.close d
      → db' ≡ closing.close d
  Wrote-closed d (done db) h = h
  Wrote-closed d (written batch clock k rest) h =
      Wrote-closed d rest (sym (ap (λ r. r.1) (rw h at k)) ∙ write_batch-closed batch clock d)
  Wrote-closed d (failed batch clock error k rest) h =
      Wrote-closed d rest (sym (ap (λ r. r.1) (rw h at k)) ∙ write_batch-closed batch clock d)

  Move-closed :
      {s t : Store e} {xs : List LogEntry} {ts : List ℤ} (d : e.Db)
      → Move e q c s xs ts t
      → s.db ≡ closing.close d
      → t.db ≡ closing.close d
  unfolding prune_old_logs
  Move-closed d (works s new step grown wrote) h = Wrote-closed d wrote h
  Move-closed d (prunes s now live) h =
      let ms = prune_threshold s.writer.cfg.retention now in rw (h, closing.delete_closed ms d) refl

  -- The database has been closed, and is what the close has left.
  abbrev IsClosed : e.Db → Running e → Type 0
  IsClosed d s = (s.progress ≡ Progress.complete) × (s.store.db ≡ closing.close d)

  marks_on : (goes_on : Bool) → after_mark goes_on ≢ Progress.complete
  marks_on true = λ h. cc
  marks_on false = λ h. cc

  Act-IsClosed :
      {s t : Running e} {xs : List LogEntry} {ts : List ℤ} (d : e.Db)
      → Act e q c closing s xs ts t
      → IsClosed d s
      → IsClosed d t
  Act-IsClosed d (stores s m locked same_closed same_done no_call held) (over, h) =
      (over, Move-closed d m h)
  Act-IsClosed d (locks s h) k = k
  Act-IsClosed d (unlocks s h) k = k
  Act-IsClosed d (streams s h step same no_new) k = k
  Act-IsClosed d (expires s) k = k
  Act-IsClosed d (closes_stop_chan s p) (over, h) = cc
  Act-IsClosed d (closes_hub s g p e') (over, h) = cc
  Act-IsClosed d (stops_harvester s p) (over, h) = cc
  Act-IsClosed d (http_ends s p none_enters gone) (over, h) = cc
  Act-IsClosed d (http_times_out s p late) (over, h) = cc
  Act-IsClosed d (marks_closed s p) (over, h) = cc
  Act-IsClosed d (closes_done s p) (over, h) = cc
  Act-IsClosed d (workers_end s p o idle) (over, h) = cc
  Act-IsClosed d (workers_time_out s p late) (over, h) = cc
  Act-IsClosed d (closes_db s p free) (over, h) = cc

  Acts-IsClosed :
      {s t : Running e} {xs : List LogEntry} {ts : List ℤ} (d : e.Db)
      → Acts e q c closing s xs ts t
      → IsClosed d s
      → IsClosed d t
  Acts-IsClosed d here k = k
  Acts-IsClosed d (next r a) k = Act-IsClosed d a (Acts-IsClosed d r k)

  -- Whoever comes to the end has closed the database.
  Reaches : Running e → Type 0
  Reaches s = s.progress ≡ Progress.complete → (d : e.Db) × IsClosed d s

  Act-Reaches :
      {s t : Running e} {xs : List LogEntry} {ts : List ℤ}
      → Act e q c closing s xs ts t
      → Reaches s
      → Reaches t
  unfolding Reaches
  Act-Reaches (stores s m locked same_closed same_done no_call held) k over =
      let (d, (p, h)) = k over in (d, (p, Move-closed d m h))
  Act-Reaches (locks s h) k over = k over
  Act-Reaches (unlocks s h) k over = k over
  Act-Reaches (streams s h step same no_new) k over = k over
  Act-Reaches (expires s) k over = k over
  Act-Reaches (closes_stop_chan s p) k over = cc
  Act-Reaches (closes_hub s g p e') k over = cc
  Act-Reaches (stops_harvester s p) k over = cc
  Act-Reaches (http_ends s p none_enters gone) k over = cc
  Act-Reaches (http_times_out s p late) k over = cc
  Act-Reaches (marks_closed s p) k over = absurd (marks_on (mark_closed s.store.writer).0 over)
  Act-Reaches (closes_done s p) k over = cc
  Act-Reaches (workers_end s p o idle) k over = cc
  Act-Reaches (workers_time_out s p late) k over = cc
  Act-Reaches (closes_db s p free) k over = (s.store.db, (refl, refl))

  Acts-Reaches :
      {s t : Running e} {xs : List LogEntry} {ts : List ℤ}
      → Acts e q c closing s xs ts t
      → Reaches s
      → Reaches t
  Acts-Reaches here k = k
  Acts-Reaches (next r a) k = Act-Reaches a (Acts-Reaches r k)

  -- Given Closing: once `Shutdown` has come to its end, nothing that a goroutine still does changes
  -- the database, so an entry that has not been written by then never is.
  pub closed_database_stays :
      (cfg : AsyncLogWriterConfig) (db : e.Db) {s t : Running e} {xs ys : List LogEntry}
      {ts us : List ℤ}
      → Acts e q c closing (started e q c closing cfg db) xs ts s
      → s.progress ≡ Progress.complete
      → Acts e q c closing s ys us t
      → (t.store.db ≡ s.store.db) × (t.progress ≡ Progress.complete)
  unfolding Reaches
  closed_database_stays cfg db r over r' =
      let (d, (p, h)) = Acts-Reaches r (λ k. cc) over in
      let (p', h') = Acts-IsClosed d r' (p, h) in (h' ∙ sym h, p')

  -- Behind the end of `Shutdown` the database begins no transaction.
  pub complete-begin_tx :
      (cfg : AsyncLogWriterConfig) (db : e.Db) {s : Running e} {xs : List LogEntry} {ts : List ℤ}
      → Acts e q c closing (started e q c closing cfg db) xs ts s
      → s.progress ≡ Progress.complete
      → e.begin_tx s.store.db ≡ none
  unfolding Reaches
  complete-begin_tx cfg db r over =
      let (d, (p, h)) = Acts-Reaches r (λ k. cc) over in ap e.begin_tx h ∙ closing.begin_closed d
