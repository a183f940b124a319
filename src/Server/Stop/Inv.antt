-- ===== src/Server/Stop/Inv.antt =====
-- What holds at every moment of `Shutdown` of internal/server/server.go.
use sugi.Base.{
  ◌≡◌, ◌≤◌, refl, some, sym, ap, arith, ◌∙◌, Bool, true, false, List, [], ◌++◌, append-nil, length,
}
use sugi.Base.Int.{ℤ}
use sugi.Model.Log.{LogEntry}
use sugi.Storage.Writer.{
  AsyncLogWriterConfig, AsyncLogWriter, Worker, new_writer, with_defaults, mark_closed,
}
use sugi.Storage.Writer.Steps
use sugi.Storage.Writer.Inv.{IsValid, Run-IsValid, new_writer-IsValid}
use sugi.Storage.Sqlite.{Row, Engine, EngineLaws, Codec}
use sugi.Storage.Sqlite.Reads.{QueryEngine, Deletes}
use sugi.Storage.Stored.{Store, Move}
use sugi.Storage.Stored.Kept.{Kept, Move-Kept, Move-Run, fresh-Kept}
use sugi.Api.Hub.{SseHub, new_hub, on_close}
use sugi.Server.Stop.Stays.{Move-Stays, nothing_longer}
use sugi.Server.Stop.{
  Closing, Running, Progress, Act, Acts, started, after_mark, with_writer, stores, locks, unlocks,
  streams, expires, closes_stop_chan, closes_hub, stops_harvester, http_ends, http_times_out,
  marks_closed, closes_done, workers_end, workers_time_out, closes_db, here, next,
}

abbrev pub before_hub : Progress → Bool
before_hub Progress.serving = true
before_hub Progress.closing_hub = true
before_hub _ = false

abbrev pub before_mark : Progress → Bool
before_mark Progress.serving = true
before_mark Progress.closing_hub = true
before_mark Progress.stopping_harvester = true
before_mark Progress.stopping_http = true
before_mark Progress.closing_writer = true
before_mark _ = false

abbrev pub past_http : Progress → Bool
past_http Progress.serving = false
past_http Progress.closing_hub = false
past_http Progress.stopping_harvester = false
past_http Progress.stopping_http = false
past_http _ = true

abbrev pub past_done : Progress → Bool
past_done Progress.awaiting_workers = true
past_done Progress.closing_db = true
past_done Progress.complete = true
past_done _ = false

abbrev pub past_writer : Progress → Bool
past_writer Progress.closing_db = true
past_writer Progress.complete = true
past_writer _ = false

on_close-stopped : (h h' : SseHub) → on_close h ≡ some h' → h'.stopped ≡ true
unfolding on_close
on_close-stopped h h' e = ground (arith, e)

module _ (e : Engine) (laws : EngineLaws e) (q : QueryEngine e) (law : Deletes e q) (c : Codec)
    (closing : Closing e q) (cfg : AsyncLogWriterConfig) (before : List Row) where
  pub record Inv (xs : List LogEntry) (ts : List ℤ) (s : Running e) : Type 0 where
    pub ran : Steps.Run (new_writer cfg) xs s.store.writer
    pub kept : Kept e laws q law c before ts s.store
    pub hub_open : before_hub s.progress ≡ true → s.hub.stopped ≡ false
    pub hub_stopped : before_hub s.progress ≡ false → s.hub.stopped ≡ true
    pub unmarked : before_mark s.progress ≡ true → s.store.writer.closed ≡ false
    pub refuses : before_mark s.progress ≡ false → s.store.writer.closed ≡ true
    pub marked : s.progress ≡ Progress.closing_done → s.store.writer.closing ≡ true
    pub done_late : s.store.writer.done ≡ true → past_done s.progress ≡ true
    pub awaited : s.progress ≡ Progress.awaiting_workers → s.store.writer.done ≡ true
    pub in_time : past_writer s.progress ≡ false → s.writer_failed ≡ false
    pub quiet : s.idle ≡ true → s.store.writer.entering ≡ []
    pub clean_http : past_http s.progress ≡ true → s.http_failed ≡ false → s.idle ≡ true
    pub emptied : s.store.writer.worker ≡ Worker.returned → s.idle ≡ true → s.store.writer.ch ≡ []
    pub clean_writer :
        past_writer s.progress ≡ true
        → s.writer_failed ≡ false
        → s.store.writer.worker ≡ Worker.returned

  Inv-IsValid :
      {xs : List LogEntry} {ts : List ℤ} {s : Running e}
      → Inv xs ts s
      → IsValid (with_defaults cfg) s.store.writer
  Inv-IsValid k = Run-IsValid k.ran (new_writer-IsValid cfg)

  stores-Inv :
      {s : Running e} {t : Store e} {xs ys : List LogEntry} {ts us : List ℤ}
      → Move e q c s.store ys us t
      → (locked : Bool) → t.writer.closed ≡ s.store.writer.closed
      → t.writer.done ≡ s.store.writer.done
      → (s.idle ≡ true → length t.writer.entering ≤ length s.store.writer.entering)
      → Inv xs ts s
      → Inv (xs ++ ys) (ts ++ us) (record s { store = t; locked = locked })
  stores-Inv {s} {t} m locked same_closed same_done no_call k =
      let st = Move-Stays m (Inv-IsValid k) same_closed same_done in
      record {
        ran = Move-Run e laws q law c k.ran m;
        kept = Move-Kept e laws q law c m k.kept;
        hub_open = k.hub_open;
        hub_stopped = k.hub_stopped;
        unmarked = λ h. same_closed ∙ k.unmarked h;
        refuses = λ h. same_closed ∙ k.refuses h;
        marked = λ h. st.same_closing ∙ k.marked h;
        done_late = λ h. k.done_late (sym same_done ∙ h);
        awaited = λ h. same_done ∙ k.awaited h;
        in_time = k.in_time;
        quiet =
            λ h. nothing_longer s.store.writer.entering t.writer.entering (k.quiet h) (no_call h);
        clean_http = k.clean_http;
        emptied = λ over h. st.still_empty (k.quiet h) (λ o. k.emptied o h) over;
        clean_writer = λ past h. st.still_over (k.clean_writer past h);
      }

  Kept-same :
      {ts : List ℤ} (s t : Store e)
      → t.writer.writes ≡ s.writer.writes
      → e.rows t.db ≡ e.rows s.db
      → Kept e laws q law c before ts s
      → Kept e laws q law c before ts t
  Kept-same s t same_writes same_rows k = record {
    rows = k.rows;
    clocks = rw same_writes k.clocks;
    thinned = rw same_rows k.thinned;
  }

  mark_open :
      (w : AsyncLogWriter)
      → w.closed ≡ false
      → mark_closed w ≡ (true, record w { closed = true; closing = true })
  unfolding mark_closed
  mark_open w h = rw h refl

  mark-Inv :
      {xs : List LogEntry} {ts : List ℤ} {s : Running e}
      → s.progress ≡ Progress.closing_writer
      → Inv xs ts s
      → Inv (xs ++ []) ts (record (with_writer s (mark_closed s.store.writer).1) {
        progress = after_mark (mark_closed s.store.writer).0;
      })
  mark-Inv {xs} {ts} {s} p k =
      let w = s.store.writer in
      let unmarked = mark_open w (k.unmarked (ap before_mark p)) in
      let ran = rw unmarked at (Steps.next k.ran (Steps.marks w)) in
      let kept =
        Kept-same s.store (record s.store { writer = record w { closed = true; closing = true } })
          refl refl k.kept in
      rw unmarked (ground (arith, ran, kept))

  done-Inv :
      {xs : List LogEntry} {ts : List ℤ} {s : Running e}
      → s.progress ≡ Progress.closing_done
      → Inv xs ts s
      → Inv
          (xs ++ [])
          ts
          (record (with_writer s (record s.store.writer { done = true; closing = false })) {
            progress = Progress.awaiting_workers;
          })
  done-Inv {s} p k =
      let w = s.store.writer in
      let ran = Steps.next k.ran (Steps.closes_done w (k.marked p)) in
      let kept =
        Kept-same s.store (record s.store { writer = record w { done = true; closing = false } })
          refl refl k.kept in
      ground (arith, ran, kept)

  Act-Inv :
      {s t : Running e} {xs ys : List LogEntry} {ts us : List ℤ}
      → Act e q c closing s ys us t
      → Inv xs ts s
      → Inv (xs ++ ys) (ts ++ us) t
  Act-Inv (stores s m locked same_closed same_done no_call held) k =
      stores-Inv m locked same_closed same_done no_call k
  Act-Inv {xs = xs} {ts = ts} (locks s h) k = rw (append-nil xs, append-nil ts) (ground arith)
  Act-Inv {xs = xs} {ts = ts} (unlocks s h) k = rw (append-nil xs, append-nil ts) (ground arith)
  Act-Inv {xs = xs} {ts = ts} (streams s h step same no_new) k =
      rw (append-nil xs, append-nil ts) (ground arith)
  Act-Inv {xs = xs} {ts = ts} (expires s) k = rw (append-nil xs, append-nil ts) (ground arith)
  Act-Inv {xs = xs} {ts = ts} (closes_stop_chan s p) k =
      rw (append-nil xs, append-nil ts) (ground arith)
  Act-Inv {xs = xs} {ts = ts} (closes_hub s h p stops) k =
      let halts : h.stopped ≡ true = on_close-stopped s.hub h stops in
      rw (append-nil xs, append-nil ts) (ground arith)
  Act-Inv {xs = xs} {ts = ts} (stops_harvester s p) k =
      rw (append-nil xs, append-nil ts) (ground arith)
  Act-Inv {xs = xs} {ts = ts} (http_ends s p none_enters gone) k =
      let v = Inv-IsValid k in rw (append-nil xs, append-nil ts) (ground arith)
  Act-Inv {xs = xs} {ts = ts} (http_times_out s p late) k =
      rw (append-nil xs, append-nil ts) (ground arith)
  Act-Inv {xs = xs} {ts = ts} (marks_closed s p) k = rw (append-nil ts) (mark-Inv p k)
  Act-Inv {xs = xs} {ts = ts} (closes_done s p) k = rw (append-nil ts) (done-Inv p k)
  Act-Inv {xs = xs} {ts = ts} (workers_end s p over idle) k =
      rw (append-nil xs, append-nil ts) (ground arith)
  Act-Inv {xs = xs} {ts = ts} (workers_time_out s p late) k =
      rw (append-nil xs, append-nil ts) (ground arith)
  Act-Inv {xs = xs} {ts = ts} (closes_db s p free) k =
      rw (append-nil xs, append-nil ts)
        (let kept =
            Kept-same s.store (record s.store { db = closing.close s.store.db }) refl
              (closing.rows_closed s.store.db) k.kept in
          ground (arith, kept))

  pub Acts-Inv :
      {s t : Running e} {xs : List LogEntry} {ts : List ℤ}
      → Acts e q c closing s xs ts t
      → Inv [] [] s
      → Inv xs ts t
  Acts-Inv here k = k
  Acts-Inv (next r a) k = Act-Inv a (Acts-Inv r k)

pub started-Inv :
    (e : Engine) (laws : EngineLaws e) (q : QueryEngine e) (law : Deletes e q) (c : Codec)
    (closing : Closing e q) (cfg : AsyncLogWriterConfig) (db : e.Db)
    → Inv e laws q law c closing cfg (e.rows db) [] [] (started e q c closing cfg db)
unfolding new_writer new_hub
started-Inv e laws q law c closing cfg db = record {
  ran = Steps.Run.here;
  kept = fresh-Kept e laws q law c cfg db;
  hub_open = λ h. refl;
  hub_stopped = λ h. cc;
  unmarked = λ h. refl;
  refuses = λ h. cc;
  marked = λ h. cc;
  done_late = λ h. cc;
  awaited = λ h. cc;
  in_time = λ h. refl;
  quiet = λ h. refl;
  clean_http = λ h. cc;
  emptied = λ over h. refl;
  clean_writer = λ h. cc;
}
