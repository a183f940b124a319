-- ===== src/Storage/Writer/Shutdown.antt =====
-- The end of the log writer of internal/storage/log_writer.go: what is written before the batch
-- worker returns, and what happens to an entry that is sent after that.
use sugi.Base.{◌≡◌, refl, sym, ap, ◌∙◌, Bool, arith, List, [], ◌∷◌, ◌++◌, append-nil, append_assoc}
use sugi.Model.Log.{LogEntry}
use sugi.Storage.Writer.{
  AsyncLogWriterConfig, AsyncLogWriter, Worker, new_writer, send, flush, append, mark_closed,
}
use sugi.Storage.Writer.Steps.{
  Step, Run, accepted, enters, sends, receives, ticks, sees_done, finishes, stops_pruning, marks,
  closes_done, here, next,
}
use sugi.Storage.Writer.Inv.{handed, held-Run, Run-IsValid, new_writer-IsValid}

-- Once the batch worker has returned and the channel is empty, every accepted entry has been handed
-- to `WriteBatch`, once and in order.
pub returned-handed :
    (cfg : AsyncLogWriterConfig) {w : AsyncLogWriter} {xs : List LogEntry}
    → Run (new_writer cfg) xs w
    → w.worker ≡ Worker.returned
    → w.ch ≡ []
    → handed w.writes ≡ xs
returned-handed cfg {w} {xs} r h e =
    sym (append-nil (handed w.writes)) ∙ ap (◌++◌ (handed w.writes)) nothing ∙ total
  where
    nothing : [] ≡ w.batch ++ w.ch
    nothing = rw ((Run-IsValid r (new_writer-IsValid cfg)).ended h, e)

    total : handed w.writes ++ (w.batch ++ w.ch) ≡ xs
    total = unfold new_writer in held-Run r

-- What stays as it is once the batch worker has returned.
record Stuck (u : AsyncLogWriter) (xs : List LogEntry) (w : AsyncLogWriter) : Type 0 where
  over : w.worker ≡ Worker.returned
  same_writes : w.writes ≡ u.writes
  grown : w.ch ≡ u.ch ++ xs

send-Stuck :
    (u w : AsyncLogWriter) (xs others : List LogEntry) (entry : LogEntry)
    → Stuck u xs w
    → Stuck u (xs ++ accepted entry (send w entry)) (record (send w entry).1 { entering = others })
unfolding send
send-Stuck u w xs others entry s = ground (arith, append-nil xs, append_assoc u.ch xs (entry ∷ []))

mark-Stuck :
    (u w : AsyncLogWriter) (xs : List LogEntry)
    → Stuck u xs w
    → Stuck u (xs ++ []) (mark_closed w).1
unfolding mark_closed
mark-Stuck u w xs s = ground (arith, append-nil xs)

Step-Stuck :
    {u w w' : AsyncLogWriter} {xs ys : List LogEntry}
    → Step w ys w'
    → Stuck u xs w
    → Stuck u (xs ++ ys) w'
Step-Stuck {xs = xs} (enters w entry h) s = rw (append-nil xs) (ground arith)
Step-Stuck {u} {xs = xs} (sends w entry before after e) s =
    send-Stuck u w xs (before ++ after) entry s
Step-Stuck {xs = xs} (receives w entry rest ok live e) s = absurd (live s.over)
Step-Stuck {xs = xs} (ticks w ok h) s = cc (s.over)
Step-Stuck {xs = xs} (sees_done w h d) s = cc (s.over)
Step-Stuck {xs = xs} (finishes w ok h e) s = cc (s.over)
Step-Stuck {xs = xs} (stops_pruning w d) s = rw (append-nil xs) (ground arith)
Step-Stuck {u} {xs = xs} (marks w) s = mark-Stuck u w xs s
Step-Stuck {xs = xs} (closes_done w h) s = rw (append-nil xs) (ground arith)

Run-Stuck :
    {u w : AsyncLogWriter} {xs : List LogEntry}
    → u.worker ≡ Worker.returned
    → Run u xs w
    → Stuck u xs w
Run-Stuck {u} h here = record { over = h; same_writes = refl; grown = sym (append-nil u.ch) }
Run-Stuck h (next r s) = Step-Stuck s (Run-Stuck h r)

-- After the batch worker has returned no entry is ever written again: each one that an `Enqueue`
-- call, which saw the writer open before, still sends with the result true stays in the channel.
pub late_entries_stay :
    {u w : AsyncLogWriter} {xs : List LogEntry}
    → u.worker ≡ Worker.returned
    → Run u xs w
    → (w.writes ≡ u.writes) × (w.ch ≡ u.ch ++ xs)
late_entries_stay h r = let s = Run-Stuck h r in (s.same_writes, s.grown)

Run-append :
    {u v w : AsyncLogWriter} {xs ys : List LogEntry} → Run u xs v → Run v ys w → Run u (xs ++ ys) w
Run-append {xs = xs} r here = rw (append-nil xs) r
Run-append {xs = xs} r (next {xs = ys} {ys = zs} q s) =
    rw (← append_assoc xs ys zs) (next (Run-append r q) s)

flush-ch : (w : AsyncLogWriter) (ok : Bool) → (flush ok w).ch ≡ w.ch
unfolding flush
flush-ch w ok = ground arith

append-ch : (w : AsyncLogWriter) (entry : LogEntry) (ok : Bool) → (append ok entry w).ch ≡ w.ch
unfolding append
append-ch w entry ok = ground arith

append-worker :
    (w : AsyncLogWriter) (entry : LogEntry) (ok : Bool) → (append ok entry w).worker ≡ w.worker
unfolding append
append-worker w entry ok = ground arith

-- Where a worker that drains ends, when every `WriteBatch` has the outcome `ok`.
drain_ends :
    (rest : List LogEntry) (w : AsyncLogWriter) (ok : Bool)
    → w.worker ≡ Worker.draining
    → w.ch ≡ rest
    → (w' : AsyncLogWriter) × Run w [] w' × (w'.worker ≡ Worker.returned) × (w'.ch ≡ [])
drain_ends [] w ok h e = (
  record (flush ok w) { worker = Worker.returned },
  next here (finishes w ok h e),
  refl,
  flush-ch w ok ∙ e,
)
drain_ends (entry ∷ rest) w ok h e =
    let (w', r, over, none_left) =
      drain_ends rest (append ok entry (record w { ch = rest })) ok
        (append-worker (record w { ch = rest }) entry ok ∙ h)
        (append-ch (record w { ch = rest }) entry ok) in
    (w', Run-append (next here (receives w entry rest ok (rw h (λ c. cc)) e)) r, over, none_left)

-- A batch worker that has seen `done` comes to an end by its own steps alone, whatever the outcome
-- of the writes, and by then every accepted entry has been handed to `WriteBatch` in order.
pub drain_completes :
    (cfg : AsyncLogWriterConfig) {u : AsyncLogWriter} {xs : List LogEntry} (ok : Bool)
    → Run (new_writer cfg) xs u
    → u.worker ≡ Worker.draining
    → (w : AsyncLogWriter) × Run u [] w × (w.worker ≡ Worker.returned) × (handed w.writes ≡ xs)
drain_completes cfg {u} {xs} ok r h =
    let (w, q, over, none_left) = drain_ends u.ch u ok h refl in
    (w, q, over, returned-handed cfg (Run-append r q) over none_left ∙ append-nil xs)
