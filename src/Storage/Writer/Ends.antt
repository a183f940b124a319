-- ===== src/Storage/Writer/Ends.antt =====
-- How long the batch worker of internal/storage/log_writer.go goes on once it has seen `done`.
use sugi.Base.{
  ℕ, ◌+◌, ◌≤◌, ◌⊎◌, inl, inr, ap, ◌≡◌, ◌≢◌, refl, Bool, true, arith, List, [], ◌∷◌, ◌++◌, length,
  length-append,
}
use native.Mathlib.Nat.{add-zero}
use sugi.Model.Log.{LogEntry}
use sugi.Storage.Writer.{
  AsyncLogWriterConfig, AsyncLogWriter, Worker, new_writer, send, flush, append, mark_closed,
}
use sugi.Storage.Writer.Steps.{
  Step, Run, enters, sends, receives, ticks, sees_done, finishes, stops_pruning, marks, closes_done,
  here, next,
}
use sugi.Storage.Writer.Inv.{Run-IsValid, new_writer-IsValid}

-- The steps of the batch worker among those of a run.
abbrev worker_step : {w w' : AsyncLogWriter} {xs : List LogEntry} → Step w xs w' → ℕ
worker_step (enters w entry h) = 0
worker_step (sends w entry before after e) = 0
worker_step (receives w entry rest ok live e) = 1
worker_step (ticks w ok h) = 1
worker_step (sees_done w h d) = 1
worker_step (finishes w ok h e) = 1
worker_step (stops_pruning w d) = 0
worker_step (marks w) = 0
worker_step (closes_done w h) = 0

abbrev pub worker_steps : {u w : AsyncLogWriter} {xs : List LogEntry} → Run u xs w → ℕ
worker_steps here = 0
worker_steps (next r s) = worker_steps r + worker_step s

abbrev still : Worker → ℕ
still Worker.selecting = 1
still Worker.draining = 1
still Worker.returned = 0

-- What the worker has before it: the entries that it can receive, and its return.
abbrev pub ahead : AsyncLogWriter → ℕ
ahead w = length w.ch + length w.entering + still w.worker

-- The writer is closed, the worker has seen `done`, and it has taken `m` steps of at most `n`.
record Ending (n m : ℕ) (w : AsyncLogWriter) : Type 0 where
  shut : w.closed ≡ true
  seen : w.worker ≢ Worker.selecting
  bounded : m + ahead w ≤ n

send-Ending :
    {n m : ℕ} {w : AsyncLogWriter} (entry : LogEntry) (before after : List LogEntry)
    → w.entering ≡ before ++ entry ∷ after
    → Ending n m w
    → Ending n m (record (send w entry).1 { entering = before ++ after })
unfolding send
send-Ending {w} entry before after e h = ground (
  arith,
  length-append before (entry ∷ after),
  length-append before after,
  length-append w.ch (entry ∷ []),
)

append-Ending :
    {n m : ℕ} {w : AsyncLogWriter} (entry : LogEntry) (rest : List LogEntry) (ok : Bool)
    → w.ch ≡ entry ∷ rest
    → Ending n m w
    → Ending n (m + 1) (append ok entry (record w { ch = rest }))
unfolding append flush
append-Ending {w} entry rest ok e h = ground arith

finish-Ending :
    {n m : ℕ} {w : AsyncLogWriter} (ok : Bool)
    → w.worker ≡ Worker.draining
    → Ending n m w
    → Ending n (m + 1) (record (flush ok w) { worker = Worker.returned })
unfolding flush
finish-Ending {w} ok e h = ground arith

mark-Ending : {n m : ℕ} {w : AsyncLogWriter} → Ending n m w → Ending n m (mark_closed w).1
unfolding mark_closed
mark-Ending h = ground arith

Step-Ending :
    {n m : ℕ} {w w' : AsyncLogWriter} {xs : List LogEntry} (s : Step w xs w')
    → Ending n m w
    → Ending n (m + worker_step s) w'
Step-Ending (enters w entry h) k = ground (arith, k.shut)
Step-Ending {m} (sends w entry before after e) k = rw add-zero (send-Ending entry before after e k)
Step-Ending (receives w entry rest ok live e) k = append-Ending entry rest ok e k
Step-Ending (ticks w ok h) k = absurd (k.seen h)
Step-Ending (sees_done w h d) k = absurd (k.seen h)
Step-Ending (finishes w ok h e) k = finish-Ending ok h k
Step-Ending (stops_pruning w d) k = ground arith
Step-Ending (marks w) k = rw add-zero (mark-Ending k)
Step-Ending (closes_done w h) k = ground arith

Run-Ending :
    {n : ℕ} {u w : AsyncLogWriter} {xs : List LogEntry} (r : Run u xs w)
    → Ending n 0 u
    → Ending n (worker_steps r) w
Run-Ending here h = h
Run-Ending (next r s) h = Step-Ending s (Run-Ending r h)

-- The worker has returned, or one of its own steps can be taken.
abbrev pub Proceeds : AsyncLogWriter → Type 0
Proceeds w =
    (w.worker ≡ Worker.returned)
    ⊎ ((w' : AsyncLogWriter) × (s : Step w [] w') × (worker_step s ≡ 1))

worker-Proceeds :
    (w : AsyncLogWriter) (k : Worker) (rest : List LogEntry)
    → w.worker ≡ k
    → k ≢ Worker.selecting
    → w.ch ≡ rest
    → Proceeds w
worker-Proceeds w Worker.selecting rest h seen e = absurd (seen refl)
worker-Proceeds w Worker.returned rest h seen e = inl h
worker-Proceeds w Worker.draining [] h seen e =
    inr (record (flush true w) { worker = Worker.returned }, finishes w true h e, refl)
worker-Proceeds w Worker.draining (entry ∷ rest) h seen e = inr (
  append true entry (record w { ch = rest }),
  receives w entry rest true (rw h (λ c. cc)) e,
  refl,
)

-- From where the batch worker has seen `done`, whatever the other goroutines do, it takes at most
-- one step for each entry in the channel, one for each that an `Enqueue` call is still to send and
-- one to return; and until it has returned, a step of its own can be taken.
pub draining_ends :
    (cfg : AsyncLogWriterConfig) {u w : AsyncLogWriter} {xs ys : List LogEntry}
    → Run (new_writer cfg) xs u
    → u.worker ≡ Worker.draining
    → (r : Run u ys w) → (worker_steps r ≤ length u.ch + length u.entering + 1) × Proceeds w
draining_ends cfg {u} {w} q h r =
    let v = Run-IsValid q (new_writer-IsValid cfg) in
    let k = Run-Ending {n = length u.ch + length u.entering + 1} r (record {
      shut = v.done_closed (v.stopped (rw h (λ c. cc)));
      seen = rw h (λ c. cc);
      bounded = omega (arith, ap still h);
    }) in
    (omega (arith, k.bounded), worker-Proceeds w w.worker w.ch refl k.seen refl)
