-- ===== src/Storage/Writer/Inv.antt =====
-- The invariant of the log writer of internal/storage/log_writer.go over all interleavings.
use sugi.Base.{
  ℕ, ◌+◌, ◌≤◌, ◌<◌, ◌≡◌, ◌≢◌, refl, sym, ap, ◌∙◌, Bool, true, false, arith, List, [], ◌∷◌, ◌++◌,
  append-nil, append_assoc, if◌then◌else◌, leb, length, length-append, All, All-append,
}
use sugi.Base.Int.{pos_part, ℤ, pos, negsuc, le_zero}
use sugi.Model.Log.{LogEntry}
use sugi.Storage.Writer.{
  AsyncLogWriterConfig, AsyncLogWriter, Worker, new_writer, with_defaults, send, flush, append,
  mark_closed,
}
use sugi.Storage.Writer.Steps.{
  Step, Run, accepted, enters, sends, receives, ticks, sees_done, finishes, stops_pruning, marks,
  closes_done, here, next,
}

-- The entries of all batches handed to `WriteBatch`, in order.
abbrev pub handed : List (List LogEntry × Bool) → List LogEntry
handed [] = []
handed ((batch, ok) ∷ writes) = batch ++ handed writes

handed-append : (xs ys : List (List LogEntry × Bool)) → handed (xs ++ ys) ≡ handed xs ++ handed ys
handed-append [] ys = refl
handed-append ((batch, ok) ∷ xs) ys = rw (handed-append xs ys, append_assoc)

-- A call of `WriteBatch` gets at least one entry and at most `BatchSize`.
abbrev pub Sized : AsyncLogWriterConfig → List LogEntry × Bool → Type 0
Sized cfg (batch, ok) = (0 < length batch) × (length batch ≤ pos_part cfg.batch_size)

-- The entries of the writer in the order in which they were accepted.
abbrev pub held : AsyncLogWriter → List LogEntry
held w = handed w.writes ++ (w.batch ++ w.ch)

pub record IsValid (cfg : AsyncLogWriterConfig) (w : AsyncLogWriter) : Type 0 where
  pub same_cfg : w.cfg ≡ cfg
  pub ch_small : length w.ch ≤ pos_part cfg.buffer_size
  pub batch_small : length w.batch < pos_part cfg.batch_size
  pub writes_sized : All (Sized cfg) w.writes
  pub ended : w.worker ≡ Worker.returned → w.batch ≡ []
  pub stopped : w.worker ≢ Worker.selecting → w.done ≡ true
  -- `done` is closed once at most: the call that is to close it finds it open.
  pub once : w.closing ≡ true → (w.done ≡ false) × (w.closed ≡ true)
  pub done_closed : w.done ≡ true → w.closed ≡ true

pub with_defaults_pos :
    (cfg : AsyncLogWriterConfig)
    → (0 < pos_part (with_defaults cfg).batch_size) × (0 < pos_part (with_defaults cfg).buffer_size)
unfolding with_defaults
with_defaults_pos cfg = (positive cfg.batch_size 199, positive cfg.buffer_size 4999)
  where
    positive : (n : ℤ) (d : ℕ) → 0 < pos_part (if le_zero n then pos (d + 1) else n)
    positive (pos n) d = ground arith
    positive (negsuc n) d = omega arith

held-flush : (w : AsyncLogWriter) (ok : Bool) → held (flush ok w) ≡ held w
unfolding flush
held-flush w ok = ground (
  arith,
  handed-append w.writes ((w.batch, ok) ∷ []),
  append_assoc (handed w.writes) w.batch w.ch,
  append-nil w.batch,
)

held-if : (b : Bool) (w : AsyncLogWriter) (ok : Bool) → held (if b then flush ok w else w) ≡ held w
held-if true w ok = held-flush w ok
held-if false w ok = refl

-- An entry moves from the head of the channel to the end of the batch.
held-append :
    (w : AsyncLogWriter) (entry : LogEntry) (rest : List LogEntry) (ok : Bool)
    → w.ch ≡ entry ∷ rest
    → held (append ok entry (record w { ch = rest })) ≡ held w
unfolding append
held-append w entry rest ok e =
    held-if (leb (pos_part w.cfg.batch_size) (length (w.batch ++ entry ∷ [])))
      (record w { ch = rest; batch = w.batch ++ entry ∷ [] }) ok
    ∙ rw e (ap (◌++◌ (handed w.writes)) (append_assoc w.batch (entry ∷ []) rest))

pub flush-batch : (w : AsyncLogWriter) (ok : Bool) → (flush ok w).batch ≡ []
unfolding flush
flush-batch w ok = ground arith

module _ {cfg : AsyncLogWriterConfig} where
  writes-snoc :
      {w : AsyncLogWriter} (batch : List LogEntry) (ok : Bool)
      → IsValid cfg w
      → Sized cfg (batch, ok)
      → All (Sized cfg) (w.writes ++ (batch, ok) ∷ [])
  writes-snoc {w} batch ok v h =
      All-append (Sized cfg) w.writes ((batch, ok) ∷ []) v.writes_sized (h, tt)

  pub flush-IsValid : {w : AsyncLogWriter} (ok : Bool) → IsValid cfg w → IsValid cfg (flush ok w)
  unfolding flush
  flush-IsValid {w} ok v = ground (arith, writes-snoc w.batch ok v)

  pub append-IsValid :
      {w : AsyncLogWriter} (entry : LogEntry) (rest : List LogEntry) (ok : Bool)
      → IsValid cfg w
      → w.worker ≢ Worker.returned
      → w.ch ≡ entry ∷ rest
      → IsValid cfg (append ok entry (record w { ch = rest }))
  unfolding append
  append-IsValid {w} entry rest ok v live e =
      ground (arith, writes-snoc (w.batch ++ entry ∷ []) ok v, length-append w.batch (entry ∷ []))

  finish-IsValid :
      {w : AsyncLogWriter} (ok : Bool)
      → IsValid cfg w
      → w.worker ≡ Worker.draining
      → IsValid cfg (record (flush ok w) { worker = Worker.returned })
  unfolding flush
  finish-IsValid {w} ok v e = ground (arith, writes-snoc w.batch ok v)

  send-IsValid :
      {w : AsyncLogWriter} (entry : LogEntry) (others : List LogEntry)
      → IsValid cfg w
      → IsValid cfg (record (send w entry).1 { entering = others })
  unfolding send
  send-IsValid {w} entry others v = ground (arith, length-append w.ch (entry ∷ []))

  mark-IsValid : {w : AsyncLogWriter} → IsValid cfg w → IsValid cfg (mark_closed w).1
  unfolding mark_closed
  mark-IsValid {w} v = ground arith

  -- Every action of every goroutine keeps the invariant.
  pub Step-IsValid :
      {w w' : AsyncLogWriter} {xs : List LogEntry} → Step w xs w' → IsValid cfg w → IsValid cfg w'
  Step-IsValid (enters w entry h) v = ground arith
  Step-IsValid (sends w entry before after e) v = send-IsValid entry (before ++ after) v
  Step-IsValid (receives w entry rest ok live e) v = append-IsValid entry rest ok v live e
  Step-IsValid (ticks w ok h) v = flush-IsValid ok v
  Step-IsValid (sees_done w h d) v = ground arith
  Step-IsValid (finishes w ok h e) v = finish-IsValid ok v h
  Step-IsValid (stops_pruning w d) v = ground arith
  Step-IsValid (marks w) v = mark-IsValid v
  Step-IsValid (closes_done w h) v = ground arith

  pub Run-IsValid :
      {w w' : AsyncLogWriter} {xs : List LogEntry} → Run w xs w' → IsValid cfg w → IsValid cfg w'
  Run-IsValid here v = v
  Run-IsValid (next r s) v = Step-IsValid s (Run-IsValid r v)

pub new_writer-IsValid : (cfg : AsyncLogWriterConfig) → IsValid (with_defaults cfg) (new_writer cfg)
unfolding new_writer
new_writer-IsValid cfg = ground (arith, with_defaults_pos cfg)

held-send :
    (w : AsyncLogWriter) (entry : LogEntry)
    → held (send w entry).1 ≡ held w ++ accepted entry (send w entry)
unfolding send
held-send w entry = ground (
  arith,
  append-nil (held w),
  append_assoc (handed w.writes) (w.batch ++ w.ch) (entry ∷ []),
  append_assoc w.batch w.ch (entry ∷ []),
)

held-mark : (w : AsyncLogWriter) → held (mark_closed w).1 ≡ held w
unfolding mark_closed
held-mark w = ground arith

held-Step : {w w' : AsyncLogWriter} {xs : List LogEntry} → Step w xs w' → held w' ≡ held w ++ xs
held-Step (enters w entry h) = sym (append-nil (held w))
held-Step (sends w entry before after e) = held-send w entry
held-Step (receives w entry rest ok live e) =
    held-append w entry rest ok e ∙ sym (append-nil (held w))
held-Step (ticks w ok h) = held-flush w ok ∙ sym (append-nil (held w))
held-Step (sees_done w h d) = sym (append-nil (held w))
held-Step (finishes w ok h e) = held-flush w ok ∙ sym (append-nil (held w))
held-Step (stops_pruning w d) = sym (append-nil (held w))
held-Step (marks w) = held-mark w ∙ sym (append-nil (held w))
held-Step (closes_done w h) = sym (append-nil (held w))

-- What the writer holds, batches handed over included, grows by exactly the accepted entries.
pub held-Run : {w w' : AsyncLogWriter} {xs : List LogEntry} → Run w xs w' → held w' ≡ held w ++ xs
held-Run {w} here = sym (append-nil (held w))
held-Run {w} (next {xs = xs} {ys = ys} r s) =
    held-Step s ∙ ap (λ t. t ++ ys) (held-Run r) ∙ append_assoc (held w) xs ys
