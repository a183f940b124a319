-- ===== src/Server/Stop/Stays.antt =====
-- What the actions of the log writer and its table do not change while internal/server/server.go
-- has not closed the writer further.
use sugi.Base.{◌≡◌, ◌≤◌, refl, ap, arith, List, [], ◌∷◌, length, length-append}
use sugi.Base.Int.{ℤ}
use sugi.Model.Log.{LogEntry}
use sugi.Storage.Writer.{
  AsyncLogWriterConfig, AsyncLogWriter, Worker, send, flush, append, mark_closed,
}
use sugi.Storage.Writer.Steps
use sugi.Storage.Writer.Inv.{IsValid}
use sugi.Storage.Sqlite.{Engine, Codec}
use sugi.Storage.Sqlite.Reads.{QueryEngine}
use sugi.Storage.Stored.{Store, Move, works, prunes}

-- The parts of the writer that its goroutines do not change while `closed` and `done` stay.
Step-closing :
    {cfg : AsyncLogWriterConfig} {w w' : AsyncLogWriter} {xs : List LogEntry}
    → Steps.Step w xs w'
    → IsValid cfg w
    → w'.closed ≡ w.closed
    → w'.done ≡ w.done
    → w'.closing ≡ w.closing
unfolding send flush append mark_closed
Step-closing (Steps.enters w entry h) v same_closed same_done = refl
Step-closing (Steps.sends w entry before after e) v same_closed same_done = ground arith
Step-closing (Steps.receives w entry rest ok live e) v same_closed same_done = ground arith
Step-closing (Steps.ticks w ok h) v same_closed same_done = ground arith
Step-closing (Steps.sees_done w h d) v same_closed same_done = refl
Step-closing (Steps.finishes w ok h e) v same_closed same_done = ground arith
Step-closing (Steps.stops_pruning w d) v same_closed same_done = refl
Step-closing (Steps.marks w) v same_closed same_done = ground arith
Step-closing (Steps.closes_done w h) v same_closed same_done = let once = v.once h in cc

-- A worker that returns leaves the channel empty, and so it stays where no call is to send.
Step-emptied :
    {w w' : AsyncLogWriter} {xs : List LogEntry}
    → Steps.Step w xs w'
    → w.entering ≡ []
    → (w.worker ≡ Worker.returned → w.ch ≡ [])
    → w'.worker ≡ Worker.returned
    → w'.ch ≡ []
unfolding send flush append mark_closed
Step-emptied (Steps.enters w entry h) none_enters empty over = empty over
Step-emptied (Steps.sends w entry before after e) none_enters empty over =
    ground (arith, length-append before (entry ∷ after), ap length e, ap length none_enters)
Step-emptied (Steps.receives w entry rest ok live e) none_enters empty over = ground (arith, live)
Step-emptied (Steps.ticks w ok h) none_enters empty over = ground arith
Step-emptied (Steps.sees_done w h d) none_enters empty over = cc
Step-emptied (Steps.finishes w ok h e) none_enters empty over = ground arith
Step-emptied (Steps.stops_pruning w d) none_enters empty over = empty over
Step-emptied (Steps.marks w) none_enters empty over = ground arith
Step-emptied (Steps.closes_done w h) none_enters empty over = empty over

Step-returned :
    {w w' : AsyncLogWriter} {xs : List LogEntry}
    → Steps.Step w xs w'
    → w.worker ≡ Worker.returned
    → w'.worker ≡ Worker.returned
unfolding send flush append mark_closed
Step-returned (Steps.enters w entry h) over = over
Step-returned (Steps.sends w entry before after e) over = ground arith
Step-returned (Steps.receives w entry rest ok live e) over = absurd (live over)
Step-returned (Steps.ticks w ok h) over = cc
Step-returned (Steps.sees_done w h d) over = cc
Step-returned (Steps.finishes w ok h e) over = cc
Step-returned (Steps.stops_pruning w d) over = over
Step-returned (Steps.marks w) over = ground arith
Step-returned (Steps.closes_done w h) over = over

pub nothing_longer {ℓ} : {A : Type ℓ} (xs ys : List A) → xs ≡ [] → length ys ≤ length xs → ys ≡ []
nothing_longer xs [] h k = refl
nothing_longer xs (y ∷ ys) h k = absurd (omega (arith, k, ap length h))

-- What an action of the writer and the table leaves, where `closed` and `done` stay.
pub record Stays (w w' : AsyncLogWriter) : Type 0 where
  pub same_closing : w'.closing ≡ w.closing
  pub still_empty :
      w.entering ≡ []
      → (w.worker ≡ Worker.returned → w.ch ≡ [])
      → w'.worker ≡ Worker.returned
      → w'.ch ≡ []
  pub still_over : w.worker ≡ Worker.returned → w'.worker ≡ Worker.returned

pub Move-Stays :
    {e : Engine} {q : QueryEngine e} {c : Codec} {cfg : AsyncLogWriterConfig} {s t : Store e}
    {xs : List LogEntry} {ts : List ℤ}
    → Move e q c s xs ts t
    → IsValid cfg s.writer
    → t.writer.closed ≡ s.writer.closed
    → t.writer.done ≡ s.writer.done
    → Stays s.writer t.writer
Move-Stays (works s new step grown wrote) v same_closed same_done = record {
  same_closing = Step-closing step v same_closed same_done;
  still_empty = Step-emptied step;
  still_over = Step-returned step;
}
Move-Stays (prunes s now live) v same_closed same_done = record {
  same_closing = refl;
  still_empty = λ none_enters empty. empty;
  still_over = λ over. over;
}
