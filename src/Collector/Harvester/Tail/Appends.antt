-- ===== src/Collector/Harvester/Tail/Appends.antt =====
-- `tailFile` of internal/collector/log_harvester.go, while other processes append whole lines to
-- the file.
use sugi.Base.{ℕ, ◌≡◌, refl, List, [], ◌∷◌, ◌++◌, length, All}
use sugi.Base.Int.{ℤ}
use sugi.Base.Text.{Text}
use sugi.Base.Cuts.{Lacks}
use sugi.Collector.Harvester.Tail.{Tailer, poll, tick, written, open_tail}
use sugi.Collector.Harvester.Tail.Complete.{Follows, join_lines}

-- From `t` to a later state, with the lines that have been appended in between.
pub data Appends (max_rate : ℕ) (t : Tailer) : List Text → Tailer → Type 0 where
  opened : Appends max_rate t [] t
  appended :
      {lines : List Text} {u : Tailer} (more : List Text)
      → All (Lacks 10) more
      → Appends max_rate t lines u
      → Appends max_rate t (lines ++ more) (written (join_lines more) u)
  second :
      {lines : List Text} {u : Tailer}
      → Appends max_rate t lines u
      → Appends max_rate t lines (tick u)
  polled :
      {lines : List Text} {u : Tailer} (ahead : ℕ)
      → Appends max_rate t lines u
      → Appends max_rate t lines (poll max_rate ahead u)

-- The tailer stands at the end of the file.
abbrev pub IsAtEnd : Tailer → Type 0
IsAtEnd t = (t.buf ≡ []) × (t.pos ≡ length t.file) × (t.offset ≡ length t.file)

pub open_tail-IsAtEnd :
    (content more : Text) (tail_lines : ℤ) → IsAtEnd (open_tail content more tail_lines)
unfolding open_tail
open_tail-IsAtEnd content more tail_lines = (refl, refl, refl)

-- The state of a run: the lines are those that have been read and those that have not.
abbrev Account : List Text → List Text → Tailer → Type 0
Account first lines u =
    (done : List Text) × (pending : List Text) × (lines ≡ done ++ pending)
    × Follows first u done pending

-- The tailer's own steps: behind each tick of the rate ticker, one poll, for the numbers of bytes
-- that the reads take ahead.
unfoldable pub run_seconds : ℕ → List ℕ → Tailer → Tailer
run_seconds max_rate [] t = t
run_seconds max_rate (ahead ∷ more) t = run_seconds max_rate more (poll max_rate ahead (tick t))
