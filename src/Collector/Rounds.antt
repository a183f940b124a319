-- ===== src/Collector/Rounds.antt =====
-- Rounds of `Collect` of internal/collector, and the base that a collector goes on from.
use sugi.Base.{Option, none, some, List, [], ◌∷◌}
use sugi.Base.Result.{Result, ok, err}
use sugi.Model.Time.{Instant}
use sugi.Collector.Scan.{Reader}

-- One call of `Collect`: what `Open` returned, and the time.
abbrev pub Round : Type 0
Round = Option Reader × Instant

module _ {E T : Type 0} where
  -- The base after a parse at the time `now`.
  abbrev pub parsed_at : Result E T → Instant → Option T × Instant → Option T × Instant
  parsed_at (ok table) now base = (some table, now)
  parsed_at (err e) now base = base

  -- What the last round read whose file could be opened and parsed, with its time; `base` where
  -- there was none.
  abbrev pub last_parsed :
      (Reader → Result E T) → List Round → Option T × Instant → Option T × Instant
  last_parsed parse [] base = base
  last_parsed parse ((none, now) ∷ rounds) base = last_parsed parse rounds base
  last_parsed parse ((some file, now) ∷ rounds) base =
      last_parsed parse rounds (parsed_at (parse file) now base)
