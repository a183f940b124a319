-- ===== src/Collector/Cpu/Collect.antt =====
-- Rounds of `Collect` of internal/collector/cpu.go.
use sugi.Base.{◌≡◌, refl, ap, ◌∙◌, Option, none, some, List, [], ◌∷◌}
use sugi.Base.Result.{Result, ok, err}
use sugi.Model.Time.{Instant}
use sugi.Collector.Float.{Float64}
use sugi.Collector.Scan.{Reader}
use sugi.Collector.Cpu.{
  Ticks, CollectError, CpuCollector, parse_proc_stat, collect_cpu, after_parse, stats_after,
}

-- One call of `Collect`: what `Open` returned, and the time.
abbrev pub Round : Type 0
Round = Option Reader × Instant

abbrev pub parsed_or : Option Ticks → Result CollectError Ticks → Option Ticks
parsed_or last (ok ticks) = some ticks
parsed_or last (err e) = last

-- The last ticks that could be read and parsed, or `last` where none could.
abbrev pub last_good : Option Ticks → List Round → Option Ticks
last_good last [] = last
last_good last ((none, now) ∷ rounds) = last_good last rounds
last_good last ((some file, now) ∷ rounds) =
    last_good (parsed_or last (parse_proc_stat file)) rounds

module _ (f : Float64) where
  pub collects : List Round → CpuCollector → CpuCollector
  collects [] c = c
  collects ((file, now) ∷ rounds) c = collects rounds (collect_cpu f file now c).1

  last_ticks-after_parse :
      (r : Result CollectError Ticks) (now : Instant) (c : CpuCollector)
      → (after_parse f r now c).1.last_ticks ≡ parsed_or c.last_ticks r
  unfolding after_parse
  last_ticks-after_parse (ok ticks) now c = refl
  last_ticks-after_parse (err e) now c = refl

  last_ticks-collects :
      (rounds : List Round) (c : CpuCollector)
      → (collects rounds c).last_ticks ≡ last_good c.last_ticks rounds
  unfolding collects collect_cpu
  last_ticks-collects [] c = refl
  last_ticks-collects ((none, now) ∷ rounds) c = last_ticks-collects rounds c
  last_ticks-collects ((some file, now) ∷ rounds) c =
      last_ticks-collects rounds (after_parse f (parse_proc_stat file) now c).1
      ∙ ap (λ last. last_good last rounds) (last_ticks-after_parse (parse_proc_stat file) now c)

  -- After any rounds, failed ones included, a round whose file parses returns the usage since the
  -- last round whose file did, or zero usage if there was none: a failure neither resets nor moves
  -- the base.
  pub collect_since_last :
      (rounds : List Round) (c : CpuCollector) (file : Reader) (now : Instant) {curr : Ticks}
      → parse_proc_stat file ≡ ok curr
      → (collect_cpu f (some file) now (collects rounds c)).0
        ≡ ok (stats_after f (last_good c.last_ticks rounds) curr now)
  unfolding collect_cpu after_parse
  collect_since_last rounds c file now e = rw (e, last_ticks-collects rounds c)
