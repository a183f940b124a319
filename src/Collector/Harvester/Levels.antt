-- ===== src/Collector/Harvester/Levels.antt =====
-- The levels that internal/collector/log_harvester.go infers.
use sugi.Base.{ℕ, ◌<◌, ◌≡◌, refl, ap₂, [], ◌∷◌, All, arith}
use sugi.Base.Text.{Text, to_lower, to_upper, lower_rune, upper_rune}
use sugi.Collector.Harvester.Syslog.{SyslogClock, infer_level}

lower-upper_rune :
    (wide wide' : ℕ → ℕ) (c : ℕ)
    → c < 128
    → lower_rune wide (upper_rune wide' c) ≡ lower_rune wide c
unfolding lower_rune upper_rune
lower-upper_rune wide wide' c h = ground arith

lower-to_upper :
    (wide wide' : ℕ → ℕ) (s : Text)
    → All (λ c. c < 128) s
    → to_lower wide (to_upper wide' s) ≡ to_lower wide s
unfolding to_lower to_upper
lower-to_upper wide wide' [] h = refl
lower-to_upper wide wide' (c ∷ s) h =
    ap₂ (λ d t. d ∷ t) (lower-upper_rune wide wide' c h.0) (lower-to_upper wide wide' s h.1)

-- The level of an ASCII message does not depend on the case of its letters.
pub infer_level-to_upper :
    (clock : SyslogClock) (wide : ℕ → ℕ) (message : Text)
    → All (λ c. c < 128) message
    → infer_level clock (to_upper wide message) ≡ infer_level clock message
unfolding infer_level
infer_level-to_upper clock wide message h = rw (lower-to_upper clock.wide_lower wide message h) refl
