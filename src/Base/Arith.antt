-- ===== src/Base/Arith.antt =====
-- Remainders as the code uses them: an index that goes round once.
use Prim.Native.Nat.{ℕ, ◌+◌, ◌-◌, ◌%◌, ◌<◌, ◌≤◌}
use mathlib.Core.Path.{◌≡◌, ◌∙◌}
use mathlib.Core.Logic.{◌⊎◌, inl, inr}
use native.Mathlib.Decide.{dec_lt}
use native.Mathlib.Nat.{mod-eq_of_lt, mod-eq-sub-mod}
use native.Mathlib.Omega.{arith}

-- Below the modulus nothing changes.
pub mod_below : (a c : ℕ) → a < c → a % c ≡ a
mod_below a c h = mod-eq_of_lt h

-- Between the modulus and twice the modulus it is taken off once.
pub mod_once : (a c : ℕ) → c ≤ a → a < c + c → a % c ≡ a - c
mod_once a c h k = mod-eq-sub-mod {n = a} {m = c} h ∙ mod-eq_of_lt {n = a - c} {m = c} (omega arith)

pub lt_or_le : (a b : ℕ) → (a < b) ⊎ (b ≤ a)
lt_or_le a b = elim (dec_lt a b) [ yes p ↦ inl p | no p ↦ inr (omega arith) ]
