-- ===== src/Collector/Float.antt =====
-- Go's float64 as a parameter of internal/collector: its values, the operations that the collectors
-- use and, apart from them, the laws of IEEE 754 arithmetic that their results rest on. All laws
-- hold at NaN and at infinities too: they speak of tests that are false. `roundFloat` and
-- `clampPercentage` of cpu.go stand here.
use native.Mathlib.Nat.{pow-suc}
use sugi.Base.{
  ℕ, zero, suc, arith, Bool-cases, inl, inr, ◌≤◌, ◌<◌, ◌^◌, ◌≡◌, Bool, false, if◌then◌else◌,
}

pub record Float64 : Type 1 where
  pub F : Type 0
  -- `float64(n)` of a uint64.
  pub of_uint : ℕ → F
  pub add : F → F → F
  pub sub : F → F → F
  pub mul : F → F → F
  pub div : F → F → F
  pub lt : F → F → Bool
  pub le : F → F → Bool
  -- `math.Round`.
  pub round : F → F

-- A value that is not below 0.
abbrev pub NotNeg : (f : Float64) → f.F → Type 0
NotNeg f x = f.lt x (f.of_uint 0) ≡ false

-- A value that is above 0, or NaN.
abbrev pub NotLeZero : (f : Float64) → f.F → Type 0
NotLeZero f x = f.le x (f.of_uint 0) ≡ false

pub record FloatLaws (f : Float64) : Type 0 where
  -- Conversion keeps the order.
  pub of_uint_mono : (a b : ℕ) → a ≤ b → f.lt (f.of_uint b) (f.of_uint a) ≡ false
  pub of_uint_pos : (a : ℕ) → 0 < a → NotLeZero f (f.of_uint a)
  pub add_not_neg : (x y : f.F) → NotNeg f x → NotNeg f y → NotNeg f (f.add x y)
  pub mul_not_neg : (x y : f.F) → NotNeg f x → NotLeZero f y → NotNeg f (f.mul x y)
  pub div_not_neg : (x y : f.F) → NotNeg f x → NotLeZero f y → NotNeg f (f.div x y)
  pub round_not_neg : (x : f.F) → NotNeg f x → NotNeg f (f.round x)

module _ (f : Float64) where
  open f use {F, of_uint, mul, div, lt, round}

  -- `roundFloat`; `math.Pow(10, precision)` is exact at the precisions in use.
  unfoldable pub round_float : F → ℕ → F
  round_float val precision =
      let ratio = of_uint (10 ^ precision) in div (round (mul val ratio)) ratio

  unfoldable pub clamp_percentage : F → F
  clamp_percentage v =
      if lt v (of_uint 0) then of_uint 0 else if lt (of_uint 100) v then of_uint 100 else v

  -- In 0..100, or NaN.
  abbrev pub IsPercentage : F → Type 0
  IsPercentage v = (lt v (of_uint 0) ≡ false) × (lt (of_uint 100) v ≡ false)

pow_pos : (n : ℕ) → 0 < 10 ^ n
pow_pos zero = omega arith
pow_pos (suc n) = rw pow-suc (omega (arith, pow_pos n))

module _ (f : Float64) (laws : FloatLaws f) where
  open f use {F, of_uint, mul, lt}

  pub zero_in : IsPercentage f (of_uint 0)
  zero_in = (laws.of_uint_mono 0 0 (omega arith), laws.of_uint_mono 0 100 (omega arith))

  hundred_in : IsPercentage f (of_uint 100)
  hundred_in = (laws.of_uint_mono 0 100 (omega arith), laws.of_uint_mono 100 100 (omega arith))

  pub clamp_in : (v : F) → IsPercentage f (clamp_percentage f v)
  unfolding clamp_percentage
  clamp_in v = elim (Bool-cases (lt v (of_uint 0))) [
    | inl low ↦ rw low zero_in
    | inr ok ↦ rw ok (elim (Bool-cases (lt (of_uint 100) v)) [
      | inl high ↦ rw high hundred_in
      | inr fits ↦ rw fits (ok, fits)
    ])
  ]

  -- Rounding a value that is not negative gives one that is not.
  pub round_float-NotNeg :
      (x : F) (precision : ℕ) → NotNeg f x → NotNeg f (round_float f x precision)
  unfolding round_float
  round_float-NotNeg x precision h =
      let some_ratio = laws.of_uint_pos (10 ^ precision) (pow_pos precision) in
      laws.div_not_neg _ _ (laws.round_not_neg _ (laws.mul_not_neg x _ h some_ratio)) some_ratio
