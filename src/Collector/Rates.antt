-- ===== src/Collector/Rates.antt =====
-- What internal/collector/disk.go and net.go compute alike: rates of counters over an elapsed time,
-- and sums of them.
use sugi.Base.{
  ℕ, suc, ◌-◌, ◌/◌, ◌%◌, Bool, List, [], ◌∷◌, All, if◌then◌else◌, leb, Bool-cases, inl, inr, arith,
}
use sugi.Base.Int.{pos, negsuc}
use sugi.Base.Text.{Text}
use sugi.Model.Time.{Duration, second}
use sugi.Collector.Float.{Float64, FloatLaws, NotNeg, NotLeZero, round_float, round_float-NotNeg}

-- The keys of a map.
unfoldable pub keys : {V : Type 0} → List (Text × V) → List Text
keys [] = []
keys ((k, v) ∷ m) = k ∷ keys m

module _ (f : Float64) where
  open f use {F, of_uint, add, sub, div, le}

  abbrev pub magnitude : ℕ → F
  magnitude n = add (of_uint (n / second)) (div (of_uint (n % second)) (of_uint second))

  -- `duration.Seconds()`. The sign of a float64 comes out of the sum of the two negative parts.
  unfoldable pub seconds : Duration → F
  seconds (pos n) = magnitude n
  seconds (negsuc n) = sub (of_uint 0) (magnitude (suc n))

  -- The variable `seconds` of `CalculateDiskStats` and `CalculateNetStats`.
  unfoldable pub elapsed_seconds : Duration → F
  unfolding seconds
  elapsed_seconds d = if le (seconds d) (of_uint 0) then of_uint 1 else seconds d

  -- The rate of one counter, 0 where it has gone back. What has been counted is taken in units of
  -- `amount`.
  unfoldable pub rate : (ℕ → ℕ) → ℕ → ℕ → F → F
  unfolding round_float
  rate amount prev curr secs =
      if leb prev curr
      then round_float f (div (of_uint (amount (curr - prev))) secs) 2
      else of_uint 0

  -- A field that is summed with `+=` over those elements that count, from `acc`.
  unfoldable pub sum_of : {D : Type 0} → (D → Bool) → (D → F) → F → List D → F
  sum_of counts field acc [] = acc
  sum_of counts field acc (d ∷ ds) =
      sum_of counts field (if counts d then add acc (field d) else acc) ds

  -- A total of the result.
  unfoldable pub total_of : {D : Type 0} → (D → Bool) → (D → F) → List D → F
  unfolding sum_of round_float
  total_of counts field ds = round_float f (sum_of counts field (of_uint 0) ds) 2

module _ (f : Float64) (laws : FloatLaws f) where
  open f use {F, of_uint, add, le}

  pub zero-NotNeg : NotNeg f (of_uint 0)
  zero-NotNeg = laws.of_uint_mono 0 0 (omega arith)

  -- The time that rates are divided by is never 0 or negative, whatever the clock does.
  pub elapsed_seconds-NotLeZero : (d : Duration) → NotLeZero f (elapsed_seconds f d)
  unfolding elapsed_seconds
  elapsed_seconds-NotLeZero d = elim (Bool-cases (le (seconds f d) (of_uint 0))) [
    | inl low ↦ rw low (laws.of_uint_pos 1 (omega arith))
    | inr ok ↦ rw ok ok
  ]

  pub rate-NotNeg :
      (amount : ℕ → ℕ) (prev curr : ℕ) (secs : F)
      → NotLeZero f secs
      → NotNeg f (rate f amount prev curr secs)
  unfolding rate
  rate-NotNeg amount prev curr secs h = elim (Bool-cases (leb prev curr)) [
    | inl grew ↦ rw grew (
        round_float-NotNeg f laws _ 2
          (laws.div_not_neg _ _ (laws.of_uint_mono 0 (amount (curr - prev)) (omega arith)) h))
    | inr back ↦ rw back zero-NotNeg
  ]

  sum_of-NotNeg :
      {D : Type 0} (counts : D → Bool) (field : D → F) (acc : F) (ds : List D)
      → NotNeg f acc
      → All (λ d. NotNeg f (field d)) ds
      → NotNeg f (sum_of f counts field acc ds)
  unfolding sum_of
  sum_of-NotNeg counts field acc [] p h = p
  sum_of-NotNeg counts field acc (d ∷ ds) p h = elim (Bool-cases (counts d)) [
    | inl counted ↦
        rw counted
          (sum_of-NotNeg counts field (add acc (field d)) ds (laws.add_not_neg _ _ p h.0) h.1)
    | inr out ↦ rw out (sum_of-NotNeg counts field acc ds p h.1)
  ]

  pub total_of-NotNeg :
      {D : Type 0} (counts : D → Bool) (field : D → F) (ds : List D)
      → All (λ d. NotNeg f (field d)) ds
      → NotNeg f (total_of f counts field ds)
  unfolding total_of
  total_of-NotNeg counts field ds h =
      round_float-NotNeg f laws _ 2 (sum_of-NotNeg counts field (of_uint 0) ds zero-NotNeg h)
