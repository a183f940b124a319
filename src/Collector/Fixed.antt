-- ===== src/Collector/Fixed.antt =====
-- Non-negative numbers with six decimals, as an instance of the arithmetic that the collectors of
-- internal/collector are given: it runs in tests, and it satisfies the laws.
use sugi.Base.{ℕ, ◌-◌, ◌*◌, ◌/◌, ◌+◌, ◌≡◌, false, arith, ltb, leb, ltb-false, leb-false}
use sugi.Collector.Float.{Float64, FloatLaws}

abbrev pub unit : ℕ
unit = 1000000

abbrev pub fixed : Float64
fixed = record {
  F = ℕ;
  of_uint = λ n. n * unit;
  add = λ a b. a + b;
  sub = λ a b. a - b;
  mul = λ a b. a * b / unit;
  div = λ a b. a * unit / b;
  lt = ltb;
  le = leb;
  round = λ a. (a + unit / 2) / unit * unit;
}

not_neg : (x : ℕ) → ltb x 0 ≡ false
not_neg x = ltb-false x 0 (omega arith)

pub fixed-FloatLaws : FloatLaws fixed
fixed-FloatLaws = record {
  of_uint_mono = λ a b h. ltb-false (b * unit) (a * unit) (omega arith);
  of_uint_pos = λ a h. leb-false (a * unit) 0 (omega arith);
  add_not_neg = λ x y h k. not_neg (x + y);
  mul_not_neg = λ x y h k. not_neg (x * y / unit);
  div_not_neg = λ x y h k. not_neg (x * unit / y);
  round_not_neg = λ x h. not_neg ((x + unit / 2) / unit * unit);
}
