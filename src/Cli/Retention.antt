-- ===== src/Cli/Retention.antt =====
-- What `parseRetention` of cmd/sugi/main.go makes of a number of days, and what becomes of it.
use sugi.Base.{
  ℕ, ◌+◌, ◌-◌, ◌*◌, ◌%◌, ◌^◌, ◌≤◌, ◌<◌, ◌≡◌, refl, ◌∙◌, true, false, Option, some, [], ◌∷◌, ◌++◌,
  ltb, leb, ◌==◌, ◌||◌, length, length-append, All, arith,
}
use sugi.Base.Int.{pos, negsuc}
use sugi.Base.Text.{Text, is_space}
use sugi.Model.Time.{Duration, hour}
use sugi.Collector.Scan.{parsed, atoi, parse_uint, parse_digits}
use sugi.Server.{Config, week, with_server_defaults}
use sugi.Cli.{
  ends_in_d, skip_spaces, is_digit, take_digits, scan_days, take_sign, wrap_int64, parse_retention,
}

-- The number that digits write behind those of `n`.
abbrev pub value_from : ℕ → Text → ℕ
value_from n [] = n
value_from n (c ∷ s) = value_from (n * 10 + (c - b'0')) s

value_from-grows : (s : Text) (n : ℕ) → n ≤ value_from n s
value_from-grows [] n = omega arith
value_from-grows (c ∷ s) n = omega (arith, value_from-grows s (n * 10 + (c - b'0')))

parse_digits-value :
    (s : Text) (n : ℕ)
    → All (λ c. is_digit c ≡ true) s
    → value_from n s < 2 ^ 64
    → parse_digits n s ≡ parsed (value_from n s)
unfolding parse_digits is_digit
parse_digits-value [] n h k = refl
parse_digits-value (c ∷ s) n h k =
    let grows = value_from-grows s (n * 10 + (c - b'0')) in
    let digit : ltb c b'0' || ltb b'9' c ≡ false = ground (arith, h.0) in
    let m : (n * 10 + (c - b'0')) % 2 ^ 64 ≡ n * 10 + (c - b'0') = omega arith in
    let fits : leb 1844674407370955162 n || ltb (n * 10 + (c - b'0')) (n * 10) ≡ false =
      ground arith in
    rw (digit, m, fits, parse_digits-value s (n * 10 + (c - b'0')) h.1 k) refl

take_digits-digits :
    (ds : Text) → All (λ c. is_digit c ≡ true) ds → take_digits (ds ++ b'd' ∷ []) ≡ (ds, b'd' ∷ [])
unfolding take_digits is_digit
take_digits-digits [] h = refl
take_digits-digits (c ∷ ds) h = rw (h.0, take_digits-digits ds h.1) refl

ends_in_d-append : (ds : Text) → ends_in_d (ds ++ b'd' ∷ []) ≡ true
unfolding ends_in_d
ends_in_d-append [] = refl
ends_in_d-append (c ∷ []) = refl
ends_in_d-append (c ∷ e ∷ ds) = ends_in_d-append (e ∷ ds)

no_space : (c : ℕ) (s : Text) → is_digit c ≡ true → skip_spaces (c ∷ s) ≡ some (c ∷ s)
unfolding skip_spaces is_digit is_space
no_space c s h = ground arith

module _ (c : ℕ) (ds : Text) (digits : All (λ d. is_digit d ≡ true) (c ∷ ds)) where
  atoi-digits :
      value_from 0 (c ∷ ds) < 2 ^ 63 → atoi (c ∷ ds) ≡ parsed (pos (value_from 0 (c ∷ ds)))
  unfolding atoi parse_uint is_digit
  atoi-digits h =
      let minus : (c == b'-') ≡ false = ground (arith, digits.0) in
      let plus : (c == b'+') ≡ false = ground (arith, digits.0) in
      let e = parse_digits-value (c ∷ ds) 0 digits (omega arith) in
      let fits : leb (2 ^ 63) (value_from 0 (c ∷ ds)) ≡ false = ground arith in
      rw (minus, plus, e, fits) refl

  no_sign : (s : Text) → take_sign (c ∷ s) ≡ ([], c ∷ s)
  unfolding is_digit
  no_sign s = let h : c == b'+' || c == b'-' ≡ false = ground (arith, digits.0) in rw h refl

  scan_days-digits :
      value_from 0 (c ∷ ds) < 2 ^ 63
      → scan_days (c ∷ ds ++ b'd' ∷ []) ≡ some (pos (value_from 0 (c ∷ ds)))
  unfolding scan_days
  scan_days-digits h =
      rw
        (
          no_space c (ds ++ b'd' ∷ []) digits.0,
          no_sign (ds ++ b'd' ∷ []),
          take_digits-digits (c ∷ ds) digits,
          atoi-digits h,
        )
        refl

-- The nanoseconds of a day.
abbrev pub day : ℕ
day = 24 * hour

wrap-small : (n : ℕ) → n < 2 ^ 63 → wrap_int64 n ≡ pos n
unfolding wrap_int64
wrap-small n h =
    let m : n % 2 ^ 64 ≡ n = omega arith in
    let p : ltb n (2 ^ 63) ≡ true = ground arith in rw (m, p) refl

wrap-large : (n : ℕ) → 2 ^ 63 ≤ n → n < 2 ^ 64 → wrap_int64 n ≡ negsuc (2 ^ 64 - 1 - n)
unfolding wrap_int64
wrap-large n h k =
    let m : n % 2 ^ 64 ≡ n = omega arith in
    let p : ltb n (2 ^ 63) ≡ false = ground arith in rw (m, p) refl

module _ (parse_duration : Text → Option Duration) (c : ℕ) (ds : Text)
    (digits : All (λ d. is_digit d ≡ true) (c ∷ ds)) where
  days :
      0 < value_from 0 (c ∷ ds)
      → value_from 0 (c ∷ ds) < 2 ^ 63
      → parse_retention parse_duration (c ∷ ds ++ b'd' ∷ [])
        ≡ wrap_int64 (value_from 0 (c ∷ ds) * day)
  unfolding parse_retention
  days h k =
      let long : ltb 1 (length (c ∷ ds ++ b'd' ∷ [])) ≡ true =
        ground (arith, length-append ds (b'd' ∷ [])) in
      let given : (value_from 0 (c ∷ ds) == 0) ≡ false = ground arith in
      rw (long, ends_in_d-append (c ∷ ds), scan_days-digits c ds digits k, given) refl

-- Digits with a `d` behind them are that number of days, from one day to 106751.
pub parse_retention-days :
    (parse_duration : Text → Option Duration) (c : ℕ) (ds : Text)
    → All (λ d. is_digit d ≡ true) (c ∷ ds)
    → 0 < value_from 0 (c ∷ ds)
    → value_from 0 (c ∷ ds) ≤ 106751
    → parse_retention parse_duration (c ∷ ds ++ b'd' ∷ []) ≡ pos (value_from 0 (c ∷ ds) * day)
parse_retention-days parse_duration c ds digits h k =
    days parse_duration c ds digits h (omega arith)
    ∙ wrap-small (value_from 0 (c ∷ ds) * day) (omega arith)

-- From 106752 days to 213503, the nanoseconds do not fit 64 bits, and the server keeps logs for
-- seven days.
pub parse_retention-week :
    (parse_duration : Text → Option Duration) (cfg : Config) (c : ℕ) (ds : Text)
    → All (λ d. is_digit d ≡ true) (c ∷ ds)
    → 106752 ≤ value_from 0 (c ∷ ds)
    → value_from 0 (c ∷ ds) ≤ 213503
    → (with_server_defaults
        (record cfg { retention = parse_retention parse_duration (c ∷ ds ++ b'd' ∷ []) })).retention
      ≡ week
unfolding with_server_defaults
parse_retention-week parse_duration cfg c ds digits h k =
    rw
      (
        days parse_duration c ds digits (omega arith) (omega arith),
        wrap-large (value_from 0 (c ∷ ds) * day) (omega arith) (omega arith),
      )
      refl
