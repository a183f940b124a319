-- ===== src/Collector/Scan.antt =====
-- What internal/collector and internal/api use of bufio.Scanner and strconv.
-- A reader is the text that it delivers, and whether it fails behind it.
use sugi.Base.{
  ℕ, ◌+◌, ◌-◌, ◌*◌, ◌/◌, ◌%◌, ◌^◌, ◌<◌, ◌||◌, Bool, true, false, List, [], ◌∷◌, ◌++◌, if◌then◌else◌,
  ltb, leb, ◌==◌, arith,
}
use sugi.Base.Text.{Text, is_empty, byte_len}
use sugi.Base.Int.{ℤ, pos, negsuc, sub_ℕ}

pub record Reader : Type 0 where
  pub text : Text
  pub failed : Bool

-- `bufio.MaxScanTokenSize`.
abbrev pub max_token : ℕ
max_token = 65536

-- A line loses one '\r' at its end.
unfoldable pub drop_cr : Text → Text
drop_cr [] = []
drop_cr (c ∷ []) = if c == 13 then [] else c ∷ []
drop_cr (c ∷ d ∷ s) = c ∷ drop_cr (d ∷ s)

-- The lines of a text behind the part `cur` of a line, and whether a line was too long. Scanning
-- ends at such a line.
unfoldable pub scan_from : Text → Text → List Text × Bool
unfolding drop_cr byte_len
scan_from cur [] =
    if is_empty cur
    then ([], false)
    else if leb max_token (byte_len cur)
    then ([], true)
    else (drop_cr cur ∷ [], false)
scan_from cur (c ∷ s) =
    let (rest, long) = scan_from [] s in
    let more = scan_from (cur ++ c ∷ []) s in
    if c == 10
    then (if leb max_token (byte_len cur) then ([], true) else (drop_cr cur ∷ rest, long))
    else more

-- The tokens of `for scanner.Scan()`, and whether `scanner.Err()` is not nil behind the loop.
unfoldable pub scan_lines : Reader → List Text × Bool
unfolding scan_from
scan_lines r = let (lines, long) = scan_from [] r.text in (lines, long || r.failed)

pub data Parsed (A : Type 0) : Type 0 where
  parsed : A → Parsed A
  syntax : Parsed A
  out_of_range : A → Parsed A

abbrev pub max_uint64 : ℕ
max_uint64 = 2 ^ 64 - 1

-- The digits of `strconv.ParseUint(s, 10, 64)`, behind the number `n`.
unfoldable pub parse_digits : ℕ → Text → Parsed ℕ
parse_digits n [] = parsed n
parse_digits n (c ∷ s) =
    let sum = (n * 10 + (c - b'0')) % 2 ^ 64 in
    let rest = parse_digits sum s in
    if ltb c b'0' || ltb b'9' c
    then syntax
    else if leb (max_uint64 / 10 + 1) n || ltb sum (n * 10)
    then out_of_range max_uint64
    else rest

unfoldable pub parse_uint : Text → Parsed ℕ
unfolding parse_digits
parse_uint [] = syntax
parse_uint (c ∷ s) = parse_digits 0 (c ∷ s)

-- The number that the code goes on with when it ignores the error.
abbrev pub or_zero : Parsed ℕ → ℕ
or_zero (parsed n) = n
or_zero syntax = 0
or_zero (out_of_range n) = n

-- The magnitude of a signed number, and the bound at which it is cut.
abbrev pub positive : Parsed ℕ → Parsed ℤ
positive (parsed n) = if leb (2 ^ 63) n then out_of_range (pos (2 ^ 63 - 1)) else parsed (pos n)
positive syntax = syntax
positive (out_of_range n) = out_of_range (pos (2 ^ 63 - 1))

abbrev pub negative : Parsed ℕ → Parsed ℤ
negative (parsed n) =
    if ltb (2 ^ 63) n then out_of_range (negsuc (2 ^ 63 - 1)) else parsed (sub_ℕ 0 n)
negative syntax = syntax
negative (out_of_range n) = out_of_range (negsuc (2 ^ 63 - 1))

-- `strconv.Atoi`.
unfoldable pub atoi : Text → Parsed ℤ
unfolding parse_uint
atoi [] = syntax
atoi (c ∷ s) =
    if c == b'-'
    then negative (parse_uint s)
    else if c == b'+'
    then positive (parse_uint s)
    else positive (parse_uint (c ∷ s))

abbrev pub int_or_zero : Parsed ℤ → ℤ
int_or_zero (parsed n) = n
int_or_zero syntax = pos 0
int_or_zero (out_of_range n) = n

parse_digits-lt : (s : Text) (n : ℕ) → n < 2 ^ 64 → or_zero (parse_digits n s) < 2 ^ 64
unfolding parse_digits
parse_digits-lt [] n h = h
parse_digits-lt (c ∷ s) n h = ground (arith, parse_digits-lt s ((n * 10 + (c - b'0')) % 2 ^ 64))

-- What is read fits 64 bits, on an error too.
pub parse_uint-lt : (s : Text) → or_zero (parse_uint s) < 2 ^ 64
unfolding parse_uint
parse_uint-lt [] = omega arith
parse_uint-lt (c ∷ s) = parse_digits-lt (c ∷ s) 0 (omega arith)
