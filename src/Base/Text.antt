-- ===== src/Base/Text.antt =====
-- Texts: a Go string is the list of its code points. Bytes of ASCII texts are their code points.
use Prim.Native.Char.{code}
use Prim.Native.String.{String}
use Prim.Native.Nat.{ℕ, ◌+◌, ◌-◌}
use mathlib.Core.Path.{◌≡◌, refl}
use mathlib.Core.Logic.{◌↔◌}
use mathlib.Core.Bool.{Bool, true, false, ◌&&◌, ◌||◌}
use mathlib.Core.List.{List, [], ◌∷◌, ◌++◌, map}
use mathlib.Core.Option.{Option, none, some}
use native.Mathlib.Omega.{arith}
use sugi.Base.Tests.{ltb, leb, ◌==◌, if◌then◌else◌}

abbrev pub Text : Type 0
Text = List ℕ

-- The code points of a literal.
abbrev pub codes : String → Text
codes String.[] = []
codes (String.◌∷◌ c s) = code c ∷ codes s

unfoldable pub text_eq : Text → Text → Bool
text_eq [] [] = true
text_eq [] (d ∷ t) = false
text_eq (c ∷ s) [] = false
text_eq (c ∷ s) (d ∷ t) = (c == d) && text_eq s t

pub text_eq_iff : (s t : Text) → (text_eq s t ≡ true) ↔ (s ≡ t)
unfolding text_eq
text_eq_iff [] [] = (λ _. refl, λ _. refl)
text_eq_iff [] (d ∷ t) = (λ h. cc, λ h. cc)
text_eq_iff (c ∷ s) [] = (λ h. cc, λ h. cc)
text_eq_iff (c ∷ s) (d ∷ t) =
    (λ h. ground (arith, text_eq_iff s t), λ h. ground (arith, text_eq_iff s t))

-- `s == ""`.
abbrev pub is_empty : Text → Bool
is_empty [] = true
is_empty (c ∷ s) = false

-- `strings.HasPrefix(s, prefix)`.
unfoldable pub has_prefix : Text → Text → Bool
has_prefix s [] = true
has_prefix [] (d ∷ t) = false
has_prefix (c ∷ s) (d ∷ t) = (c == d) && has_prefix s t

-- `strings.Contains(s, sub)`.
unfoldable pub contains : Text → Text → Bool
unfolding has_prefix
contains [] sub = has_prefix [] sub
contains (c ∷ s) sub = has_prefix (c ∷ s) sub || contains s sub

-- `unicode.IsSpace`.
unfoldable pub is_space : ℕ → Bool
is_space c =
    (leb 9 c && leb c 13)
    || (c == 32)
    || (c == 0x85)
    || (c == 0xa0)
    || (c == 0x1680)
    || (leb 0x2000 c && leb c 0x200a)
    || (c == 0x2028)
    || (c == 0x2029)
    || (c == 0x202f)
    || (c == 0x205f)
    || (c == 0x3000)

unfoldable pub trim_left : Text → Text
trim_left [] = []
trim_left (c ∷ s) = if is_space c then trim_left s else c ∷ s

unfoldable pub trim_right : Text → Text
trim_right [] = []
trim_right (c ∷ s) = let t = trim_right s in if is_space c && is_empty t then [] else c ∷ t

-- `strings.TrimSpace`.
unfoldable pub trim_space : Text → Text
unfolding trim_left trim_right is_space
trim_space s = trim_left (trim_right s)

-- `strings.Fields`: the runs of characters that are no space; the first argument is the run so far.
unfoldable pub fields_from : Text → Text → List Text
fields_from cur [] = if is_empty cur then [] else cur ∷ []
fields_from cur (c ∷ s) =
    let next = fields_from [] s in
    let more = fields_from (cur ++ c ∷ []) s in
    if is_space c then (if is_empty cur then next else cur ∷ next) else more

unfoldable pub fields : Text → List Text
unfolding fields_from is_space
fields s = fields_from [] s

-- `strings.IndexByte(s, b)` for an ASCII byte, with the text before it and behind it.
unfoldable pub cut_at : ℕ → Text → Option (Text × Text)
cut_at b [] = none
cut_at b (c ∷ s) =
    if c == b
    then some ([], s)
    else elim (cut_at b s) [ none ↦ none | some (before, after) ↦ some (c ∷ before, after) ]

abbrev pub cons_head : ℕ → List Text → List Text
cons_head c [] = (c ∷ []) ∷ []
cons_head c (l ∷ ls) = (c ∷ l) ∷ ls

-- `strings.Split` at a separator of one character.
unfoldable pub split : ℕ → Text → List Text
split b [] = [] ∷ []
split b (c ∷ s) = let rest = split b s in if c == b then [] ∷ rest else cons_head c rest

-- `unicode.ToUpper` and `unicode.ToLower`; `wide` is their table beyond ASCII.
unfoldable pub upper_rune : (ℕ → ℕ) → ℕ → ℕ
upper_rune wide c = if ltb c 128 then (if leb b'a' c && leb c b'z' then c - 32 else c) else wide c

unfoldable pub lower_rune : (ℕ → ℕ) → ℕ → ℕ
lower_rune wide c = if ltb c 128 then (if leb b'A' c && leb c b'Z' then c + 32 else c) else wide c

unfoldable pub to_upper : (ℕ → ℕ) → Text → Text
unfolding upper_rune
to_upper wide s = map (upper_rune wide) s

unfoldable pub to_lower : (ℕ → ℕ) → Text → Text
unfolding lower_rune
to_lower wide s = map (lower_rune wide) s

-- How many bytes UTF-8 takes for a text.
unfoldable pub byte_len : Text → ℕ
byte_len [] = 0
byte_len (c ∷ s) =
    (if ltb c 0x80 then 1 else if ltb c 0x800 then 2 else if ltb c 0x10000 then 3 else 4)
    + byte_len s
