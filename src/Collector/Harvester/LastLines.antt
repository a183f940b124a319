-- ===== src/Collector/Harvester/LastLines.antt =====
-- `readLastLines` of internal/collector/log_harvester.go. Texts of log files are bytes here, which
-- are the code points of ASCII texts.
use sugi.Base.{
  ℕ, ◌-◌, ◌≤◌, ◌<◌, ◌≡◌, ◌⊎◌, refl, sym, ap, ◌∙◌, Option, none, some, List, [], ◌∷◌, ◌++◌,
  if◌then◌else◌, ltb, leb-false, ◌==◌, ◌||◌, take_last_all, length, drop, take, take_last,
  length-append, take-append-drop, drop-append_right, Bool-cases, inl, inr, arith,
}
use sugi.Base.Int.{ℤ, pos, pos_part, le_zero}
use sugi.Base.Text.{split, cons_head, Text, is_empty}

-- `strings.Split(s, "\n")`.
-- The last line is dropped if it is empty.
unfoldable pub drop_last_empty : List Text → List Text
drop_last_empty [] = []
drop_last_empty (l ∷ []) = if is_empty l then [] else l ∷ []
drop_last_empty (l ∷ m ∷ ls) = l ∷ drop_last_empty (m ∷ ls)

abbrev pub buf_size : ℕ
buf_size = 65536

-- `readLastLines`; `none` stands for a file of which `Stat` or `ReadAt` fails.
unfoldable pub read_last_lines : Option Text → ℤ → List Text
unfolding split drop_last_empty
read_last_lines none n = []
read_last_lines (some content) n =
    if le_zero n || is_empty content
    then []
    else let lines = drop_last_empty (split 10 (take_last buf_size content)) in
      if ltb (pos_part n) (length lines) then take_last (pos_part n) lines else lines

-- All lines of a text, a last one without a newline included.
abbrev pub all_lines : Text → List Text
all_lines content = drop_last_empty (split 10 content)

-- A list is `a ∷ t` behind some prefix.
abbrev EndsIn : List Text → List Text → Type 0
EndsIn t ls = (before : List Text) × (h : Text) × (ls ≡ before ++ h ∷ t)

EndsIn-cons_head : (c : ℕ) (t ls : List Text) → EndsIn t ls → EndsIn t (cons_head c ls)
EndsIn-cons_head c t ls ([], h, e) = ([], c ∷ h, ap (cons_head c) e)
EndsIn-cons_head c t ls (l ∷ before, h, e) = ((c ∷ l) ∷ before, h, ap (cons_head c) e)

split-EndsIn :
    (front back : Text) (h : Text) (t : List Text)
    → split 10 back ≡ h ∷ t
    → EndsIn t (split 10 (front ++ back))
unfolding split
split-EndsIn [] back h t e = ([], h, e)
split-EndsIn (c ∷ front) back h t e =
    let (before, k, rest) = split-EndsIn front back h t e in
    elim (Bool-cases (c == 10)) [
      | inl newline ↦ rw newline ([] ∷ before, k, ap (λ ls. [] ∷ ls) rest)
      | inr other ↦ rw other (EndsIn-cons_head c t (split 10 (front ++ back)) (before, k, rest))
    ]

drop_last_empty-append :
    (before : List Text) (h l : Text) (t : List Text)
    → drop_last_empty (before ++ h ∷ l ∷ t) ≡ (before ++ h ∷ []) ++ drop_last_empty (l ∷ t)
unfolding drop_last_empty
drop_last_empty-append [] h l t = refl
drop_last_empty-append (b ∷ []) h l t = refl
drop_last_empty-append (b ∷ c ∷ before) h l t =
    ap (λ ls. b ∷ ls) (drop_last_empty-append (c ∷ before) h l t)

take_last-append :
    (n : ℕ) (xs ys : List Text) → n ≤ length ys → take_last n (xs ++ ys) ≡ take_last n ys
take_last-append n xs ys h =
    let k = length (xs ++ ys) - n in
    drop-append_right k xs ys (omega (arith, length-append xs ys))
    ∙ ap (λ i. drop i ys) (omega (arith, length-append xs ys))

split-cons : (s : Text) → (h : Text) × (t : List Text) × (split 10 s ≡ h ∷ t)
unfolding split
split-cons [] = ([], [], refl)
split-cons (c ∷ s) =
    let (h, t, e) = split-cons s in
    elim (Bool-cases (c == 10)) [
      | inl newline ↦ rw newline ([], split 10 s, refl)
      | inr other ↦ rw (other, e) (c ∷ h, t, refl)
    ]

single : (n : ℕ) (h : Text) → 0 < n → n < length (drop_last_empty (h ∷ [])) → ⊥
unfolding drop_last_empty
single n h p q = ground arith

last_or_all :
    (n : ℕ) (lines : List Text)
    → (if ltb n (length lines) then take_last n lines else lines) ≡ take_last n lines
last_or_all n lines = elim (Bool-cases (ltb n (length lines))) [
  | inl more ↦ rw more refl
  | inr fewer ↦ rw fewer (sym (take_last_all n lines (ground arith)))
]

ends :
    (n : ℕ) (front back h : Text) (t : List Text)
    → 0 < n
    → n < length (all_lines back)
    → split 10 back ≡ h ∷ t
    → take_last n (all_lines (front ++ back)) ≡ take_last n (all_lines back)
unfolding drop_last_empty
ends n front back h [] pos_n fits e = absurd (single n h pos_n (rw e at fits))
ends n front back h (l ∷ t) pos_n fits e =
    let (before, k, rest) = split-EndsIn front back h (l ∷ t) e in
    let long : n ≤ length (drop_last_empty (l ∷ t)) = let f = rw e at fits in omega (arith, f) in
    ap (λ ls. take_last n (drop_last_empty ls)) rest
    ∙ ap (take_last n) (drop_last_empty-append before k l t)
    ∙ take_last-append n (before ++ k ∷ []) (drop_last_empty (l ∷ t)) long
    ∙ sym (take_last-append n (h ∷ []) (drop_last_empty (l ∷ t)) long)
    ∙ ap (λ ls. take_last n (drop_last_empty ls)) (sym e)

-- The last lines of a text are those of its end, if they fit there with one more.
last_of_end :
    (n : ℕ) (front back : Text)
    → 0 < n
    → n < length (all_lines back)
    → take_last n (all_lines (front ++ back)) ≡ take_last n (all_lines back)
last_of_end n front back pos_n fits =
    let (h, t, e) = split-cons back in ends n front back h t pos_n fits e

empty_file : (n : ℕ) → read_last_lines (some []) (pos n) ≡ take_last n (all_lines [])
unfolding read_last_lines
empty_file n = ground (arith, take_last_all {A = Text} n [] (omega arith))

read_some :
    (c : ℕ) (s : Text) (n : ℕ)
    → 0 < n
    → read_last_lines (some (c ∷ s)) (pos n) ≡ take_last n (all_lines (take_last buf_size (c ∷ s)))
unfolding read_last_lines
read_some c s n h = rw (leb-false n 0 h) (last_or_all n (all_lines (take_last buf_size (c ∷ s))))

lines_of_end :
    (content : Text) (n : ℕ)
    → 0 < n
    → (length content ≤ buf_size) ⊎ (n < length (all_lines (take_last buf_size content)))
    → take_last n (all_lines (take_last buf_size content)) ≡ take_last n (all_lines content)
lines_of_end content n h (inl small) =
    ap (λ s. take_last n (all_lines s)) (take_last_all buf_size content small)
lines_of_end content n h (inr enough) =
    let k = length content - buf_size in
    sym (last_of_end n (take k content) (drop k content) h enough)
    ∙ ap (λ s. take_last n (all_lines s)) (take-append-drop k content)

-- `readLastLines` returns the last `n` lines of the file, all of them if there are fewer, where
-- the file is at most 64 KiB long or more than `n` lines stand in its last 64 KiB.
pub read_last_lines-take_last :
    (content : Text) (n : ℕ)
    → 0 < n
    → (length content ≤ buf_size) ⊎ (n < length (all_lines (take_last buf_size content)))
    → read_last_lines (some content) (pos n) ≡ take_last n (all_lines content)
read_last_lines-take_last [] n h enough = empty_file n
read_last_lines-take_last (c ∷ s) n h enough = read_some c s n h ∙ lines_of_end (c ∷ s) n h enough
