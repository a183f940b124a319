-- ===== src/Base/Words.antt =====
-- Texts of words: what `strings.Fields` makes of words that are joined by single spaces.
use sugi.Base.{
  ℕ, ◌≡◌, refl, sym, ap, ◌∙◌, true, false, List, [], ◌∷◌, ◌++◌, append-nil, append_assoc,
  if◌then◌else◌, All, Bool-cases, inl, inr,
}
use sugi.Base.Text.{
  Text, is_empty, is_space, trim_left, trim_right, trim_space, fields, fields_from,
}

-- `strings.Join(words, " ")`.
unfoldable pub join_words : List Text → Text
join_words [] = []
join_words (w ∷ []) = w
join_words (w ∷ v ∷ ws) = w ++ (32 ∷ join_words (v ∷ ws))

-- A word has a character, and no space.
abbrev pub IsWord : Text → Type 0
IsWord w = (is_empty w ≡ false) × All (λ c. is_space c ≡ false) w

module _ (cur : Text) (c : ℕ) (s : Text) where
  fields_from-space :
      is_space c ≡ true
      → fields_from cur (c ∷ s)
        ≡ (if is_empty cur then fields_from [] s else cur ∷ fields_from [] s)
  unfolding fields_from
  fields_from-space h = rw h refl

  fields_from-other : is_space c ≡ false → fields_from cur (c ∷ s) ≡ fields_from (cur ++ c ∷ []) s
  unfolding fields_from
  fields_from-other h = rw h refl

-- Spaces at the ends of a text do not change its fields.
fields-trim_left : (s : Text) → fields_from [] (trim_left s) ≡ fields_from [] s
unfolding trim_left
fields-trim_left [] = refl
fields-trim_left (c ∷ s) = elim (Bool-cases (is_space c)) [
  | inl space ↦ rw (fields_from-space [] c s space, space) (fields-trim_left s)
  | inr other ↦ rw other refl
]

is_empty-nil : (s : Text) → is_empty s ≡ true → s ≡ []
is_empty-nil [] h = refl
is_empty-nil (c ∷ s) h = cc

-- The case of a space before the rest `s`, whose trimmed form is `t`.
fields_behind_space :
    (cur : Text) (c : ℕ) (s t : Text)
    → is_space c ≡ true
    → fields_from [] t ≡ fields_from [] s
    → fields_from cur (if is_empty t then [] else c ∷ t) ≡ fields_from cur (c ∷ s)
unfolding fields_from
fields_behind_space cur c s [] space e = rw (fields_from-space cur c s space, ← e) refl
fields_behind_space cur c s (d ∷ t) space e =
    rw (fields_from-space cur c (d ∷ t) space, fields_from-space cur c s space, e) refl

fields-trim_right : (s cur : Text) → fields_from cur (trim_right s) ≡ fields_from cur s
unfolding trim_right
fields-trim_right [] cur = refl
fields-trim_right (c ∷ s) cur = elim (Bool-cases (is_space c)) [
  | inl space ↦ rw space (fields_behind_space cur c s (trim_right s) space (fields-trim_right s []))
  | inr other ↦
      rw (other, fields_from-other cur c (trim_right s) other, fields_from-other cur c s other)
        (fields-trim_right s (cur ++ c ∷ []))
]

pub fields-trim_space : (s : Text) → fields (trim_space s) ≡ fields s
unfolding fields trim_space
fields-trim_space s = fields-trim_left (trim_right s) ∙ fields-trim_right s []

-- A word is read to its end.
fields_from-word :
    (w cur rest : Text)
    → All (λ c. is_space c ≡ false) w
    → fields_from cur (w ++ rest) ≡ fields_from (cur ++ w) rest
fields_from-word [] cur rest h = rw (append-nil cur) refl
fields_from-word (c ∷ w) cur rest h =
    fields_from-other cur c (w ++ rest) h.0
    ∙ fields_from-word w (cur ++ c ∷ []) rest h.1
    ∙ ap (λ t. fields_from t rest) (append_assoc cur (c ∷ []) w)

last_word : (w : Text) → is_empty w ≡ false → fields_from w [] ≡ w ∷ []
unfolding fields_from
last_word w h = rw h refl

pub fields-join_words : (ws : List Text) → All IsWord ws → fields (join_words ws) ≡ ws
unfolding fields join_words
fields-join_words [] h = refl
fields-join_words (w ∷ []) h =
    ap (fields_from []) (sym (append-nil w)) ∙ fields_from-word w [] [] h.0.1 ∙ last_word w h.0.0
fields-join_words (w ∷ v ∷ ws) h =
    fields_from-word w [] (32 ∷ join_words (v ∷ ws)) h.0.1
    ∙ fields_from-space w 32 (join_words (v ∷ ws)) refl
    ∙ rw h.0.0 (ap (λ l. w ∷ l) (fields-join_words (v ∷ ws) h.1))
