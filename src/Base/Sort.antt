-- ===== src/Base/Sort.antt =====
-- `sort.Strings`, and `sort.Slice` by a text that each element carries. Bytes of UTF-8 are in the
-- order of the code points.
use mathlib.Core.List.{Perm}
use mathlib.Core.List.Perm
use sugi.Base.{
  ◌≡◌, Bool, true, false, List, [], ◌∷◌, map, if◌then◌else◌, Bool-cases, inl, inr, arith, All, ltb,
  ◌==◌, ◌||◌, ◌&&◌,
}
use sugi.Base.Text.{Text}

unfoldable pub text_lt : Text → Text → Bool
text_lt s [] = false
text_lt [] (d ∷ t) = true
text_lt (c ∷ s) (d ∷ t) = ltb c d || (c == d) && text_lt s t

text_lt_asym : (s t : Text) → text_lt s t ≡ true → text_lt t s ≡ false
unfolding text_lt
text_lt_asym [] [] h = cc
text_lt_asym [] (d ∷ t) h = ground arith
text_lt_asym (c ∷ s) [] h = cc
text_lt_asym (c ∷ s) (d ∷ t) h = ground (arith, text_lt_asym s t)

-- The order of `<=` is transitive.
text_le_trans : (s t u : Text) → text_lt t s ≡ false → text_lt u t ≡ false → text_lt u s ≡ false
unfolding text_lt
text_le_trans [] t u h k = ground arith
text_le_trans (c ∷ s) [] u h k = cc
text_le_trans (c ∷ s) (d ∷ t) [] h k = cc
text_le_trans (c ∷ s) (d ∷ t) (e ∷ u) h k = ground (arith, text_le_trans s t u)

module _ {A : Type 0} (key : A → Text) where
  unfoldable pub insert_text : A → List A → List A
  unfolding text_lt
  insert_text a [] = a ∷ []
  insert_text a (b ∷ bs) = if text_lt (key b) (key a) then b ∷ insert_text a bs else a ∷ b ∷ bs

  unfoldable pub sort_texts : List A → List A
  unfolding insert_text
  sort_texts [] = []
  sort_texts (a ∷ bs) = insert_text a (sort_texts bs)

  -- No key is above one behind it.
  abbrev pub AscendingTexts : List A → Type 0
  AscendingTexts [] = Unit
  AscendingTexts (a ∷ bs) = All (λ b. text_lt (key b) (key a) ≡ false) bs × AscendingTexts bs

  All-insert_text :
      (P : A → Type 0) (a : A) (bs : List A) → P a → All P bs → All P (insert_text a bs)
  unfolding insert_text
  All-insert_text P a [] p h = (p, tt)
  All-insert_text P a (b ∷ bs) p h = elim (Bool-cases (text_lt (key b) (key a))) [
    | inl less ↦ rw less (h.0, All-insert_text P a bs p h.1)
    | inr more ↦ rw more (p, h)
  ]

  le_behind :
      (a b : A) (bs : List A)
      → text_lt (key b) (key a) ≡ false
      → All (λ c. text_lt (key c) (key b) ≡ false) bs
      → All (λ c. text_lt (key c) (key a) ≡ false) bs
  le_behind a b [] le h = tt
  le_behind a b (c ∷ bs) le h =
      (text_le_trans (key a) (key b) (key c) le h.0, le_behind a b bs le h.1)

  insert_text-AscendingTexts :
      (a : A) (bs : List A) → AscendingTexts bs → AscendingTexts (insert_text a bs)
  unfolding insert_text
  insert_text-AscendingTexts a [] h = (tt, tt)
  insert_text-AscendingTexts a (b ∷ bs) h = elim (Bool-cases (text_lt (key b) (key a))) [
    | inl less ↦ rw less (
      All-insert_text (λ c. text_lt (key c) (key b) ≡ false) a bs
          (text_lt_asym (key b) (key a) less) h.0,
      insert_text-AscendingTexts a bs h.1,
    )
    | inr more ↦ rw more ((more, le_behind a b bs more h.0), h)
  ]

  pub sort_texts-AscendingTexts : (bs : List A) → AscendingTexts (sort_texts bs)
  unfolding sort_texts
  sort_texts-AscendingTexts [] = tt
  sort_texts-AscendingTexts (a ∷ bs) =
      insert_text-AscendingTexts a (sort_texts bs) (sort_texts-AscendingTexts bs)

  insert_text-Perm : (a : A) (bs : List A) → Perm (insert_text a bs) (a ∷ bs)
  unfolding insert_text
  insert_text-Perm a [] = Perm.rfl
  insert_text-Perm a (b ∷ bs) = elim (Bool-cases (text_lt (key b) (key a))) [
    | inl less ↦ rw less (Perm.trans (Perm.cons b (insert_text-Perm a bs)) (Perm.swap a b bs))
    | inr more ↦ rw more Perm.rfl
  ]

  pub sort_texts-Perm : (bs : List A) → Perm (sort_texts bs) bs
  unfolding sort_texts
  sort_texts-Perm [] = Perm.rfl
  sort_texts-Perm (a ∷ bs) =
      Perm.trans (insert_text-Perm a (sort_texts bs)) (Perm.cons a (sort_texts-Perm bs))

module _ {A : Type 0} (key : A → Text) where
  All-map_keys : (P : Text → Type 0) (bs : List A) → All P (map key bs) → All (λ b. P (key b)) bs
  All-map_keys P [] h = tt
  All-map_keys P (b ∷ bs) h = (h.0, All-map_keys P bs h.1)

  -- Elements are in order when their keys are.
  pub AscendingTexts-map :
      (bs : List A) → AscendingTexts (λ k. k) (map key bs) → AscendingTexts key bs
  AscendingTexts-map [] h = tt
  AscendingTexts-map (b ∷ bs) h =
      (All-map_keys (λ k. text_lt k (key b) ≡ false) bs h.0, AscendingTexts-map bs h.1)
