-- ===== src/Base/Cuts.antt =====
-- Where `cut_at` cuts a text.
use mathlib.Core.Option.{some-injective}
use sugi.Base.{
  Bool, not, ◌&&◌, ap, sym, ◌∙◌, subst, true, ℕ, ◌≡◌, refl, false, Option, none, some, [], ◌∷◌,
  ◌++◌, ◌==◌, All, Bool-cases, Option-cases, inl, inr, arith,
}
use sugi.Base.Text.{Text, cut_at}

-- A text without the character.
abbrev pub Lacks : ℕ → Text → Type 0
Lacks b s = All (λ c. (c == b) ≡ false) s

pub cut_at-append : (b : ℕ) (s t : Text) → Lacks b s → cut_at b (s ++ b ∷ t) ≡ some (s, t)
unfolding cut_at
cut_at-append b [] t h = ground arith
cut_at-append b (c ∷ s) t h = rw (h.0, cut_at-append b s t h.1) refl

pub cut_at-none : (b : ℕ) (s : Text) → Lacks b s → cut_at b s ≡ none
unfolding cut_at
cut_at-none b [] h = refl
cut_at-none b (c ∷ s) h = rw (h.0, cut_at-none b s h.1) refl

first_cut :
    (b c : ℕ) (s : Text) {before after : Text}
    → (c == b) ≡ true
    → ◌≡◌ {A = Option (Text × Text)} (some ([], s)) (some (before, after))
    → Lacks b before × (c ∷ s ≡ before ++ b ∷ after)
first_cut b c s h e =
    let k : c ≡ b = ground arith in
    subst (λ (p : Text × Text). Lacks b p.0 × (c ∷ s ≡ p.0 ++ b ∷ p.1)) (some-injective _ _ e)
      (tt, ap (λ x. x ∷ s) k)

later_cut :
    (b c : ℕ) (s u v : Text) {before after : Text}
    → (c == b) ≡ false
    → Lacks b u × (s ≡ u ++ b ∷ v)
    → ◌≡◌ {A = Option (Text × Text)} (some (c ∷ u, v)) (some (before, after))
    → Lacks b before × (c ∷ s ≡ before ++ b ∷ after)
later_cut b c s u v other h e =
    subst (λ (p : Text × Text). Lacks b p.0 × (c ∷ s ≡ p.0 ++ b ∷ p.1)) (some-injective _ _ e)
      ((other, h.0), ap (λ t. c ∷ t) h.1)

-- Both parts of a cut, put together again.
pub cut_at-some :
    (b : ℕ) (s : Text) {before after : Text}
    → cut_at b s ≡ some (before, after)
    → Lacks b before × (s ≡ before ++ b ∷ after)
unfolding cut_at
cut_at-some b [] e = cc
cut_at-some b (c ∷ s) {before} {after} e = elim (Bool-cases (c == b)) [
  | inl found ↦ first_cut b c s found (rw found at e)
  | inr other ↦ elim (Option-cases (cut_at b s)) [
    | inl missing ↦ let k = rw (other, missing, cut_at) at e in cc
    | inr ((u, v), k) ↦ later_cut b c s u v other (cut_at-some b s k) (rw (other, k, cut_at) at e)
  ]
]

-- A text that is not cut lacks the character.
pub cut_at-Lacks : (b : ℕ) (s : Text) → cut_at b s ≡ none → Lacks b s
unfolding cut_at
cut_at-Lacks b [] e = tt
cut_at-Lacks b (c ∷ s) e = elim (Bool-cases (c == b)) [
  | inl found ↦ let k = rw found at e in cc
  | inr other ↦ elim (Option-cases (cut_at b s)) [
    | inl missing ↦ (other, cut_at-Lacks b s missing)
    | inr ((u, v), k) ↦ let j = rw (other, k, cut_at) at e in cc
  ]
]

-- There is one way to cut a text at the first of the characters.
pub cut_unique :
    (b : ℕ) (s t : Text) {u v : Text}
    → Lacks b s
    → Lacks b u
    → s ++ b ∷ t ≡ u ++ b ∷ v
    → (s ≡ u) × (t ≡ v)
cut_unique b s t {u} {v} hs hu e =
    let k =
      some-injective _ _
        (sym (cut_at-append b s t hs) ∙ ap (cut_at b) e ∙ cut_at-append b u v hu) in
    (ap (λ p. p.0) k, ap (λ p. p.1) k)

-- The test for it.
abbrev pub lacks : ℕ → Text → Bool
lacks b [] = true
lacks b (c ∷ s) = not (c == b) && lacks b s

pub lacks-Lacks : (b : ℕ) (s : Text) → lacks b s ≡ true → Lacks b s
lacks-Lacks b [] h = tt
lacks-Lacks b (c ∷ s) h = (ground arith, lacks-Lacks b s (ground arith))
