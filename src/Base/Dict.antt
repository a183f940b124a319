-- ===== src/Base/Dict.antt =====
-- Go maps from texts, as association lists in the order of first insertion.
use sugi.Base.{
  ◌≡◌, ◌≢◌, refl, inl, inr, Bool-cases, Option, none, some, List, [], ◌∷◌, if◌then◌else◌, arith,
  All,
}
use sugi.Base.Text.{Text, text_eq, text_eq_iff}

module _ {ℓ} {V : Type ℓ} where
  unfoldable pub lookup : Text → List (Text × V) → Option V
  lookup k [] = none
  lookup k ((j, v) ∷ m) = if text_eq j k then some v else lookup k m

  unfoldable pub insert : Text → V → List (Text × V) → List (Text × V)
  insert k v [] = (k, v) ∷ []
  insert k v ((j, w) ∷ m) = if text_eq j k then (k, v) ∷ m else (j, w) ∷ insert k v m

  -- `m[k]` with the zero value for a missing key.
  abbrev pub value_or : V → Option V → V
  value_or d none = d
  value_or d (some v) = v

  pub lookup-insert :
      (k j : Text) (v : V) (m : List (Text × V))
      → lookup j (insert k v m) ≡ (if text_eq k j then some v else lookup j m)
  unfolding lookup insert
  lookup-insert k j v [] = refl
  lookup-insert k j v ((i, w) ∷ m) =
      ground (arith, text_eq_iff k j, text_eq_iff i k, text_eq_iff i j, lookup-insert k j v m)

  -- What holds of every entry holds after an insertion of such an entry.
  pub All-insert {κ} :
      (P : Text × V → Type κ) (k : Text) (v : V) (m : List (Text × V))
      → P (k, v)
      → All P m
      → All P (insert k v m)
  unfolding insert
  All-insert P k v [] p h = (p, tt)
  All-insert P k v ((j, w) ∷ m) p h = elim (Bool-cases (text_eq j k)) [
    | inl e ↦ rw e (p, h.1)
    | inr e ↦ rw e (h.0, All-insert P k v m p h.1)
  ]

  pub insert-ne-nil : (k : Text) (v : V) (m : List (Text × V)) → insert k v m ≢ []
  unfolding insert
  insert-ne-nil k v [] = λ e. cc
  insert-ne-nil k v ((j, w) ∷ m) = ground arith
