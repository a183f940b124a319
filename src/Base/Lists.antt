-- ===== src/Base/Lists.antt =====
-- Lists measured, cut and indexed by native numbers, under the library's names.
use Prim.Native.Nat.{ℕ, zero, suc, ◌+◌, ◌-◌, ◌≤◌, ◌<◌, min}
use mathlib.Core.Path.{◌≡◌, refl, ap, subst, ◌∙◌}
use mathlib.Core.List.{List, [], ◌∷◌, ◌++◌, map}
use mathlib.Core.Option.{Option, none, some, some-injective}
use native.Mathlib.Omega.{arith}

module _ {ℓ} {A : Type ℓ} where
  abbrev pub length : List A → ℕ
  length [] = 0
  length (x ∷ xs) = suc (length xs)

  abbrev pub get_elem? : List A → ℕ → Option A
  get_elem? [] i = none
  get_elem? (x ∷ xs) zero = some x
  get_elem? (x ∷ xs) (suc i) = get_elem? xs i

  abbrev pub get_or : List A → ℕ → A → A
  get_or [] i d = d
  get_or (x ∷ xs) zero d = x
  get_or (x ∷ xs) (suc i) d = get_or xs i d

  -- A write out of bounds changes nothing.
  abbrev pub set : List A → ℕ → A → List A
  set [] i v = []
  set (x ∷ xs) zero v = v ∷ xs
  set (x ∷ xs) (suc i) v = x ∷ set xs i v

  abbrev pub take : ℕ → List A → List A
  take zero xs = []
  take (suc n) [] = []
  take (suc n) (x ∷ xs) = x ∷ take n xs

  abbrev pub drop : ℕ → List A → List A
  drop zero xs = xs
  drop (suc n) [] = []
  drop (suc n) (x ∷ xs) = drop n xs

  abbrev pub replicate : ℕ → A → List A
  replicate zero a = []
  replicate (suc n) a = a ∷ replicate n a

  -- The last `n` elements, or all of them.
  abbrev pub take_last : ℕ → List A → List A
  take_last n xs = drop (length xs - n) xs

  -- Every element has the property.
  abbrev pub All {κ} : (A → Type κ) → List A → Type κ
  All P [] = Unit
  All P (x ∷ xs) = P x × All P xs

module _ {ℓ} {A : Type ℓ} where
  pub length-append : (xs ys : List A) → length (xs ++ ys) ≡ length xs + length ys
  length-append [] ys = omega arith
  length-append (x ∷ xs) ys = omega (arith, length-append xs ys)

  pub length-set : (xs : List A) (i : ℕ) (v : A) → length (set xs i v) ≡ length xs
  length-set [] i v = refl
  length-set (x ∷ xs) zero v = refl
  length-set (x ∷ xs) (suc i) v = ap suc (length-set xs i v)

  pub length-take : (n : ℕ) (xs : List A) → length (take n xs) ≡ min n (length xs)
  length-take zero xs = omega arith
  length-take (suc n) [] = omega arith
  length-take (suc n) (x ∷ xs) = omega (arith, length-take n xs)

  pub length-drop : (n : ℕ) (xs : List A) → length (drop n xs) ≡ length xs - n
  length-drop zero xs = omega arith
  length-drop (suc n) [] = omega arith
  length-drop (suc n) (x ∷ xs) = omega (arith, length-drop n xs)

  pub length-replicate : (n : ℕ) (a : A) → length (replicate n a) ≡ n
  length-replicate zero a = refl
  length-replicate (suc n) a = ap suc (length-replicate n a)

  pub length-map {κ} : {B : Type κ} (xs : List A) (f : A → B) → length (map f xs) ≡ length xs
  length-map [] f = refl
  length-map (x ∷ xs) f = ap suc (length-map xs f)

  pub take-append-drop : (n : ℕ) (xs : List A) → take n xs ++ drop n xs ≡ xs
  take-append-drop zero xs = refl
  take-append-drop (suc n) [] = refl
  take-append-drop (suc n) (x ∷ xs) = ap (◌∷◌ x) (take-append-drop n xs)

  pub take_all : (n : ℕ) (xs : List A) → length xs ≤ n → take n xs ≡ xs
  take_all zero [] h = refl
  take_all zero (x ∷ xs) h = absurd (omega arith)
  take_all (suc n) [] h = refl
  take_all (suc n) (x ∷ xs) h = ap (◌∷◌ x) (take_all n xs (omega arith))

  pub drop_all : (n : ℕ) (xs : List A) → length xs ≤ n → drop n xs ≡ []
  drop_all zero [] h = refl
  drop_all zero (x ∷ xs) h = absurd (omega arith)
  drop_all (suc n) [] h = refl
  drop_all (suc n) (x ∷ xs) h = drop_all n xs (omega arith)

  pub take_append : (xs ys : List A) → take (length xs) (xs ++ ys) ≡ xs
  take_append [] ys = refl
  take_append (x ∷ xs) ys = ap (◌∷◌ x) (take_append xs ys)

  pub drop_append : (xs ys : List A) → drop (length xs) (xs ++ ys) ≡ ys
  drop_append [] ys = refl
  drop_append (x ∷ xs) ys = drop_append xs ys

  -- A cut inside the first of two lists leaves the second whole.
  pub drop-append_left :
      (n : ℕ) (xs ys : List A) → n ≤ length xs → drop n (xs ++ ys) ≡ drop n xs ++ ys
  drop-append_left zero xs ys h = refl
  drop-append_left (suc n) [] ys h = absurd (omega arith)
  drop-append_left (suc n) (x ∷ xs) ys h = drop-append_left n xs ys (omega arith)

  -- A cut at or behind the end of the first list falls into the second.
  pub drop-append_right :
      (n : ℕ) (xs ys : List A) → length xs ≤ n → drop n (xs ++ ys) ≡ drop (n - length xs) ys
  drop-append_right n [] ys h = ap (λ k. drop k ys) (omega arith)
  drop-append_right zero (x ∷ xs) ys h = absurd (omega arith)
  drop-append_right (suc n) (x ∷ xs) ys h =
      rw (drop-append_right n xs ys (omega arith)) (ap (λ k. drop k ys) (omega arith))

  take_nil : (n : ℕ) → [] ≡ take {A = A} n []
  take_nil zero = refl
  take_nil (suc n) = refl

  drop_nil : (n : ℕ) → drop {A = A} n [] ≡ []
  drop_nil zero = refl
  drop_nil (suc n) = refl

  pub drop-drop : (m n : ℕ) (xs : List A) → drop m (drop n xs) ≡ drop (n + m) xs
  drop-drop m zero xs = ap (λ k. drop k xs) (omega arith)
  drop-drop m (suc n) [] = rw (drop_nil m, drop_nil (suc n + m))
  drop-drop m (suc n) (x ∷ xs) =
      drop-drop m n xs
      ∙ ap (λ k. drop k (x ∷ xs)) (let e : suc (n + m) ≡ suc n + m = omega arith in e)

  pub All-append {κ} : (P : A → Type κ) (xs ys : List A) → All P xs → All P ys → All P (xs ++ ys)
  All-append P [] ys hx hy = hy
  All-append P (x ∷ xs) ys hx hy = (hx.0, All-append P xs ys hx.1 hy)

  pub take-suc-set :
      (xs : List A) (i : ℕ) (v : A)
      → suc i ≤ length xs
      → take (suc i) (set xs i v) ≡ take i xs ++ v ∷ []
  take-suc-set [] i v h = absurd (omega arith)
  take-suc-set (x ∷ xs) zero v h = refl
  take-suc-set (x ∷ xs) (suc i) v h = ap (◌∷◌ x) (take-suc-set xs i v (omega arith))

  pub drop-suc-set : (xs : List A) (i : ℕ) (v : A) → drop (suc i) (set xs i v) ≡ drop (suc i) xs
  drop-suc-set [] i v = refl
  drop-suc-set (x ∷ xs) zero v = refl
  drop-suc-set (x ∷ xs) (suc i) v = drop-suc-set xs i v

  pub drop_cons :
      (xs : List A) (i : ℕ) (d : A)
      → suc i ≤ length xs
      → drop i xs ≡ get_or xs i d ∷ drop (suc i) xs
  drop_cons [] i d h = absurd (omega arith)
  drop_cons (x ∷ xs) zero d h = refl
  drop_cons (x ∷ xs) (suc i) d h = drop_cons xs i d (omega arith)

  pub take_snoc :
      (xs : List A) (i : ℕ) (d : A)
      → suc i ≤ length xs
      → take (suc i) xs ≡ take i xs ++ get_or xs i d ∷ []
  take_snoc [] i d h = absurd (omega arith)
  take_snoc (x ∷ xs) zero d h = refl
  take_snoc (x ∷ xs) (suc i) d h = ap (◌∷◌ x) (take_snoc xs i d (omega arith))

  pub drop-take : (k n : ℕ) (xs : List A) → drop k (take (k + n) xs) ≡ take n (drop k xs)
  drop-take zero n xs = ap (λ m. take m xs) (let e : zero + n ≡ n = omega arith in e)
  drop-take (suc k) n [] = rw (let e : suc k + n ≡ suc (k + n) = omega arith in e) (take_nil n)
  drop-take (suc k) n (x ∷ xs) =
      rw (let e : suc k + n ≡ suc (k + n) = omega arith in e) (drop-take k n xs)

  pub take_last_all : (n : ℕ) (xs : List A) → length xs ≤ n → take_last n xs ≡ xs
  take_last_all n xs h = rw (let e : length xs - n ≡ 0 = omega arith in e)

  -- Of one element more than is kept, the first is dropped.
  pub take_last_snoc :
      (n : ℕ) (xs : List A) (x : A)
      → length xs ≡ n
      → 0 < n
      → take_last n (xs ++ x ∷ []) ≡ drop 1 xs ++ x ∷ []
  take_last_snoc n xs x e h =
      rw (let k : length (xs ++ x ∷ []) - n ≡ 1 = omega (arith, length-append xs (x ∷ [])) in k)
        (drop-append_left 1 xs (x ∷ []) (omega arith))

  -- Keeping the last `n` at each step or once at the end is the same.
  pub take_last-take_last :
      (n : ℕ) (xs ys : List A) → take_last n (take_last n xs ++ ys) ≡ take_last n (xs ++ ys)
  take_last-take_last n xs ys =
      rw (← drop-append_left (length xs - n) xs ys (omega arith), drop-drop)
        (rw (
          let e : length xs - n + (length (drop (length xs - n) (xs ++ ys)) - n)
              ≡ length (xs ++ ys) - n =
            omega (arith, length-drop (length xs - n) (xs ++ ys), length-append xs ys) in
          e))

  pub take_pred :
      (xs : List A) (n : ℕ) (d : A)
      → 0 < n
      → n ≤ length xs
      → take n xs ≡ take (n - 1) xs ++ get_or xs (n - 1) d ∷ []
  take_pred xs zero d h k = absurd (omega arith)
  take_pred xs (suc n) d h k = rw (let e : suc n - 1 ≡ n = omega arith in e) (take_snoc xs n d k)

  pub take_last_none : (n : ℕ) (xs : List A) → length xs ≡ 0 → take_last n xs ≡ []
  take_last_none n xs h = drop_all (length xs - n) xs (omega arith)

none_ne_some {ℓ} : {A : Type ℓ} {a : A} → none ≡ some a → ⊥
none_ne_some e = cc

module _ {ℓ κ} {A : Type ℓ} (P : A → Type κ) where
  pub All-get_elem? : (xs : List A) (i : ℕ) {a : A} → All P xs → get_elem? xs i ≡ some a → P a
  All-get_elem? [] i h e = absurd (none_ne_some e)
  All-get_elem? (x ∷ xs) zero h e = subst P (some-injective x _ e) h.0
  All-get_elem? (x ∷ xs) (suc i) h e = All-get_elem? xs i h.1 e

  pub All-set : (xs : List A) (i : ℕ) (v : A) → All P xs → P v → All P (set xs i v)
  All-set [] i v h p = tt
  All-set (x ∷ xs) zero v h p = (p, h.1)
  All-set (x ∷ xs) (suc i) v h p = (h.0, All-set xs i v h.1 p)

  pub All-map {μ} :
      {B : Type μ} (Q : B → Type κ) (g : A → B)
      → ((a : A) → P a → Q (g a))
      → (xs : List A) → All P xs
      → All Q (map g xs)
  All-map Q g keep [] h = tt
  All-map Q g keep (x ∷ xs) h = (keep x h.0, All-map Q g keep xs h.1)
