-- ===== src/Storage/Ring/Refine.antt =====
-- The ring buffer of internal/storage/ringbuffer.go against the list of what was pushed.
use sugi.Base.{
  ◌==◌, ℕ, suc, ◌+◌, ◌-◌, ◌%◌, ◌≤◌, ◌<◌, ◌≡◌, refl, sym, ap, ◌∙◌, inl, inr, false, arith, List, [],
  ◌∷◌, ◌++◌, append-nil, append_assoc, Bool-cases, length, set, take, drop, replicate, take_last,
  if◌then◌else◌, ltb, lt→ltb, ltb-false, lt_or_le, mod_below, mod_once, length-append, length-set,
  length-take, length-drop, length-replicate, take_all, drop_all, take_last_all, take_last_snoc,
  take_append, drop_append, drop-append_left, drop-drop, take-suc-set, drop-suc-set,
}
use native.Mathlib.Numerals.{add-one}
use sugi.Storage.Ring.{RingBuffer, push, get_all, copy, copy_front, copy_back}
use sugi.Storage.Ring.Inv.{IsValid}

module _ {ℓ} {A : Type ℓ} where
  -- What `n` used slots hold, oldest first: in place until they fill, and from the head after that.
  abbrev pub window : List A → ℕ → ℕ → ℕ → List A
  window s c h n = if ltb n c then take n s else drop h s ++ take h s

  -- The stored snapshots, oldest first.
  abbrev pub contents : RingBuffer A → List A
  contents r = window r.slots r.capacity r.head r.size

  pub copy_same : (dst src : List A) → length dst ≡ length src → copy dst src ≡ src
  copy_same [] [] h = refl
  copy_same [] (s ∷ ss) h = absurd (omega arith)
  copy_same (d ∷ ds) [] h = absurd (omega arith)
  copy_same (d ∷ ds) (s ∷ ss) h = ap (◌∷◌ s) (copy_same ds ss (omega arith))

  -- Two copies that fill a slice leave the two sources one behind the other.
  pub copy_two :
      (dst xs ys : List A) (k : ℕ)
      → k ≡ length xs
      → length dst ≡ length xs + length ys
      → copy_back (copy_front dst k xs) k ys ≡ xs ++ ys
  copy_two dst xs ys k e h =
      rw (front, e, take_append xs (drop (length xs) dst), drop_append xs (drop (length xs) dst))
        (ap (◌++◌ xs)
          (copy_same (drop (length xs) dst) ys (omega (arith, length-drop (length xs) dst))))
    where
      front : copy_front dst k xs ≡ xs ++ drop (length xs) dst
      front = rw e (
          ap (λ t. t ++ drop (length xs) dst)
            (copy_same (take (length xs) dst) xs (omega (arith, length-take (length xs) dst))))

  pub contents_filling : (r : RingBuffer A) → r.size < r.capacity → contents r ≡ take r.size r.slots
  contents_filling r h = rw (lt→ltb r.size r.capacity h)

  pub contents_full :
      (r : RingBuffer A)
      → r.capacity ≤ r.size
      → contents r ≡ drop r.head r.slots ++ take r.head r.slots
  contents_full r h = rw (ltb-false r.size r.capacity h)

  pub length-contents : {r : RingBuffer A} → IsValid r → length (contents r) ≡ r.size
  length-contents {r} v = elim (lt_or_le r.size r.capacity) [
    | inl p ↦ rw (contents_filling r p) (omega (arith, length-take r.size r.slots, v))
    | inr p ↦ rw (contents_full r p) (
        omega (
          arith,
          length-append (drop r.head r.slots) (take r.head r.slots),
          length-drop r.head r.slots,
          length-take r.head r.slots,
          v,
        ))
  ]

  -- Writing at the end of a part-filled buffer extends what it holds.
  window_fill :
      (s : List A) (c h n : ℕ) (x : A)
      → length s ≡ c
      → n < c
      → h ≡ n
      → window (set s h x) c ((h + 1) % c) (n + 1) ≡ take n s ++ x ∷ []
  window_fill s c h n x e lt same =
      rw (same, ← take-suc-set s n x (omega arith))
        (elim (lt_or_le (n + 1) c) [
          | inl p ↦ rw (lt→ltb (n + 1) c p) (rw add-one)
          | inr p ↦
              rw
                (
                  ltb-false (n + 1) c p,
                  mod_once (n + 1) c p (omega arith),
                  (let q : n + 1 - c ≡ 0 = omega arith in q),
                  append-nil,
                )
                (sym (take_all (suc n) (set s n x) (omega (arith, length-set s n x))))
        ])

  -- Writing over the oldest snapshot of a full buffer moves its place to the end.
  window_over :
      (s : List A) (c h : ℕ) (x : A)
      → length s ≡ c
      → h < c
      → window (set s h x) c ((h + 1) % c) c ≡ drop (suc h) s ++ (take h s ++ x ∷ [])
  window_over s c h x e p =
      rw (← take-suc-set s h x (omega arith), ← drop-suc-set s h x, ltb-false c c (omega arith))
        (elim (lt_or_le (h + 1) c) [
          | inl q ↦ rw (mod_below (h + 1) c q, (let k : h + 1 ≡ suc h = omega arith in k))
          | inr q ↦
              rw
                (
                  mod_once (h + 1) c q (omega arith),
                  (let k : h + 1 - c ≡ 0 = omega arith in k),
                  append-nil,
                  drop_all (suc h) (set s h x) (omega (arith, length-set s h x)),
                )
                (sym (take_all (suc h) (set s h x) (omega (arith, length-set s h x))))
        ])

  -- A push appends, and drops the oldest snapshot when the buffer is full.
  pub contents-push :
      {r : RingBuffer A} (x : A)
      → IsValid r
      → contents (push r x) ≡ take_last r.capacity (contents r ++ x ∷ [])
  unfolding push
  contents-push {r} x v = elim (lt_or_le r.size r.capacity) [
    | inl p ↦ rw (lt→ltb r.size r.capacity p) (
        window_fill r.slots r.capacity r.head r.size x v.slots_len p (v.filling p)
        ∙ sym (
            take_last_all r.capacity (take r.size r.slots ++ x ∷ []) (
              omega
                (arith, length-append (take r.size r.slots) (x ∷ []), length-take r.size r.slots))))
    | inr p ↦ rw (ltb-false r.size r.capacity p) (
        over r.size (omega (arith, v))
        ∙ rw (
          take_last_snoc r.capacity (drop r.head r.slots ++ take r.head r.slots) x
              (omega (
                arith,
                length-append (drop r.head r.slots) (take r.head r.slots),
                length-drop r.head r.slots,
                length-take r.head r.slots,
                v,
              ))
              v.nonempty,
          drop-append_left 1 (drop r.head r.slots) (take r.head r.slots)
              (omega (arith, length-drop r.head r.slots, v)),
          drop-drop 1 r.head r.slots,
          add-one,
          append_assoc,
        ))
  ]
    where
      over :
          (n : ℕ)
          → n ≡ r.capacity
          → window (set r.slots r.head x) r.capacity ((r.head + 1) % r.capacity) n
            ≡ drop (suc r.head) r.slots ++ (take r.head r.slots ++ x ∷ [])
      over n e = rw e (window_over r.slots r.capacity r.head x v.slots_len v.head_in)

  -- `GetAll` returns the stored snapshots, oldest first.
  pub get_all-contents : (empty : A) {r : RingBuffer A} → IsValid r → get_all empty r ≡ contents r
  unfolding get_all
  get_all-contents empty {r} v = elim (lt_or_le r.size r.capacity) [
    | inl p ↦ rw (lt→ltb r.size r.capacity p) (elim (Bool-cases (r.size == 0)) [
      | inl z ↦ rw z (rw (let e : r.size ≡ 0 = ground arith in e))
      | inr z ↦ rw z (
          copy_same (replicate r.size empty) (take r.size r.slots)
            (omega (arith, length-replicate r.size empty, length-take r.size r.slots, v)))
    ])
    | inr p ↦
        rw (ltb-false r.size r.capacity p, (let z : (r.size == 0) ≡ false = ground arith in z))
          (copy_two (replicate r.size empty) (drop r.head r.slots) (take r.head r.slots)
            (r.capacity - r.head) (omega (arith, length-drop r.head r.slots, v))
            (omega (
              arith,
              length-replicate r.size empty,
              length-drop r.head r.slots,
              length-take r.head r.slots,
              v,
            )))
  ]
