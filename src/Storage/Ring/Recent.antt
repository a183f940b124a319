-- ===== src/Storage/Ring/Recent.antt =====
-- `GetLastN` of internal/storage/ringbuffer.go: the newest snapshots.
use sugi.Base.{
  ℕ, ◌+◌, ◌-◌, ◌%◌, ◌≤◌, ◌<◌, ◌≡◌, sym, ap, ◌∙◌, inl, inr, true, false, arith, [], ◌++◌, append-nil,
  lt_or_le, mod_below, mod_once, length, take, drop, replicate, take_last, ltb, ◌==◌, leb-true,
  leb-false, ltb-false, lt→ltb, length-append, length-take, length-drop, length-replicate, take_all,
  take_last_all, take_last_none, drop_all, drop-append_left, drop-append_right, drop-drop,
  drop-take, if◌then◌else◌,
}
use sugi.Base.Int.{ℤ, pos, negsuc, pos_part, le_zero}
use sugi.Storage.Ring.{RingBuffer, get_last_n, last_n, get_all}
use sugi.Storage.Ring.Inv.{IsValid}
use sugi.Storage.Ring.Refine.{
  contents, contents_filling, contents_full, length-contents, copy_same, copy_two, get_all-contents,
}

module _ {ℓ} {A : Type ℓ} (empty : A) where
  -- One copy, when the snapshots asked for lie in one piece.
  last_n_piece :
      (r : RingBuffer A) (n start : ℕ)
      → (r.head + r.capacity - n) % r.capacity ≡ start
      → start + n ≤ r.capacity
      → length r.slots ≡ r.capacity
      → last_n empty r n ≡ take n (drop start r.slots)
  unfolding last_n
  last_n_piece r n start e h len =
      rw (e, leb-true (start + n) r.capacity h)
        (copy_same (replicate n empty) (take n (drop start r.slots)) (
          omega (
            arith,
            length-replicate n empty,
            length-take n (drop start r.slots),
            length-drop start r.slots,
          )))

  -- Two copies, when they go round the end of the storage.
  last_n_wrapped :
      (r : RingBuffer A) (n start : ℕ)
      → (r.head + r.capacity - n) % r.capacity ≡ start
      → r.capacity < start + n
      → start < r.capacity
      → n ≤ r.capacity
      → length r.slots ≡ r.capacity
      → last_n empty r n ≡ drop start r.slots ++ take (n - (r.capacity - start)) r.slots
  unfolding last_n
  last_n_wrapped r n start e h lt le len =
      rw (e, leb-false (start + n) r.capacity h)
        (copy_two (replicate n empty) (drop start r.slots) (take (n - (r.capacity - start)) r.slots)
          (r.capacity - start) (omega (arith, length-drop start r.slots))
          (omega (
            arith,
            length-replicate n empty,
            length-drop start r.slots,
            length-take (n - (r.capacity - start)) r.slots,
          )))

  last_n-filling :
      {r : RingBuffer A} (n : ℕ)
      → IsValid r
      → r.size < r.capacity
      → 0 < n
      → n ≤ r.size
      → last_n empty r n ≡ take_last n (contents r)
  last_n-filling {r} n v p h k =
      rw
        (
          last_n_piece r n (r.size - n)
              (mod_once (r.head + r.capacity - n) r.capacity (omega (arith, v)) (omega (arith, v))
                ∙ omega (arith, v))
              (omega (arith, v)) v.slots_len,
          contents_filling r p,
          (let e : length (take r.size r.slots) - n ≡ r.size - n =
                omega (arith, length-take r.size r.slots, v) in
              e),
        )
        (sym (drop-take (r.size - n) n r.slots)
          ∙ ap (λ j. drop (r.size - n) (take j r.slots)) {x = r.size - n + n} {y = r.size}
              (omega arith))

  last_n-full :
      {r : RingBuffer A} (n : ℕ)
      → IsValid r
      → r.capacity ≤ r.size
      → 0 < n
      → n ≤ r.size
      → last_n empty r n ≡ take_last n (contents r)
  last_n-full {r} n v p h k =
      rw
        (
          contents_full r p,
          (let e : length (drop r.head r.slots ++ take r.head r.slots) - n ≡ r.capacity - n =
                omega (
                  arith,
                  length-append (drop r.head r.slots) (take r.head r.slots),
                  length-drop r.head r.slots,
                  length-take r.head r.slots,
                  v,
                ) in
              e),
        )
        (elim (lt_or_le r.head n) [
          | inl q ↦ elim (lt_or_le 0 r.head) [
            | inl z ↦ rw (
              last_n_wrapped r n (r.head + (r.capacity - n))
                  (mod_below (r.head + r.capacity - n) r.capacity (omega (arith, v))
                    ∙ omega (arith, v))
                  (omega (arith, v)) (omega (arith, v)) (omega (arith, v)) v.slots_len,
              (let e : n - (r.capacity - (r.head + (r.capacity - n))) ≡ r.head = omega (arith, v) in
                  e),
              drop-append_left (r.capacity - n) (drop r.head r.slots) (take r.head r.slots)
                  (omega (arith, length-drop r.head r.slots, v)),
              drop-drop (r.capacity - n) r.head r.slots,
            )
            | inr z ↦
                rw
                  (
                    last_n_piece r n (r.capacity - n)
                        (mod_below (r.head + r.capacity - n) r.capacity (omega (arith, v))
                          ∙ omega (arith, v))
                        (omega (arith, v)) v.slots_len,
                    (let e : r.head ≡ 0 = omega arith in e),
                    append-nil,
                  )
                  (take_all n (drop (r.capacity - n) r.slots)
                    (omega (arith, length-drop (r.capacity - n) r.slots, v)))
          ]
          | inr q ↦
              rw
                (
                  last_n_piece r n (r.head - n)
                      (mod_once (r.head + r.capacity - n) r.capacity (omega (arith, v))
                          (omega (arith, v))
                        ∙ omega (arith, v))
                      (omega (arith, v)) v.slots_len,
                  drop-append_right (r.capacity - n) (drop r.head r.slots) (take r.head r.slots)
                      (omega (arith, length-drop r.head r.slots, v)),
                  (let e : r.capacity - n - length (drop r.head r.slots) ≡ r.head - n =
                        omega (arith, length-drop r.head r.slots, v) in
                      e),
                )
                (sym (drop-take (r.head - n) n r.slots)
                  ∙ ap (λ j. drop (r.head - n) (take j r.slots)) {x = r.head - n + n} {y = r.head}
                      (omega arith))
        ])

  last_n-contents :
      {r : RingBuffer A} (n : ℕ)
      → IsValid r
      → 0 < n
      → n ≤ r.size
      → last_n empty r n ≡ take_last n (contents r)
  last_n-contents {r} n v h k = elim (lt_or_le r.size r.capacity) [
    | inl p ↦ last_n-filling n v p h k
    | inr p ↦ last_n-full n v p h k
  ]

  -- `GetLastN` clamps its argument, so that a count beyond the size asks for everything.
  last_n_clamped :
      {r : RingBuffer A} (n : ℕ)
      → IsValid r
      → 0 < n
      → 0 < r.size
      → last_n empty r (if ltb r.size n then r.size else n) ≡ take_last n (contents r)
  last_n_clamped {r} n v h k = elim (lt_or_le r.size n) [
    | inl p ↦ rw (lt→ltb r.size n p) (
        last_n-contents r.size v k (omega arith)
        ∙ take_last_all r.size (contents r) (omega (arith, length-contents v))
        ∙ sym (take_last_all n (contents r) (omega (arith, length-contents v))))
    | inr p ↦ rw (ltb-false r.size n p) (last_n-contents n v h p)
  ]

  -- Of an empty list nothing is returned, whatever the count.
  none_stored : {r : RingBuffer A} (n : ℕ) → IsValid r → r.size ≡ 0 → [] ≡ take_last n (contents r)
  none_stored {r} n v e = sym (take_last_none n (contents r) (omega (arith, length-contents v)))

  -- `GetLastN(n)` returns the last `n` of the stored snapshots in order, all of them if there are
  -- fewer, and none for a count of zero or below.
  pub get_last_n-take_last :
      {r : RingBuffer A} (n : ℤ)
      → IsValid r
      → get_last_n empty r n ≡ take_last (pos_part n) (get_all empty r)
  unfolding get_last_n
  get_last_n-take_last {r} n v = rw (get_all-contents empty v) (elim (lt_or_le 0 r.size) [
    | inl p ↦ rw (let z : (r.size == 0) ≡ false = ground arith in z) (nonempty n p)
    | inr p ↦
        rw (let z : (r.size == 0) ≡ true = ground arith in z)
          (none_stored (pos_part n) v (omega arith))
  ])
    where
      nonempty :
          (n : ℤ)
          → 0 < r.size
          → (if le_zero n
              then []
              else last_n empty r (if ltb r.size (pos_part n) then r.size else pos_part n))
            ≡ take_last (pos_part n) (contents r)
      nonempty (pos m) h = elim (lt_or_le 0 m) [
        | inl p ↦ rw (leb-false m 0 p) (last_n_clamped m v p h)
        | inr p ↦
            rw (leb-true m 0 p, (let e : m ≡ 0 = omega arith in e))
              (sym (drop_all (length (contents r) - 0) (contents r) (omega arith)))
      ]
      nonempty (negsuc m) h = sym (drop_all (length (contents r) - 0) (contents r) (omega arith))
