-- ===== src/Storage/Ring/Latest.antt =====
-- `GetLatest` of internal/storage/ringbuffer.go: the newest snapshot.
use sugi.Base.{
  ◌+◌, ◌-◌, ◌%◌, ◌<◌, ◌≡◌, sym, ap, ◌∙◌, ◌⊎◌, inl, inr, Bool, true, false, arith, List, [], ◌∷◌,
  ◌++◌, append-nil, append_assoc, lt_or_le, mod_below, mod_once, get_or, take, drop, ◌==◌, take_all,
  take_pred,
}
use sugi.Storage.Ring.{RingBuffer, get_latest, get_all}
use sugi.Storage.Ring.Inv.{IsValid}
use sugi.Storage.Ring.Refine.{contents, contents_filling, contents_full, get_all-contents}

module _ {ℓ} {A : Type ℓ} (empty : A) where
  -- The slot before the head holds the newest snapshot.
  newest :
      {r : RingBuffer A}
      → IsValid r
      → 0 < r.size
      → (older : List A) × (contents r
          ≡ older ++ get_or r.slots ((r.head + r.capacity - 1) % r.capacity) empty ∷ [])
  newest {r} v h = elim (lt_or_le r.size r.capacity) [
    | inl p ↦ (
      take (r.size - 1) r.slots,
      rw
          (
            contents_filling r p,
            (let i : (r.head + r.capacity - 1) % r.capacity ≡ r.size - 1 =
                  mod_once (r.head + r.capacity - 1) r.capacity (omega (arith, v))
                    (omega (arith, v))
                  ∙ omega (arith, v) in
                i),
          )
          (take_pred r.slots r.size empty h (omega (arith, v))),
    )
    | inr p ↦ elim (lt_or_le 0 r.head) [
      | inl q ↦ (
        drop r.head r.slots ++ take (r.head - 1) r.slots,
        rw
            (
              contents_full r p,
              (let i : (r.head + r.capacity - 1) % r.capacity ≡ r.head - 1 =
                    mod_once (r.head + r.capacity - 1) r.capacity (omega (arith, v))
                      (omega (arith, v))
                    ∙ omega (arith, v) in
                  i),
              append_assoc,
            )
            (ap (◌++◌ (drop r.head r.slots)) (take_pred r.slots r.head empty q (omega (arith, v)))),
      )
      | inr q ↦ (
        take (r.capacity - 1) r.slots,
        rw
            (
              contents_full r p,
              (let z : r.head ≡ 0 = omega arith in z),
              append-nil,
              (let i : (0 + r.capacity - 1) % r.capacity ≡ r.capacity - 1 =
                    mod_below (0 + r.capacity - 1) r.capacity (omega (arith, v))
                    ∙ omega (arith, v) in
                  i),
            )
            (sym (take_all r.capacity r.slots (omega (arith, v)))
              ∙ take_pred r.slots r.capacity empty v.nonempty (omega (arith, v))),
      )
    ]
  ]

  -- What `GetLatest` returns for the snapshots that are stored.
  abbrev pub Latest : List A → A × Bool → Type ℓ
  Latest xs result =
      ((xs ≡ []) × (result ≡ (empty, false)))
      ⊎ ((older : List A) × (x : A) × (xs ≡ older ++ x ∷ []) × (result ≡ (x, true)))

  -- `GetLatest` returns the last stored snapshot, or the zero snapshot and false if there is none.
  pub get_latest-Latest :
      {r : RingBuffer A} → IsValid r → Latest (get_all empty r) (get_latest empty r)
  unfolding get_latest
  get_latest-Latest {r} v = rw (get_all-contents empty v) (elim (lt_or_le 0 r.size) [
    | inl p ↦
        let (older, e) = newest v p in
        inr (
          older,
          get_or r.slots ((r.head + r.capacity - 1) % r.capacity) empty,
          e,
          rw (let z : (r.size == 0) ≡ false = ground arith in z),
        )
    | inr p ↦ inl (
      rw (contents_filling r (omega (arith, v)), (let z : r.size ≡ 0 = omega arith in z)),
      rw (let z : (r.size == 0) ≡ true = ground arith in z),
    )
  ])
