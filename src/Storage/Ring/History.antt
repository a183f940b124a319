-- ===== src/Storage/Ring/History.antt =====
-- Whole runs of the ring buffer of internal/storage/ringbuffer.go, from `NewRingBuffer` on.
use sugi.Base.{
  ◌≡◌, refl, sym, ◌∙◌, lt→ltb, take_last_none, List, [], ◌∷◌, ◌++◌, take_last, take_last-take_last,
}
use sugi.Base.Int.{ℤ}
use sugi.Storage.Ring.{RingBuffer, new_ring_buffer, push, clear, get_all, get_capacity}
use sugi.Storage.Ring.Inv.{IsValid, new_ring_buffer-IsValid, push-IsValid, clear-IsValid}
use sugi.Storage.Ring.Refine.{contents, contents-push, get_all-contents}

-- The calls that change a buffer.
pub data Call {ℓ} (A : Type ℓ) : Type ℓ where
  pushes : A → Call A
  clears : Call A

module _ {ℓ} {A : Type ℓ} where
  unfoldable pub run : RingBuffer A → List (Call A) → RingBuffer A
  run r [] = r
  run r (pushes x ∷ calls) = run (push r x) calls
  run r (clears ∷ calls) = run (clear r) calls

  -- The snapshots pushed after the last clear, behind those in `seen`.
  abbrev pub pushed : List A → List (Call A) → List A
  pushed seen [] = seen
  pushed seen (pushes x ∷ calls) = pushed (seen ++ x ∷ []) calls
  pushed seen (clears ∷ calls) = pushed [] calls

  pub run-IsValid : (calls : List (Call A)) {r : RingBuffer A} → IsValid r → IsValid (run r calls)
  unfolding run
  run-IsValid [] v = v
  run-IsValid (pushes x ∷ calls) {r} v = run-IsValid calls {r = push r x} (push-IsValid x v)
  run-IsValid (clears ∷ calls) {r} v = run-IsValid calls {r = clear r} (clear-IsValid v)

  contents-clear : {r : RingBuffer A} → IsValid r → contents (clear r) ≡ take_last r.capacity []
  unfolding clear
  contents-clear {r} v =
      rw (lt→ltb 0 r.capacity v.nonempty) (sym (take_last_none r.capacity [] refl))

  new_empty : (empty : A) (capacity : ℤ) → contents (new_ring_buffer empty capacity) ≡ []
  unfolding new_ring_buffer
  new_empty empty capacity = rw (lt→ltb 0 _ (new_ring_buffer-IsValid empty capacity).nonempty)

  contents-run :
      (calls : List (Call A)) {r : RingBuffer A} (seen : List A)
      → IsValid r
      → contents r ≡ take_last r.capacity seen
      → contents (run r calls) ≡ take_last r.capacity (pushed seen calls)
  unfolding run push clear
  contents-run [] seen v e = e
  contents-run (pushes x ∷ calls) {r} seen v e =
      contents-run calls {r = push r x} (seen ++ x ∷ []) (push-IsValid x v)
        (contents-push x v ∙ rw (e, take_last-take_last r.capacity seen (x ∷ [])))
  contents-run (clears ∷ calls) {r} seen v e =
      contents-run calls {r = clear r} [] (clear-IsValid v) (contents-clear v)

  -- A new buffer stores nothing.
  empty_start :
      (empty : A) (capacity : ℤ)
      → let r = new_ring_buffer empty capacity in contents r ≡ take_last r.capacity []
  empty_start empty capacity =
      let r = new_ring_buffer empty capacity in
      sym (take_last_none r.capacity [] refl ∙ sym (new_empty empty capacity))

  -- After any pushes and clears of a new buffer, `GetAll` returns the last `capacity` snapshots
  -- pushed since the last clear, oldest first.
  pub get_all-run :
      (empty : A) (capacity : ℤ) (calls : List (Call A))
      → let r = new_ring_buffer empty capacity in
        get_all empty (run r calls) ≡ take_last (get_capacity r) (pushed [] calls)
  unfolding get_capacity
  get_all-run empty capacity calls =
      get_all-contents empty (run-IsValid calls (new_ring_buffer-IsValid empty capacity))
      ∙ contents-run calls [] (new_ring_buffer-IsValid empty capacity) (empty_start empty capacity)
