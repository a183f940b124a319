-- ===== src/Storage/Ring/Inv.antt =====
-- The representation invariant of the ring buffer of internal/storage/ringbuffer.go.
use sugi.Base.{◌+◌, ◌≤◌, ◌<◌, ◌≡◌, arith, length, length-set, length-replicate, mod_below, mod_once}
use sugi.Base.Int.{ℤ, pos, negsuc}
use sugi.Storage.Ring.{RingBuffer, new_ring_buffer, push, clear, default_capacity}

-- The slots fill from index 0, and the head comes back to 0 only when all are used.
pub record IsValid {ℓ} {A : Type ℓ} (r : RingBuffer A) : Type 0 where
  pub slots_len : length r.slots ≡ r.capacity
  pub nonempty : 0 < r.capacity
  pub head_in : r.head < r.capacity
  pub size_le : r.size ≤ r.capacity
  pub filling : r.size < r.capacity → r.head ≡ r.size

module _ {ℓ} {A : Type ℓ} where
  pub new_ring_buffer-IsValid : (empty : A) (c : ℤ) → IsValid (new_ring_buffer empty c)
  unfolding new_ring_buffer
  new_ring_buffer-IsValid empty (pos n) =
      ground (arith, length-replicate n empty, length-replicate default_capacity empty)
  new_ring_buffer-IsValid empty (negsuc n) = ground (arith, length-replicate default_capacity empty)

  pub push-IsValid : {r : RingBuffer A} (x : A) → IsValid r → IsValid (push r x)
  unfolding push
  push-IsValid {r} x v = ground (
    arith,
    length-set r.slots r.head x,
    mod_below (r.head + 1) r.capacity,
    mod_once (r.head + 1) r.capacity,
  )

  pub clear-IsValid : {r : RingBuffer A} → IsValid r → IsValid (clear r)
  unfolding clear
  clear-IsValid v = ground arith
