-- ===== src/Storage/Ring.antt =====
-- internal/storage/ringbuffer.go. The buffer is generic in the snapshot, whose zero value `make`
-- fills the storage with. Each method is one critical section under the buffer's lock, so it is a
-- function from the state before to the state after. `data` is called `slots` here.
pub mod Inv
pub mod Refine
pub mod Latest
pub mod Recent
pub mod History
mod Tests
use sugi.Base.{
  ℕ, ◌+◌, ◌-◌, ◌%◌, ◌≤◌, Bool, true, false, ◌||◌, Option, none, some, List, [], ◌∷◌, ◌++◌,
  if◌then◌else◌, ltb, leb, ◌==◌, get_or, set, take, drop, replicate,
}
use sugi.Base.Int.{ℤ, pos, negsuc, pos_part, le_zero}

pub record RingBuffer {ℓ} (A : Type ℓ) : Type ℓ where
  pub slots : List A
  pub capacity : ℕ
  pub head : ℕ
  pub size : ℕ

abbrev pub default_capacity : ℕ
default_capacity = 3600

module _ {ℓ} {A : Type ℓ} where
  -- Go's `copy(dst, src)`: the shorter of the two decides how much is written.
  abbrev pub copy : List A → List A → List A
  copy [] src = []
  copy (d ∷ ds) [] = d ∷ ds
  copy (d ∷ ds) (s ∷ ss) = s ∷ copy ds ss

  -- `copy(dst[:k], src)` and `copy(dst[k:], src)`.
  abbrev pub copy_front : List A → ℕ → List A → List A
  copy_front dst k src = copy (take k dst) src ++ drop k dst

  abbrev pub copy_back : List A → ℕ → List A → List A
  copy_back dst k src = take k dst ++ copy (drop k dst) src

  unfoldable pub push : RingBuffer A → A → RingBuffer A
  push r snapshot = record r {
    slots = set r.slots r.head snapshot;
    head = (r.head + 1) % r.capacity;
    size = if ltb r.size r.capacity then r.size + 1 else r.size;
  }

  unfoldable pub get_size : RingBuffer A → ℕ
  get_size r = r.size

  unfoldable pub get_capacity : RingBuffer A → ℕ
  get_capacity r = r.capacity

  -- The slots keep their old values.
  unfoldable pub clear : RingBuffer A → RingBuffer A
  clear r = record r { head = 0; size = 0 }

-- The remaining methods make zero snapshots.
module _ {ℓ} {A : Type ℓ} (empty : A) where
  unfoldable pub new_ring_buffer : ℤ → RingBuffer A
  new_ring_buffer capacity =
      let c = if le_zero capacity then default_capacity else pos_part capacity in
      record { slots = replicate c empty; capacity = c; head = 0; size = 0 }

  -- `head - 1` is an `int` and may be -1; `capacity` is added before the remainder is taken.
  unfoldable pub get_latest : RingBuffer A → A × Bool
  get_latest r =
      if r.size == 0
      then (empty, false)
      else (get_or r.slots ((r.head + r.capacity - 1) % r.capacity) empty, true)

  unfoldable pub get_all : RingBuffer A → List A
  get_all r =
      if r.size == 0
      then []
      else let result = replicate r.size empty in
        if ltb r.size r.capacity
        then copy result (take r.size r.slots)
        else let first_chunk = r.capacity - r.head in
          copy_back (copy_front result first_chunk (drop r.head r.slots)) first_chunk
            (take r.head r.slots)

  -- The body of `GetLastN` behind its guards: `n` lies in 1..size.
  last_n : RingBuffer A → ℕ → List A
  last_n r n =
      let result = replicate n empty in
      let start_idx = (r.head + r.capacity - n) % r.capacity in
      if leb (start_idx + n) r.capacity
      then copy result (take n (drop start_idx r.slots))
      else let first_chunk = r.capacity - start_idx in
        copy_back (copy_front result first_chunk (drop start_idx r.slots)) first_chunk
          (take (n - first_chunk) r.slots)

  unfoldable pub get_last_n : RingBuffer A → ℤ → List A
  unfolding last_n
  get_last_n r n =
      if r.size == 0 || le_zero n
      then []
      else last_n r (if ltb r.size (pos_part n) then r.size else pos_part n)
