-- ===== src/Storage/Ring/Tests.antt =====
-- Runs of the ring buffer on small inputs, and the theorems at concrete buffers.
use sugi.Base.{ℕ, ◌≡◌, refl, List, [], ◌∷◌, take_last, arith}
use sugi.Base.Int.{pos, negsuc}
use sugi.Storage.Ring.{
  RingBuffer, new_ring_buffer, get_all, get_latest, get_last_n, get_capacity, default_capacity,
}
use sugi.Storage.Ring.Inv.{IsValid}
use sugi.Storage.Ring.Recent.{get_last_n-take_last}
use sugi.Storage.Ring.History.{Call, pushes, clears, run, pushed, get_all-run}

abbrev blank : ℕ
blank = 0

-- 3, 4 and 5 in three slots, the head at the second.
abbrev wrapped : RingBuffer ℕ
wrapped = record { slots = 5 ∷ 3 ∷ 4 ∷ []; capacity = 3; head = 1; size = 3 }

wrapped-IsValid : IsValid wrapped
wrapped-IsValid = omega arith

abbrev script : List (Call ℕ)
script = pushes 9 ∷ clears ∷ pushes 1 ∷ pushes 2 ∷ pushes 3 ∷ pushes 4 ∷ []

get_all_runs : get_all 0 (run (new_ring_buffer blank (pos 3)) script) ≡ 2 ∷ 3 ∷ 4 ∷ []
unfolding get_all run new_ring_buffer sugi.Storage.Ring.push sugi.Storage.Ring.clear
get_all_runs = refl

get_last_two : get_last_n 0 wrapped (pos 2) ≡ 4 ∷ 5 ∷ []
unfolding get_last_n
get_last_two = refl

no_capacity : get_capacity (new_ring_buffer blank (negsuc 0)) ≡ default_capacity
unfolding get_capacity new_ring_buffer
no_capacity = refl

get_all-run_example :
    get_all 0 (run (new_ring_buffer blank (pos 3)) script)
    ≡ take_last (get_capacity (new_ring_buffer blank (pos 3))) (pushed [] script)
get_all-run_example = get_all-run 0 (pos 3) script

get_last_n-take_last_example : get_last_n 0 wrapped (pos 2) ≡ take_last 2 (get_all 0 wrapped)
get_last_n-take_last_example = get_last_n-take_last 0 (pos 2) wrapped-IsValid
