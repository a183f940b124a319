-- ===== src/Api/Hub/Leak.antt =====
-- What becomes of the handlers of internal/api/sse.go when the hub is closed. `run` returns, and
-- the deferred send on `unregister` of every handler that is left has no receiver any more.
use sugi.Base.{
  ℕ, zero, suc, ◌≡◌, ◌≢◌, Bool-cases, inl, inr, false, arith, Option, none, some, List, [], ◌∷◌,
  ◌++◌, set,
}
use sugi.Base.Text.{Text}
use sugi.Api.Hub.{SseHub, Channel, Phase, publish, on_close}
use sugi.Api.Hub.Steps.{
  Step, Run, fresh, publishes, connects, registers, writes, fails_write, leaves, unregisters,
  delivers, beats, closes, halts, here, next,
}

-- Where the handler of a channel stands.
abbrev pub phase_at : List Channel → ℕ → Option Phase
phase_at [] i = none
phase_at (c ∷ cs) zero = some c.phase
phase_at (c ∷ cs) (suc i) = phase_at cs i

phase_at-set :
    (cs : List Channel) (j : ℕ) (c : Channel) (i : ℕ)
    → c.phase ≢ Phase.gone
    → phase_at (set cs j c) i ≡ some Phase.gone
    → phase_at cs i ≡ some Phase.gone
phase_at-set [] j c i ne h = h
phase_at-set (d ∷ cs) zero c zero ne h = absurd (ne (cc))
phase_at-set (d ∷ cs) zero c (suc i) ne h = h
phase_at-set (d ∷ cs) (suc j) c zero ne h = h
phase_at-set (d ∷ cs) (suc j) c (suc i) ne h = phase_at-set cs j c i ne h

phase_at-fresh :
    (cs : List Channel) (i : ℕ)
    → phase_at (cs ++ fresh ∷ []) i ≡ some Phase.gone
    → phase_at cs i ≡ some Phase.gone
phase_at-fresh [] zero h = cc
phase_at-fresh [] (suc i) h = h
phase_at-fresh (d ∷ cs) zero h = h
phase_at-fresh (d ∷ cs) (suc i) h = phase_at-fresh cs i h

-- One action after the stop.
abbrev Kept : SseHub → ℕ → Option SseHub → Type 0
Kept h i none = Unit
Kept h i (some h') =
    (h'.running ≡ false)
    × (phase_at h'.channels i ≡ some Phase.gone → phase_at h.channels i ≡ some Phase.gone)

publish-Kept :
    (h : SseHub) (i : ℕ) (msg : Text) → h.running ≡ false → Kept h i (some (publish msg h))
unfolding publish
publish-Kept h i msg e = ground arith

close-Kept : (h : SseHub) (i : ℕ) → h.running ≡ false → Kept h i (on_close h)
unfolding on_close
close-Kept h i e = elim (Bool-cases h.stopped) [
  | inl again ↦ rw again tt
  | inr first ↦ rw first (e, λ q. q)
]

Step-Kept : {h : SseHub} {r : Option SseHub} (i : ℕ) → Step h r → h.running ≡ false → Kept h i r
Step-Kept {h} i (publishes msg) e = publish-Kept h i msg e
Step-Kept {h} i connects e = (e, phase_at-fresh h.channels i)
Step-Kept {h} i (registers j c latest r at p) e = cc
Step-Kept {h} i (writes j c msg rest at p b) e = (e, phase_at-set h.channels j _ i (rw p (λ q. cc)))
Step-Kept {h} i (fails_write j c msg rest at p b) e = (e, phase_at-set h.channels j _ i (λ q. cc))
Step-Kept {h} i (leaves j c at p) e = (e, phase_at-set h.channels j _ i (λ q. cc))
Step-Kept {h} i (unregisters j c r at p) e = cc
Step-Kept {h} i (delivers msg rest r b) e = cc
Step-Kept {h} i (beats r) e = cc
Step-Kept {h} i closes e = close-Kept h i e
Step-Kept {h} i (halts r s) e = cc

Run-Kept : {h h' : SseHub} (i : ℕ) → Run h h' → h.running ≡ false → Kept h i (some h')
Run-Kept i here e = (e, λ q. q)
Run-Kept i (next r s) e =
    let before = Run-Kept i r e in
    let after = Step-Kept i s before.0 in (after.0, λ q. before.1 (after.1 q))

-- Once `run` has returned, no handler of an event stream ever returns that had not returned before.
pub handlers_stay :
    {h h' : SseHub} (i : ℕ)
    → h.running ≡ false
    → Run h h'
    → phase_at h'.channels i ≡ some Phase.gone
    → phase_at h.channels i ≡ some Phase.gone
handlers_stay i e r = (Run-Kept i r e).1
