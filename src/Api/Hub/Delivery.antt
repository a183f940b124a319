-- ===== src/Api/Hub/Delivery.antt =====
-- What the hub of internal/api/sse.go promises to its clients.
use sugi.Base.{
  ◌≤◌, ◌≡◌, ◌≢◌, ◌⊎◌, ◌&&◌, inl, inr, refl, Bool, true, false, arith, Option, none, some, List, [],
  ◌∷◌, map, length, All,
}
use sugi.Base.Text.{Text}
use sugi.Api.Hub.{
  SseHub, Channel, client_buffer, broadcast_buffer, new_hub, on_message, client_count, offer_member,
}
use sugi.Api.Hub.Steps.{Step, Run, is_close}
use sugi.Api.Hub.Inv.{
  Sound, SafeBut, Step-SafeBut, Run-IsValid, new_hub-IsValid, delivered, each-map,
  offer_member-delivered,
}

panics_if :
    (b stopped : Bool) (r : Option SseHub)
    → SafeBut (b && stopped) r
    → (r ≢ none) ⊎ ((b ≡ true) × (stopped ≡ true))
panics_if true true r s = inr (refl, refl)
panics_if true false none s = cc
panics_if true false (some h) s = inl (λ e. cc)
panics_if false stopped none s = cc
panics_if false stopped (some h) s = inl (λ e. cc)

-- Whatever publishers, handlers and callers of `Close` do from the start of the hub, no action
-- sends on a closed channel or closes one twice, except a call of `Close` behind another one.
pub no_panic :
    {h : SseHub} {r : Option SseHub}
    → Run new_hub h
    → (s : Step h r) → (r ≢ none) ⊎ ((is_close s ≡ true) × (h.stopped ≡ true))
no_panic {h} {r} q s =
    panics_if (is_close s) h.stopped r (Step-SafeBut s (Run-IsValid q new_hub-IsValid))

-- No client holds more than 32 messages, and no more than 256 wait to be fanned out.
pub buffers_bounded :
    {h : SseHub}
    → Run new_hub h
    → (length h.broadcast ≤ broadcast_buffer) × All (λ c. length c.buf ≤ client_buffer) (h.channels)
buffers_bounded {h} q =
    let v = Run-IsValid q new_hub-IsValid in (v.broadcast_small, small h.channels v.sound)
  where
    small :
        (cs : List Channel) → All (Sound h.running) cs → All (λ c. length c.buf ≤ client_buffer) cs
    small [] s = tt
    small (c ∷ cs) s = (s.0.buf_small, small cs s.1)

-- A message that is fanned out goes to the end of the buffer of every client with room; a client
-- whose buffer is full misses it, and changes nothing for the others.
pub on_message-delivered :
    {h : SseHub} (msg : Text) (rest : List Text)
    → Run new_hub h
    → h.broadcast ≡ msg ∷ rest
    → on_message msg rest h
      ≡ some (record h { broadcast = rest; channels = map (delivered msg) h.channels })
unfolding on_message
on_message-delivered {h} msg rest q e = rw (
    each-map (Sound h.running) (offer_member msg) (delivered msg) h.channels
      (offer_member-delivered msg) (Run-IsValid q new_hub-IsValid).sound)

count-none : (cs : List Channel) → All (Sound false) cs → client_count cs ≡ 0
unfolding client_count
count-none [] s = refl
count-none (c ∷ cs) s = rw (s.0.halted_out refl) (omega (arith, count-none cs s.1))

-- Once `run` has returned, no client is connected.
pub halted-client_count :
    {h : SseHub} → Run new_hub h → h.running ≡ false → client_count h.channels ≡ 0
halted-client_count {h} q e = count-none h.channels (rw e at (Run-IsValid q new_hub-IsValid).sound)
