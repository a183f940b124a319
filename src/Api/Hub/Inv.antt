-- ===== src/Api/Hub/Inv.antt =====
-- The invariant of the hub of internal/api/sse.go, and that its goroutine never panics.
use sugi.Base.{
  ℕ, ◌≤◌, ◌≡◌, refl, map, ◌&&◌, ltb, if◌then◌else◌, All-map, Bool, true, false, arith, Option,
  Bool-cases, inl, inr, none, some, List, [], ◌∷◌, ◌++◌, length, set, ap, All, All-append,
  All-get_elem?, All-set, length-append,
}
use sugi.Base.Text.{Text}
use sugi.Api.Hub.{
  SseHub, Channel, Phase, client_buffer, broadcast_buffer, new_hub, heartbeat, each, offer_member,
  drop_member, with_channels, publish, on_register, on_unregister, on_message, on_heartbeat,
  on_stop, on_close,
}
use sugi.Api.Hub.Steps.{
  Step, Run, is_close, fresh, publishes, connects, registers, writes, fails_write, leaves,
  unregisters, delivers, beats, closes, halts, here, next,
}

-- A channel, while `run` still runs or after it.
pub record Sound (running : Bool) (c : Channel) : Type 0 where
  pub buf_small : length c.buf ≤ client_buffer
  pub member_open : c.member ≡ true → c.is_open ≡ true
  pub fresh_open : c.phase ≡ Phase.registering → (c.member ≡ false) × (c.is_open ≡ true)
  pub gone_out : c.phase ≡ Phase.gone → c.member ≡ false
  pub streaming_in : c.phase ≡ Phase.streaming → running ≡ true → c.member ≡ true
  pub leaving_in : c.phase ≡ Phase.leaving → running ≡ true → c.member ≡ true
  pub halted_out : running ≡ false → c.member ≡ false

pub record IsValid (h : SseHub) : Type 0 where
  pub broadcast_small : length h.broadcast ≤ broadcast_buffer
  pub sound : All (Sound h.running) h.channels

-- What the fan-out does to a channel: a member with room gets the message, and every other channel,
-- that of a slow consumer too, stays as it is.
abbrev pub delivered : Text → Channel → Channel
delivered msg c =
    if c.member && ltb (length c.buf) client_buffer then record c { buf = c.buf ++ msg ∷ [] } else c

-- What the end of `run` does to a channel.
abbrev pub dropped : Channel → Channel
dropped c = if c.member then record c { member = false; is_open = false } else c

pub each-map :
    (P : Channel → Type 0) (f : Channel → Option Channel) (g : Channel → Channel)
    (cs : List Channel)
    → ((c : Channel) → P c → f c ≡ some (g c))
    → All P cs
    → each f cs ≡ some (map g cs)
unfolding each
each-map P f g [] eq h = refl
each-map P f g (c ∷ cs) eq h = ground (arith, eq c h.0, each-map P f g cs eq h.1)

pub offer_member-delivered :
    {running : Bool} (msg : Text) (c : Channel)
    → Sound running c
    → offer_member msg c ≡ some (delivered msg c)
unfolding offer_member
offer_member-delivered msg c s = ground arith

pub drop_member-dropped : (c : Channel) → Sound true c → drop_member c ≡ some (dropped c)
unfolding drop_member
drop_member-dropped c s = ground arith

delivered-Sound :
    {running : Bool} (msg : Text) (c : Channel) → Sound running c → Sound running (delivered msg c)
delivered-Sound msg c s = ground (arith, length-append c.buf (msg ∷ []))

dropped-Sound : (c : Channel) → Sound true c → Sound false (dropped c)
dropped-Sound c s = ground arith

-- The action did not panic and keeps the invariant.
abbrev pub Safe : Option SseHub → Type 0
Safe none = ⊥
Safe (some h) = IsValid h

fan_out-Safe :
    {h : SseHub} (msg : Text) (rest : List Text)
    → IsValid h
    → length rest ≤ broadcast_buffer
    → Safe (with_channels (record h { broadcast = rest }) (each (offer_member msg) h.channels))
fan_out-Safe {h} msg rest v small =
    rw
      (each-map (Sound h.running) (offer_member msg) (delivered msg) h.channels
        (offer_member-delivered msg) v.sound)
      (record {
        broadcast_small = small;
        sound =
            All-map (Sound h.running) (Sound h.running) (delivered msg) (delivered-Sound msg)
              h.channels v.sound;
      })

stop-Safe : {h : SseHub} → IsValid h → h.running ≡ true → Safe (on_stop h)
unfolding on_stop
stop-Safe {h} v e =
    let all : All (Sound true) h.channels = rw e at v.sound in
    rw (each-map (Sound true) drop_member dropped h.channels drop_member-dropped all) (record {
      broadcast_small = v.broadcast_small;
      sound = All-map (Sound true) (Sound false) dropped dropped-Sound h.channels all;
    })

register-Safe :
    {h : SseHub} (i : ℕ) (c : Channel) (latest : Option Text)
    → IsValid h
    → Sound h.running c
    → h.running ≡ true
    → c.phase ≡ Phase.registering
    → Safe (on_register i c latest h)
unfolding on_register
register-Safe {h} i c latest v s r e = record {
  broadcast_small = v.broadcast_small;
  sound = All-set (Sound h.running) h.channels i _ v.sound (ground arith);
}

unregister-Safe :
    {h : SseHub} (i : ℕ) (c : Channel)
    → IsValid h
    → Sound h.running c
    → h.running ≡ true
    → c.phase ≡ Phase.leaving
    → Safe (on_unregister i c h)
unfolding on_unregister
unregister-Safe {h} i c v s r e =
    rw (s.leaving_in e r, s.member_open (s.leaving_in e r))
      (record {
        broadcast_small = v.broadcast_small;
        sound = All-set (Sound h.running) h.channels i _ v.sound (ground arith);
      })

publish-IsValid : {h : SseHub} (msg : Text) → IsValid h → IsValid (publish msg h)
unfolding publish
publish-IsValid {h} msg v = ground (arith, length-append h.broadcast (msg ∷ []))

fresh-Sound : (running : Bool) → Sound running fresh
fresh-Sound running = ground arith

write-Sound :
    {running : Bool} (c : Channel) (msg : Text) (rest : List Text)
    → Sound running c
    → c.buf ≡ msg ∷ rest
    → Sound running (record c { buf = rest; out = c.out ++ msg ∷ [] })
write-Sound c msg rest s e = ground arith

leave-Sound :
    {running : Bool} (c : Channel)
    → Sound running c
    → c.phase ≡ Phase.streaming
    → Sound running (record c { phase = Phase.leaving })
leave-Sound c s e = ground arith

-- A change of one channel keeps the invariant if the channel stays sound.
set-IsValid :
    {h : SseHub} (i : ℕ) (c : Channel)
    → IsValid h
    → Sound h.running c
    → IsValid (record h { channels = set h.channels i c })
set-IsValid {h} i c v s = record {
  broadcast_small = v.broadcast_small;
  sound = All-set (Sound h.running) h.channels i c v.sound s;
}

fail-Sound :
    {running : Bool} (c : Channel) (msg : Text) (rest : List Text)
    → Sound running c
    → c.phase ≡ Phase.streaming
    → c.buf ≡ msg ∷ rest
    → Sound running (record c { buf = rest; phase = Phase.leaving })
fail-Sound c msg rest s p e = ground arith

-- The action keeps the invariant, or it panics and is one that may.
abbrev pub SafeBut : Bool → Option SseHub → Type 0
SafeBut may none = may ≡ true
SafeBut may (some h) = IsValid h

Safe-SafeBut : (may : Bool) (r : Option SseHub) → Safe r → SafeBut may r
Safe-SafeBut may none s = absurd s
Safe-SafeBut may (some h) s = s

close-SafeBut : (h : SseHub) → IsValid h → SafeBut h.stopped (on_close h)
unfolding on_close
close-SafeBut h v = elim (Bool-cases h.stopped) [
  | inl again ↦ rw again refl
  | inr first ↦ rw first (record { broadcast_small = v.broadcast_small; sound = v.sound })
]

-- No action panics but a second `Close`, and each keeps the invariant.
pub Step-SafeBut :
    {h : SseHub} {r : Option SseHub} (s : Step h r)
    → IsValid h
    → SafeBut (is_close s && h.stopped) r
Step-SafeBut {h} (publishes msg) v = publish-IsValid msg v
Step-SafeBut {h} connects v = record {
  broadcast_small = v.broadcast_small;
  sound = All-append (Sound h.running) h.channels (fresh ∷ []) v.sound (fresh-Sound h.running, tt);
}
Step-SafeBut {h} (registers i c latest r at e) v =
    Safe-SafeBut false _
      (register-Safe i c latest v (All-get_elem? (Sound h.running) h.channels i v.sound at) r e)
Step-SafeBut {h} (writes i c msg rest at e b) v =
    set-IsValid i _ v
      (write-Sound c msg rest (All-get_elem? (Sound h.running) h.channels i v.sound at) b)
Step-SafeBut {h} (fails_write i c msg rest at e b) v =
    set-IsValid i _ v
      (fail-Sound c msg rest (All-get_elem? (Sound h.running) h.channels i v.sound at) e b)
Step-SafeBut {h} (leaves i c at e) v =
    set-IsValid i _ v (leave-Sound c (All-get_elem? (Sound h.running) h.channels i v.sound at) e)
Step-SafeBut {h} (unregisters i c r at e) v =
    Safe-SafeBut false _
      (unregister-Safe i c v (All-get_elem? (Sound h.running) h.channels i v.sound at) r e)
Step-SafeBut {h} (delivers msg rest r e) v =
    unfold on_message in
    (Safe-SafeBut false _ (fan_out-Safe msg rest v (omega (arith, v.broadcast_small, ap length e))))
Step-SafeBut {h} (beats r) v =
    unfold on_heartbeat in
    (Safe-SafeBut false _ (fan_out-Safe {h = h} heartbeat h.broadcast v v.broadcast_small))
Step-SafeBut {h} closes v = close-SafeBut h v
Step-SafeBut {h} (halts r e) v = Safe-SafeBut false _ (stop-Safe v r)

pub new_hub-IsValid : IsValid new_hub
unfolding new_hub
new_hub-IsValid = ground arith

pub Run-IsValid : {h h' : SseHub} → Run h h' → IsValid h → IsValid h'
Run-IsValid here v = v
Run-IsValid (next r s) v = Step-SafeBut s (Run-IsValid r v)
