-- ===== src/Api/Hub/Steps.antt =====
-- The interleavings of the hub of internal/api/sse.go with its callers and handlers.
use sugi.Base.{ℕ, ◌≡◌, Bool, true, false, Option, some, List, [], ◌∷◌, ◌++◌, get_elem?, set}
use sugi.Base.Text.{Text}
use sugi.Api.Hub.{
  SseHub, Channel, Phase, publish, on_register, on_unregister, on_message, on_heartbeat, on_stop,
  on_close,
}

-- The fresh channel of a handler that starts.
abbrev pub fresh : Channel
fresh = record { buf = []; is_open = true; member = false; phase = Phase.registering; out = [] }

-- One action. `run` acts only until it has returned, and an unbuffered send of a handler is
-- received by `run` or waits. `Close` may be called at any time, and more than once.
pub data Step (h : SseHub) : Option SseHub → Type 0 where
  publishes : (msg : Text) → Step h (some (publish msg h))
  connects : Step h (some (record h { channels = h.channels ++ fresh ∷ [] }))
  registers :
      (i : ℕ) (c : Channel) (latest : Option Text)
      → h.running ≡ true
      → get_elem? h.channels i ≡ some c
      → c.phase ≡ Phase.registering
      → Step h (on_register i c latest h)
  -- The handler takes a message from its channel and writes it.
  writes :
      (i : ℕ) (c : Channel) (msg : Text) (rest : List Text)
      → get_elem? h.channels i ≡ some c
      → c.phase ≡ Phase.streaming
      → c.buf ≡ msg ∷ rest
      → Step h (
          some (record h {
            channels = set h.channels i (record c { buf = rest; out = c.out ++ msg ∷ [] });
          }))
  -- It takes a message, and the write fails.
  fails_write :
      (i : ℕ) (c : Channel) (msg : Text) (rest : List Text)
      → get_elem? h.channels i ≡ some c
      → c.phase ≡ Phase.streaming
      → c.buf ≡ msg ∷ rest
      → Step h (
          some (record h {
            channels = set h.channels i (record c { buf = rest; phase = Phase.leaving });
          }))
  -- The request ends, or the channel is closed and empty.
  leaves :
      (i : ℕ) (c : Channel)
      → get_elem? h.channels i ≡ some c
      → c.phase ≡ Phase.streaming
      → Step h
          (some (record h { channels = set h.channels i (record c { phase = Phase.leaving }) }))
  unregisters :
      (i : ℕ) (c : Channel)
      → h.running ≡ true
      → get_elem? h.channels i ≡ some c
      → c.phase ≡ Phase.leaving
      → Step h (on_unregister i c h)
  delivers :
      (msg : Text) (rest : List Text)
      → h.running ≡ true
      → h.broadcast ≡ msg ∷ rest
      → Step h (on_message msg rest h)
  beats : h.running ≡ true → Step h (on_heartbeat h)
  closes : Step h (on_close h)
  halts : h.running ≡ true → h.stopped ≡ true → Step h (on_stop h)

-- Whether the action is a call of `Close`.
abbrev pub is_close : {h : SseHub} {r : Option SseHub} → Step h r → Bool
is_close (publishes msg) = false
is_close connects = false
is_close (registers i c latest r at e) = false
is_close (writes i c msg rest at e b) = false
is_close (fails_write i c msg rest at e b) = false
is_close (leaves i c at e) = false
is_close (unregisters i c r at e) = false
is_close (delivers msg rest r e) = false
is_close (beats r) = false
is_close closes = true
is_close (halts r e) = false

-- The states that follow `h`.
pub data Run (h : SseHub) : SseHub → Type 0 where
  here : Run h h
  next : {u v : SseHub} → Run h u → Step u (some v) → Run h v
