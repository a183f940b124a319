-- ===== src/Api/Hub.antt =====
-- internal/api/sse.go: the hub that fans events out to connected clients.
-- A client's channel carries whether it stands in the map `clients`, so that map is the set of the
-- flagged channels, and what the code does for each key in any order is done to each flagged
-- channel. `none` is a panic: a send on a closed channel, or the close of a closed one.
pub mod Steps
pub mod Inv
pub mod Delivery
pub mod Order
pub mod Leak
mod Tests
use sugi.Base.{
  ℕ, ◌+◌, Bool, true, false, not, Option, none, some, List, [], ◌∷◌, ◌++◌, map, if◌then◌else◌, ltb,
  length, get_elem?, set,
}
use sugi.Base.Text.{Text, codes}

-- Where `HandleSSEStream` stands: before its send on `register`, in its loop, before the deferred
-- send on `unregister`, or behind that.
pub data Phase : Type 0 where
  registering streaming leaving gone : Phase

pub record Channel : Type 0 where
  -- What has been sent and not received, oldest first.
  pub buf : List Text
  -- Whether the channel is not closed.
  pub is_open : Bool
  -- Whether it is a key of `clients`.
  pub member : Bool
  -- The handler that made it, and what that has written to its response.
  pub phase : Phase
  pub out : List Text

pub record SseHub : Type 0 where
  pub channels : List Channel
  pub broadcast : List Text
  -- Whether `run` has not returned.
  pub running : Bool
  -- Whether `stopChan` is closed.
  pub stopped : Bool

abbrev pub client_buffer : ℕ
client_buffer = 32

abbrev pub broadcast_buffer : ℕ
broadcast_buffer = 256

unfoldable pub new_hub : SseHub
new_hub = record { channels = []; broadcast = []; running = true; stopped = false }

abbrev pub heartbeat : Text
heartbeat = codes ": keep-alive\n\n"

abbrev pub greeting : Text
greeting = codes ": connected to sugi sse\n\n"

-- `fmt.Sprintf("event: …\ndata: %s\n\n", data)`.
unfoldable pub sse_payload : Text → Text → Text
sse_payload event payload =
    codes "event: " ++ (event ++ (codes "\ndata: " ++ (payload ++ codes "\n\n")))

-- A send that does not block, to a channel with a buffer.
unfoldable pub offer : Text → Channel → Option Channel
offer msg c =
    if c.is_open
    then some (if ltb (length c.buf) client_buffer then record c { buf = c.buf ++ msg ∷ [] } else c)
    else none

unfoldable pub close_channel : Channel → Option Channel
close_channel c = if c.is_open then some (record c { is_open = false }) else none

-- One round of the loop `for client := range h.clients`, for the fan-out and for the stop.
unfoldable pub offer_member : Text → Channel → Option Channel
unfolding offer
offer_member msg c = if c.member then offer msg c else some c

unfoldable pub drop_member : Channel → Option Channel
unfolding close_channel
drop_member c = if c.member then close_channel (record c { member = false }) else some c

-- The loop over all channels; it panics if a round does.
unfoldable pub each : (Channel → Option Channel) → List Channel → Option (List Channel)
each f [] = some []
each f (c ∷ cs) = elim (f c) [
  | none ↦ none
  | some d ↦ elim (each f cs) [ none ↦ none | some ds ↦ some (d ∷ ds) ]
]

abbrev pub with_channels : SseHub → Option (List Channel) → Option SseHub
with_channels h none = none
with_channels h (some cs) = some (record h { channels = cs })

-- The cases of the `select` in `run`. `register` has the handler write its greeting and the latest
-- snapshot, where there is one.
abbrev pub first_events : Option Text → List Text
first_events none = greeting ∷ []
first_events (some payload) = greeting ∷ sse_payload (codes "metrics") payload ∷ []

unfoldable pub on_register : ℕ → Channel → Option Text → SseHub → Option SseHub
on_register i c latest h = some (record h {
  channels =
      set h.channels i
        (record c { member = true; phase = Phase.streaming; out = first_events latest });
})

unfoldable pub on_unregister : ℕ → Channel → SseHub → Option SseHub
unfolding close_channel
on_unregister i c h =
    elim (if c.member then close_channel (record c { member = false }) else some c) [
      | none ↦ none
      | some d ↦ some (record h { channels = set h.channels i (record d { phase = Phase.gone }) })
    ]

unfoldable pub on_message : Text → List Text → SseHub → Option SseHub
unfolding each offer_member
on_message msg rest h =
    with_channels (record h { broadcast = rest }) (each (offer_member msg) h.channels)

unfoldable pub on_heartbeat : SseHub → Option SseHub
unfolding each offer_member
on_heartbeat h = with_channels h (each (offer_member heartbeat) h.channels)

unfoldable pub on_stop : SseHub → Option SseHub
unfolding each drop_member
on_stop h = with_channels (record h { running = false }) (each drop_member h.channels)

-- `Close`: the second close of `stopChan` panics.
unfoldable pub on_close : SseHub → Option SseHub
on_close h = if h.stopped then none else some (record h { stopped = true })

-- The send on `broadcast`, which does not block.
unfoldable pub publish : Text → SseHub → SseHub
publish msg h =
    if ltb (length h.broadcast) broadcast_buffer
    then record h { broadcast = h.broadcast ++ msg ∷ [] }
    else h

-- `BroadcastSnapshot` and `BroadcastLog`, given what `json.Marshal` returns.
unfoldable pub broadcast_snapshot : Option Text → SseHub → SseHub
unfolding publish sse_payload
broadcast_snapshot none h = h
broadcast_snapshot (some payload) h = publish (sse_payload (codes "metrics") payload) h

unfoldable pub broadcast_log : Option Text → SseHub → SseHub
unfolding publish sse_payload
broadcast_log none h = h
broadcast_log (some payload) h = publish (sse_payload (codes "log") payload) h

unfoldable pub client_count : List Channel → ℕ
client_count [] = 0
client_count (c ∷ cs) = (if c.member then 1 else 0) + client_count cs
