-- ===== src/Api/Hub/Tests.antt =====
-- The hub's theorems at a run with one client.
use sugi.Base.{◌≢◌, ◌≡◌, ◌⊎◌, refl, true, false, none, [], ◌∷◌}
use sugi.Base.Text.{Text, codes}
use sugi.Api.Hub.{
  SseHub, Channel, Phase, new_hub, greeting, publish, on_message, on_stop, on_close, on_register,
}
use sugi.Api.Hub.Steps.{
  Run, Step, fresh, here, next, publishes, connects, registers, delivers, closes, halts,
}
use sugi.Api.Hub.Delivery.{no_panic}

abbrev msg : Text
msg = codes "hi"

abbrev client : Channel
client = record {
  buf = [];
  is_open = true;
  member = true;
  phase = Phase.streaming;
  out = greeting ∷ [];
}

-- One client is registered and one message waits.
abbrev ready : SseHub
ready = record { channels = client ∷ []; broadcast = msg ∷ []; running = true; stopped = false }

abbrev made : SseHub
made = record { channels = fresh ∷ []; broadcast = []; running = true; stopped = false }

ready-Run : Run new_hub ready
unfolding new_hub on_register publish
ready-Run = next (next (next here connects) (registers 0 fresh none refl refl refl)) (publishes msg)

sent : Step ready (on_message msg [] ready)
sent = delivers msg [] refl refl

abbrev after : SseHub
after = record ready { broadcast = []; channels = record client { buf = msg ∷ [] } ∷ [] }

after-Run : Run ready after
unfolding on_message
after-Run = next here sent

-- `Close`, and the end of `run`.
abbrev halted : SseHub
halted = record {
  channels = record client { buf = msg ∷ []; is_open = false; member = false } ∷ [];
  broadcast = [];
  running = false;
  stopped = true;
}

halted-Run : Run ready halted
unfolding on_stop on_close
halted-Run = next (next after-Run closes) (halts refl refl)

Run-trans : {h u v : SseHub} → Run h u → Run u v → Run h v
Run-trans r here = r
Run-trans r (next q s) = next (Run-trans r q) s

no_panic_example : (on_message msg [] ready ≢ none) ⊎ ((false ≡ true) × (false ≡ true))
unfolding sent
no_panic_example = no_panic ready-Run sent
