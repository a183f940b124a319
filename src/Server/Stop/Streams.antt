-- ===== src/Server/Stop/Streams.antt =====
-- What an event stream that is open does to `Shutdown` of internal/server/server.go: the handlers
-- of internal/api/sse.go that are left when the hub has stopped never return.
use sugi.Base.{
  Bool-cases, subst, ℕ, zero, suc, ◌≡◌, ◌≢◌, refl, ap, ◌⊎◌, inl, inr, true, false, Option, none,
  some, List, [], ◌∷◌, ◌++◌, All, set, arith,
}
use sugi.Base.Int.{ℤ}
use sugi.Model.Log.{LogEntry}
use sugi.Storage.Sqlite.{Engine, Codec}
use sugi.Storage.Sqlite.Reads.{QueryEngine}
use sugi.Base.Text.{Text}
use sugi.Api.Hub.{Channel, Phase, SseHub, publish, on_close}
use sugi.Api.Hub.Steps
use sugi.Server.Stop.{
  Closing, Running, Act, Acts, IsGone, stores, locks, unlocks, streams, expires, closes_stop_chan,
  closes_hub, stops_harvester, http_ends, http_times_out, marks_closed, closes_done, workers_end,
  workers_time_out, closes_db, here, next,
}
use sugi.Server.Stop.Inv.{past_http}

-- The channel `i` is there, and its handler has not returned.
abbrev pub IsLeft : List Channel → ℕ → Type 0
IsLeft [] i = ⊥
IsLeft (d ∷ cs) zero = d.phase ≢ Phase.gone
IsLeft (d ∷ cs) (suc i) = IsLeft cs i

IsLeft-not-All : (cs : List Channel) (i : ℕ) → IsLeft cs i → ¬ All IsGone cs
IsLeft-not-All [] i left h = left
IsLeft-not-All (d ∷ cs) zero left (h, hs) = left h
IsLeft-not-All (d ∷ cs) (suc i) left (h, hs) = IsLeft-not-All cs i left hs

set-IsLeft :
    (cs : List Channel) (j : ℕ) (d : Channel) (i : ℕ)
    → d.phase ≢ Phase.gone
    → IsLeft cs i
    → IsLeft (set cs j d) i
set-IsLeft [] j d i ne left = left
set-IsLeft (d' ∷ cs) zero d zero ne left = ne
set-IsLeft (d' ∷ cs) zero d (suc i) ne left = left
set-IsLeft (d' ∷ cs) (suc j) d zero ne left = left
set-IsLeft (d' ∷ cs) (suc j) d (suc i) ne left = set-IsLeft cs j d i ne left

append-IsLeft : (cs ds : List Channel) (i : ℕ) → IsLeft cs i → IsLeft (cs ++ ds) i
append-IsLeft [] ds i left = absurd left
append-IsLeft (d ∷ cs) ds zero left = left
append-IsLeft (d ∷ cs) ds (suc i) left = append-IsLeft cs ds i left

-- `run` has returned, and the handler `i` has not.
abbrev Blocked : ℕ → Option SseHub → Type 0
Blocked i none = Unit
Blocked i (some h) = (h.running ≡ false) × IsLeft h.channels i

publish-Blocked :
    (i : ℕ) (h : SseHub) (msg : Text) → Blocked i (some h) → Blocked i (some (publish msg h))
unfolding publish
publish-Blocked i h msg (halted, left) = ground (arith, halted, left)

close-Blocked : (i : ℕ) (h : SseHub) → Blocked i (some h) → Blocked i (on_close h)
unfolding on_close
close-Blocked i h b = elim (Bool-cases h.stopped) [
  | inl again ↦ rw again tt
  | inr first ↦ rw first b
]

Step-Blocked :
    {h : SseHub} {r : Option SseHub} (i : ℕ) → Steps.Step h r → Blocked i (some h) → Blocked i r
Step-Blocked {h} i (Steps.publishes msg) b = publish-Blocked i h msg b
Step-Blocked {h} i Steps.connects (halted, left) =
    (halted, append-IsLeft h.channels (Steps.fresh ∷ []) i left)
Step-Blocked {h} i (Steps.registers j d latest r at p) (halted, left) = cc
Step-Blocked {h} i (Steps.writes j d msg rest at p b) (halted, left) =
    (halted, set-IsLeft h.channels j _ i (rw p (λ k. cc)) left)
Step-Blocked {h} i (Steps.fails_write j d msg rest at p b) (halted, left) =
    (halted, set-IsLeft h.channels j _ i (λ k. cc) left)
Step-Blocked {h} i (Steps.leaves j d at p) (halted, left) =
    (halted, set-IsLeft h.channels j _ i (λ k. cc) left)
Step-Blocked {h} i (Steps.unregisters j d r at p) (halted, left) = cc
Step-Blocked {h} i (Steps.delivers msg rest r b) (halted, left) = cc
Step-Blocked {h} i (Steps.beats r) (halted, left) = cc
Step-Blocked {h} i Steps.closes b = close-Blocked i h b
Step-Blocked {h} i (Steps.halts r s) (halted, left) = cc

-- `httpServer.Shutdown` has not returned, or only with the error of the deadline.
abbrev pub Waits : {e : Engine} → Running e → Type 0
Waits s = (past_http s.progress ≡ false) ⊎ ((s.http_failed ≡ true) × (s.expired ≡ true))

module _ (e : Engine) (q : QueryEngine e) (c : Codec) (closing : Closing e q) where
  Act-Waits :
      {s t : Running e} {xs : List LogEntry} {ts : List ℤ} (i : ℕ)
      → Act e q c closing s xs ts t
      → Blocked i (some s.hub) × Waits s
      → Blocked i (some t.hub) × Waits t
  Act-Waits i (stores s m locked same_closed same_done no_call held) k = k
  Act-Waits i (locks s h) k = k
  Act-Waits i (unlocks s h) k = k
  Act-Waits i (streams s h step same no_new) (b, k) = (Step-Blocked i step b, k)
  Act-Waits i (expires s) (b, inl k) = (b, inl k)
  Act-Waits i (expires s) (b, inr (k, late)) = (b, inr (k, refl))
  Act-Waits i (closes_stop_chan s p) (b, k) = (b, inl refl)
  Act-Waits i (closes_hub s h p e') (b, k) =
      (subst (Blocked i) e' (close-Blocked i s.hub b), inl refl)
  Act-Waits i (stops_harvester s p) (b, k) = (b, inl refl)
  Act-Waits i (http_ends s p none_enters gone) ((halted, left), k) =
      absurd (IsLeft-not-All s.hub.channels i left gone)
  Act-Waits i (http_times_out s p late) (b, k) = (b, inr (refl, late))
  Act-Waits i (marks_closed s p) (b, k) = (b, ground (arith, k, ap past_http p))
  Act-Waits i (closes_done s p) (b, k) = (b, ground (arith, k, ap past_http p))
  Act-Waits i (workers_end s p over idle) (b, k) = (b, ground (arith, k, ap past_http p))
  Act-Waits i (workers_time_out s p late) (b, k) = (b, ground (arith, k, ap past_http p))
  Act-Waits i (closes_db s p free) (b, k) = (b, ground (arith, k, ap past_http p))

  Acts-Waits :
      {s t : Running e} {xs : List LogEntry} {ts : List ℤ} (i : ℕ)
      → Acts e q c closing s xs ts t
      → Blocked i (some s.hub) × Waits s
      → Blocked i (some t.hub) × Waits t
  Acts-Waits i here k = k
  Acts-Waits i (next r a) k = Act-Waits i a (Acts-Waits i r k)

  -- Where `run` has returned before the HTTP server is shut down, and the handler of an event
  -- stream has not, the shutdown of the HTTP server does not return but with the error of the
  -- deadline.
  pub open_stream-Waits :
      {s t : Running e} {xs : List LogEntry} {ts : List ℤ} (i : ℕ)
      → s.hub.running ≡ false
      → IsLeft s.hub.channels i
      → past_http s.progress ≡ false
      → Acts e q c closing s xs ts t
      → Waits t
  open_stream-Waits i halted left early r = (Acts-Waits i r ((halted, left), inl early)).1
