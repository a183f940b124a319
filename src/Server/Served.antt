-- ===== src/Server/Served.antt =====
-- What the API serves of the samples: the sampling loop of internal/server/server.go, the ring
-- buffer and `HandleGetMetricsHistory` of internal/api/handler.go together.
use sugi.Base.{
  subst, ℕ, ◌<◌, ◌≡◌, refl, sym, ap, ◌∙◌, false, Option, none, some, List, if◌then◌else◌, length,
  take_last, leb, arith,
}
use sugi.Base.Int.{pos}
use sugi.Base.Text.{Text, is_empty}
use sugi.Model.Metrics.{SystemSnapshot}
use sugi.Collector.Float.{Float64}
use sugi.Collector.Scan.{parsed, atoi}
use sugi.Storage.Ring.{RingBuffer, default_capacity, get_all, get_last_n, get_capacity}
use sugi.Storage.Ring.Inv.{IsValid, new_ring_buffer-IsValid}
use sugi.Storage.Ring.History.{run-IsValid}
use sugi.Storage.Ring.Recent.{get_last_n-take_last}
use sugi.Server.Sampling.{ProcFs, new_collectors, baseline, new_sampler, sample_all}
use sugi.Server.Rounds.{snapshots, sample_all-ring, get_all-sample_all}
use sugi.Api.Queries.{found, asked_for, or_all, history_of, handle_get_metrics_history}

module _ {ℓ} {A : Type ℓ} (empty : A) where
  history_of-number :
      (r : RingBuffer A) (n : Text) (k : ℕ)
      → IsValid r
      → is_empty n ≡ false
      → atoi n ≡ parsed (pos k)
      → 0 < k
      → history_of empty r n ≡ take_last k (get_all empty r)
  unfolding history_of
  history_of-number r n k v given number h =
      let positive : leb k 0 ≡ false = ground arith in
      let asked : (if is_empty n then none else asked_for empty r (atoi n))
          ≡ some (get_last_n empty r (pos k)) =
        rw (given, number, positive) refl in
      ap (or_all empty r) asked ∙ get_last_n-take_last empty (pos k) v

module _ (f : Float64) (marshal : SystemSnapshot f.F → Option Text) where
  ring-IsValid :
      (start : ProcFs) (empty : SystemSnapshot f.F) (ps : List ProcFs)
      → IsValid (sample_all f marshal ps (new_sampler f start empty)).ring
  unfolding new_sampler
  ring-IsValid start empty ps =
      subst IsValid (sym (sample_all-ring f marshal ps (new_sampler f start empty)))
        (run-IsValid _ (new_ring_buffer-IsValid empty (pos default_capacity)))

  -- After any rounds of the sampling loop of a new server, a request for the last `k` snapshots is
  -- answered with the last `k` of those that the ring buffer has room for, oldest first, and with
  -- their number.
  pub handle_get_metrics_history-sample_all :
      (start : ProcFs) (empty : SystemSnapshot f.F) (ps : List ProcFs) (n : Text) (k : ℕ)
      → is_empty n ≡ false
      → atoi n ≡ parsed (pos k)
      → 0 < k
      → let sampler = sample_all f marshal ps (new_sampler f start empty) in
        let served =
          take_last k
            (take_last default_capacity (snapshots f ps (baseline f start new_collectors))) in
        handle_get_metrics_history empty (some sampler.ring) n
        ≡ found (length served, get_capacity sampler.ring, served)
  unfolding handle_get_metrics_history
  handle_get_metrics_history-sample_all start empty ps n k given number h =
      let r = (sample_all f marshal ps (new_sampler f start empty)).ring in
      ap (λ xs. found (length xs, get_capacity r, xs))
        (history_of-number empty r n k (ring-IsValid start empty ps) given number h
          ∙ ap (take_last k) (get_all-sample_all f marshal start empty ps))
