-- ===== src/Server/Rounds.antt =====
-- The rounds of `metricSamplingLoop` of internal/server/server.go, and what they leave in the ring
-- buffer.
use sugi.Base.{
  ◌≡◌, ◌⊎◌, refl, sym, ap, ap₂, ◌∙◌, Option, none, some, List, [], ◌∷◌, ◌++◌, append-nil,
  append_assoc, take_last, inl, inr,
}
use sugi.Base.Int.{pos}
use sugi.Base.Text.{Text}
use sugi.Base.Result.{Result, ok, err}
use sugi.Model.Metrics.{CpuStats, MemStats, SystemSnapshot}
use sugi.Collector.Float.{Float64}
use sugi.Collector.Cpu.{CollectError, collect_cpu}
use sugi.Collector.Mem.{MemError, collect_mem}
use sugi.Collector.Disk.{collect_disk}
use sugi.Collector.Net.{collect_net}
use sugi.Storage.Ring.{RingBuffer, new_ring_buffer, default_capacity, get_all, get_capacity}
use sugi.Storage.Ring.History.{Call, pushes, run, pushed, get_all-run}
use sugi.Server.Sampling.{
  ProcFs, Collectors, Sampler, new_collectors, or_zero, zero_disk_stats, zero_net_stats, baseline,
  new_sampler, after_mem, after_cpu, sample, sample_all,
}

-- A result that is an error.
abbrev pub Failed {ℓ κ} : {E : Type ℓ} {A : Type κ} → Result E A → Type (ℓ ⊔ κ)
Failed {E = E} r = (e : E) × (r ≡ err e)

-- The pushes of snapshots.
abbrev pub push_calls {ℓ} : {A : Type ℓ} → List A → List (Call A)
push_calls [] = []
push_calls (x ∷ xs) = pushes x ∷ push_calls xs

pushed-push_calls {ℓ} : {A : Type ℓ} (seen xs : List A) → pushed seen (push_calls xs) ≡ seen ++ xs
pushed-push_calls seen [] = sym (append-nil seen)
pushed-push_calls seen (x ∷ xs) =
    pushed-push_calls (seen ++ x ∷ []) xs ∙ append_assoc seen (x ∷ []) xs

module _ (f : Float64) where
  open f use {F}

  -- What a round makes of the files, where /proc/stat and /proc/meminfo can be read.
  abbrev snapshot_of :
      ProcFs
      → Collectors
      → Result CollectError (CpuStats F)
      → Result MemError (MemStats F)
      → Option (SystemSnapshot F)
  snapshot_of p c (ok cpu) (ok mem) = some (record {
    timestamp = p.now;
    cpu = cpu;
    memory = mem;
    disk = or_zero (zero_disk_stats f) (collect_disk f p.diskstats p.disk_time c.disk).0;
    network = or_zero (zero_net_stats f) (collect_net f p.net_dev p.net_time c.net).0;
  })
  snapshot_of p c (ok cpu) (err e) = none
  snapshot_of p c (err e) mem = none

  -- The collectors behind a round: disk and network wait for the snapshot.
  abbrev collectors_after : ProcFs → Collectors → Option (SystemSnapshot F) → Collectors
  collectors_after p c none = record c { cpu = (collect_cpu f p.stat p.cpu_time c.cpu).1 }
  collectors_after p c (some x) = baseline f p c

  abbrev pub round_snapshot : ProcFs → Collectors → Option (SystemSnapshot F)
  round_snapshot p c =
      snapshot_of p c (collect_cpu f p.stat p.cpu_time c.cpu).0 (collect_mem f p.meminfo p.mem_time)

  abbrev cons_some {ℓ} : {A : Type ℓ} → Option A → List A → List A
  cons_some none xs = xs
  cons_some (some x) xs = x ∷ xs

  -- The snapshots of rounds, in their order.
  unfoldable pub snapshots : List ProcFs → Collectors → List (SystemSnapshot F)
  snapshots [] c = []
  snapshots (p ∷ ps) c =
      let x = round_snapshot p c in cons_some x (snapshots ps (collectors_after p c x))

  module _ (marshal : SystemSnapshot F → Option Text) where
    -- What a round does to the collectors and the ring.
    after_cpu-round :
        (p : ProcFs) (c : Collectors) (s : Sampler f) (cpu : Result CollectError (CpuStats F))
        (mem : Result MemError (MemStats F))
        → collect_mem f p.meminfo p.mem_time ≡ mem
        → let c' = record c { cpu = (collect_cpu f p.stat p.cpu_time c.cpu).1 } in
          let t = after_cpu f marshal p cpu (record s { collectors = c' }) in
          (t.collectors ≡ collectors_after p c (snapshot_of p c cpu mem))
          × (t.ring ≡ run s.ring (push_calls (cons_some (snapshot_of p c cpu mem) [])))
    unfolding after_cpu after_mem run baseline
    after_cpu-round p c s (err e) mem h = (refl, refl)
    after_cpu-round p c s (ok cpu) (err e) h = rw h (refl, refl)
    after_cpu-round p c s (ok cpu) (ok mem) h = rw h (refl, refl)

    sample-round :
        (p : ProcFs) (s : Sampler f)
        → let x = round_snapshot p s.collectors in
          ((sample f marshal p s).collectors ≡ collectors_after p s.collectors x)
          × ((sample f marshal p s).ring ≡ run s.ring (push_calls (cons_some x [])))
    unfolding sample
    sample-round p s =
        after_cpu-round p s.collectors s (collect_cpu f p.stat p.cpu_time s.collectors.cpu).0
          (collect_mem f p.meminfo p.mem_time) refl

    run-cons_some :
        (r : RingBuffer (SystemSnapshot F)) (x : Option (SystemSnapshot F))
        (xs : List (SystemSnapshot F))
        → run (run r (push_calls (cons_some x []))) (push_calls xs)
          ≡ run r (push_calls (cons_some x xs))
    unfolding run
    run-cons_some r none xs = refl
    run-cons_some r (some x) xs = refl

    pub sample_all-ring :
        (ps : List ProcFs) (s : Sampler f)
        → (sample_all f marshal ps s).ring ≡ run s.ring (push_calls (snapshots ps s.collectors))
    unfolding sample_all snapshots run
    sample_all-ring [] s = refl
    sample_all-ring (p ∷ ps) s =
        let x = round_snapshot p s.collectors in
        let (c, r) = sample-round p s in
        sample_all-ring ps (sample f marshal p s)
        ∙ ap₂ (λ ring cs. run ring (push_calls (snapshots ps cs))) r c
        ∙ run-cons_some s.ring x (snapshots ps (collectors_after p s.collectors x))

    -- After any rounds of the sampling loop of a new server, `GetAll` of its ring buffer returns
    -- the snapshots of the last 3600 rounds in which /proc/stat and /proc/meminfo could be read,
    -- oldest first. A round that cannot read one of them leaves no snapshot, and leaves the disks
    -- and the network as they were last measured.
    pub get_all-sample_all :
        (start : ProcFs) (empty : SystemSnapshot F) (ps : List ProcFs)
        → get_all empty (sample_all f marshal ps (new_sampler f start empty)).ring
          ≡ take_last default_capacity (snapshots ps (baseline f start new_collectors))
    unfolding new_sampler get_capacity new_ring_buffer
    get_all-sample_all start empty ps =
        let xs = snapshots ps (baseline f start new_collectors) in
        ap (get_all empty) (sample_all-ring ps (new_sampler f start empty))
        ∙ get_all-run empty (pos default_capacity) (push_calls xs)
        ∙ ap (take_last default_capacity) (pushed-push_calls [] xs)

    mem_failed :
        (p : ProcFs) (s : Sampler f) (cpu : Result CollectError (CpuStats F)) (e : MemError)
        → collect_mem f p.meminfo p.mem_time ≡ err e
        → let t = after_cpu f marshal p cpu s in
          (t.ring ≡ s.ring)
          × (t.hub ≡ s.hub)
          × (t.collectors.disk ≡ s.collectors.disk)
          × (t.collectors.net ≡ s.collectors.net)
    unfolding after_cpu after_mem
    mem_failed p s (ok cpu) e h = rw h (refl, refl, refl, refl)
    mem_failed p s (err k) e h = (refl, refl, refl, refl)

    -- A round in which /proc/stat or /proc/meminfo cannot be read changes neither the ring buffer
    -- nor the hub, nor the base snapshots of the disks and the network.
    pub sample-Failed :
        (p : ProcFs) (s : Sampler f)
        → Failed (collect_cpu f p.stat p.cpu_time s.collectors.cpu).0
          ⊎ Failed (collect_mem f p.meminfo p.mem_time)
        → let t = sample f marshal p s in
          (t.ring ≡ s.ring)
          × (t.hub ≡ s.hub)
          × (t.collectors.disk ≡ s.collectors.disk)
          × (t.collectors.net ≡ s.collectors.net)
    unfolding sample after_cpu after_mem
    sample-Failed p s (inl (e, h)) = rw h (refl, refl, refl, refl)
    sample-Failed p s (inr (e, h)) =
        let (cpu, cpu_col) = collect_cpu f p.stat p.cpu_time s.collectors.cpu in
        mem_failed p (record s { collectors = record s.collectors { cpu = cpu_col } }) cpu e h
