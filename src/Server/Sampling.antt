-- ===== src/Server/Sampling.antt =====
-- `metricSamplingLoop` of internal/server/server.go, with what `NewServer` prepares for it. The
-- collectors, the ring buffer and the hub are what the loop shares with the rest of the server.
use sugi.Base.{Option, none, List, [], ◌∷◌}
use sugi.Base.Int.{pos}
use sugi.Base.Text.{Text}
use sugi.Base.Result.{Result, ok, err}
use sugi.Model.Time.{Instant, zero_time}
use sugi.Model.Metrics.{CpuStats, MemStats, DiskStats, NetStats, SystemSnapshot}
use sugi.Collector.Float.{Float64}
use sugi.Collector.Scan.{Reader}
use sugi.Collector.Cpu.{CpuCollector, CollectError, collect_cpu}
use sugi.Collector.Mem.{MemError, collect_mem}
use sugi.Collector.Disk.{DiskCollector, collect_disk}
use sugi.Collector.Net.{NetCollector, collect_net}
use sugi.Storage.Ring.{RingBuffer, new_ring_buffer, default_capacity, push}
use sugi.Api.Hub.{SseHub, new_hub, broadcast_snapshot}

-- What one round finds: the files of /proc, and the clock at each of its readings.
pub record ProcFs : Type 0 where
  pub stat : Option Reader
  pub meminfo : Option Reader
  pub diskstats : Option Reader
  pub net_dev : Option Reader
  pub cpu_time : Instant
  pub mem_time : Instant
  pub disk_time : Instant
  pub net_time : Instant
  pub now : Instant

pub record Collectors : Type 0 where
  pub cpu : CpuCollector
  pub disk : DiskCollector
  pub net : NetCollector

-- `NewCPUCollector`, `NewDiskCollector` and `NewNetCollector`.
abbrev pub new_collectors : Collectors
new_collectors = record {
  cpu = record { last_ticks = none; last_time = zero_time };
  disk = record { last_stats = none; last_time = zero_time };
  net = record { last_stats = none; last_time = zero_time };
}

-- The value of a result that came with an error is the zero value.
abbrev pub or_zero {ℓ κ} : {E : Type ℓ} {A : Type κ} → A → Result E A → A
or_zero zero (ok a) = a
or_zero zero (err e) = zero

module _ (f : Float64) where
  open f use {F, of_uint}

  pub record Sampler : Type 0 where
    pub collectors : Collectors
    pub ring : RingBuffer (SystemSnapshot F)
    pub hub : SseHub

  abbrev pub zero_disk_stats : DiskStats F
  zero_disk_stats = record {
    timestamp = zero_time;
    total_read_bytes_per_sec = of_uint 0;
    total_write_bytes_per_sec = of_uint 0;
    total_read_iops = of_uint 0;
    total_write_iops = of_uint 0;
    devices = [];
  }

  abbrev pub zero_net_stats : NetStats F
  zero_net_stats = record {
    timestamp = zero_time;
    total_rx_bytes_per_sec = of_uint 0;
    total_tx_bytes_per_sec = of_uint 0;
    interfaces = [];
  }

  -- The baseline that `NewServer` takes.
  unfoldable pub baseline : ProcFs → Collectors → Collectors
  unfolding collect_cpu collect_disk collect_net
  baseline p c = record {
    cpu = (collect_cpu f p.stat p.cpu_time c.cpu).1;
    disk = (collect_disk f p.diskstats p.disk_time c.disk).1;
    net = (collect_net f p.net_dev p.net_time c.net).1;
  }

  unfoldable pub new_sampler : ProcFs → SystemSnapshot F → Sampler
  unfolding baseline new_ring_buffer new_hub
  new_sampler p empty = record {
    collectors = baseline p new_collectors;
    ring = new_ring_buffer empty (pos default_capacity);
    hub = new_hub;
  }

  module _ (marshal : SystemSnapshot F → Option Text) where
    -- The last two calls of a round.
    unfoldable pub publish_snapshot : SystemSnapshot F → Sampler → Sampler
    unfolding push broadcast_snapshot
    publish_snapshot snapshot s = record s {
      ring = push s.ring snapshot;
      hub = broadcast_snapshot (marshal snapshot) s.hub;
    }

    unfoldable pub after_mem :
        ProcFs → CpuStats F → Result MemError (MemStats F) → Sampler → Sampler
    unfolding publish_snapshot collect_disk collect_net
    after_mem p cpu (err e) s = s
    after_mem p cpu (ok mem) s =
        let (disk, disk_col) = collect_disk f p.diskstats p.disk_time s.collectors.disk in
        let (net, net_col) = collect_net f p.net_dev p.net_time s.collectors.net in
        publish_snapshot
          (record {
            timestamp = p.now;
            cpu = cpu;
            memory = mem;
            disk = or_zero zero_disk_stats disk;
            network = or_zero zero_net_stats net;
          })
          (record s { collectors = record s.collectors { disk = disk_col; net = net_col } })

    unfoldable pub after_cpu : ProcFs → Result CollectError (CpuStats F) → Sampler → Sampler
    unfolding after_mem collect_mem
    after_cpu p (err e) s = s
    after_cpu p (ok cpu) s = after_mem p cpu (collect_mem f p.meminfo p.mem_time) s

    -- One tick of the loop.
    unfoldable pub sample : ProcFs → Sampler → Sampler
    unfolding after_cpu collect_cpu
    sample p s =
        let (cpu, cpu_col) = collect_cpu f p.stat p.cpu_time s.collectors.cpu in
        after_cpu p cpu (record s { collectors = record s.collectors { cpu = cpu_col } })

    -- The loop over its ticks.
    unfoldable pub sample_all : List ProcFs → Sampler → Sampler
    unfolding sample
    sample_all [] s = s
    sample_all (p ∷ ps) s = sample_all ps (sample p s)
