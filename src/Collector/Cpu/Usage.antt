-- ===== src/Collector/Cpu/Usage.antt =====
-- The percentages of `calculateDelta` of internal/collector/cpu.go.
use sugi.Base.{ℕ, ◌+◌, ◌-◌, ◌^◌, ◌≤◌, ◌<◌, ◌≡◌, arith, leb, Bool-cases, inl, inr}
use sugi.Model.Metrics.{CpuTicks, CoreUsage, total, idle_total, non_idle_total}
use sugi.Collector.Float.{Float64, FloatLaws, IsPercentage, clamp_in, zero_in}
use sugi.Collector.Cpu.{calculate_delta, delta_total, delta_idle, share}

module _ (f : Float64) (laws : FloatLaws f) where
  open f use {F, of_uint, lt}

  -- Every field of a usage lies in 0..100.
  pub record InRange (u : CoreUsage F) : Type 0 where
    pub total_in : IsPercentage f u.total_usage
    pub user_in : IsPercentage f u.user_usage
    pub system_in : IsPercentage f u.system_usage
    pub io_wait_in : IsPercentage f u.io_wait_usage
    pub steal_in : IsPercentage f u.steal_usage

  share_in : (prev curr : ℕ) (elapsed : F) → IsPercentage f (share f prev curr elapsed)
  unfolding share
  share_in prev curr elapsed = elim (Bool-cases (leb prev curr)) [
    | inl on ↦ rw on (clamp_in f laws _)
    | inr back ↦ rw back (zero_in f laws)
  ]

  -- Given FloatLaws, whatever two snapshots hold, no percentage of
  -- `calculateDelta` is below 0 or above 100, counters that went back or wrapped included.
  pub calculate_delta-InRange : (prev curr : CpuTicks) → InRange (calculate_delta f prev curr)
  unfolding calculate_delta
  calculate_delta-InRange prev curr = elim (Bool-cases (leb (total curr) (total prev))) [
    | inl still ↦ rw still (record {
      total_in = zero_in f laws;
      user_in = zero_in f laws;
      system_in = zero_in f laws;
      io_wait_in = zero_in f laws;
      steal_in = zero_in f laws;
    })
    | inr on ↦ rw on (record {
      total_in = clamp_in f laws _;
      user_in = share_in _ _ _;
      system_in = share_in _ _ _;
      io_wait_in = share_in _ _ _;
      steal_in = share_in _ _ _;
    })
  ]

-- The sum of the counters fits 64 bits.
abbrev pub Fits : CpuTicks → Type 0
Fits c = c.user + c.nice + c.system + c.idle + c.io_wait + c.irq + c.soft_irq + c.steal < 2 ^ 64

-- No counter of the first snapshot is above that of the second.
pub record NotAfter (p c : CpuTicks) : Type 0 where
  pub user_le : p.user ≤ c.user
  pub nice_le : p.nice ≤ c.nice
  pub system_le : p.system ≤ c.system
  pub idle_le : p.idle ≤ c.idle
  pub io_wait_le : p.io_wait ≤ c.io_wait
  pub irq_le : p.irq ≤ c.irq
  pub soft_irq_le : p.soft_irq ≤ c.soft_irq
  pub steal_le : p.steal ≤ c.steal

-- If no counter went back and the sums fit 64 bits, the elapsed ticks are the idle ones and the
-- ticks that `NonIdleTotal` gained, so the busy share is that gain over the elapsed ticks.
pub delta_total-busy :
    (prev curr : CpuTicks)
    → NotAfter prev curr
    → Fits curr
    → delta_total prev curr ≡ delta_idle prev curr + (non_idle_total curr - non_idle_total prev)
unfolding delta_total delta_idle total idle_total non_idle_total
delta_total-busy prev curr le fits = omega arith

-- If the idle ticks went back while the total advanced, the subtraction of the idle ticks wraps and
-- exceeds the elapsed ticks, so the busy share computed from them is below 0.
pub idle_back_wraps :
    (prev curr : CpuTicks)
    → Fits prev
    → Fits curr
    → total prev < total curr
    → idle_total curr < idle_total prev
    → (delta_idle prev curr ≡ 2 ^ 64 - (idle_total prev - idle_total curr))
      × (delta_total prev curr < delta_idle prev curr)
unfolding delta_total delta_idle total idle_total
idle_back_wraps prev curr fp fc on back = omega arith
