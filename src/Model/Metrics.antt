-- ===== src/Model/Metrics.antt =====
-- internal/model/metrics.go. The numbers of type float64 have a type of their own, `F`; those of
-- type uint64 are below 2 ^ 64, and sums of them wrap.
use sugi.Base.{ℕ, ◌+◌, ◌%◌, ◌^◌, List}
use sugi.Base.Int.{ℤ}
use sugi.Base.Text.{Text}
use sugi.Model.Time.{Instant}

pub record CpuTicks : Type 0 where
  pub id : Text
  pub user : ℕ
  pub nice : ℕ
  pub system : ℕ
  pub idle : ℕ
  pub io_wait : ℕ
  pub irq : ℕ
  pub soft_irq : ℕ
  pub steal : ℕ
  pub guest : ℕ
  pub guest_nice : ℕ

-- The methods `Total`, `IdleTotal` and `NonIdleTotal`; one remainder for all additions of a sum.
unfoldable pub total : CpuTicks → ℕ
total c = (c.user + c.nice + c.system + c.idle + c.io_wait + c.irq + c.soft_irq + c.steal) % 2 ^ 64

unfoldable pub idle_total : CpuTicks → ℕ
idle_total c = (c.idle + c.io_wait) % 2 ^ 64

unfoldable pub non_idle_total : CpuTicks → ℕ
non_idle_total c = (c.user + c.nice + c.system + c.irq + c.soft_irq + c.steal) % 2 ^ 64

pub record CoreUsage (F : Type 0) : Type 0 where
  pub id : Text
  pub total_usage : F
  pub user_usage : F
  pub system_usage : F
  pub io_wait_usage : F
  pub steal_usage : F

pub record CpuStats (F : Type 0) : Type 0 where
  pub timestamp : Instant
  pub total_usage : F
  pub user_usage : F
  pub system_usage : F
  pub io_wait_usage : F
  pub cores : List (CoreUsage F)

pub record MemStats (F : Type 0) : Type 0 where
  pub timestamp : Instant
  pub total_bytes : ℕ
  pub free_bytes : ℕ
  pub available_bytes : ℕ
  pub buffers_bytes : ℕ
  pub cached_bytes : ℕ
  pub used_bytes : ℕ
  pub used_percent : F
  pub swap_total_bytes : ℕ
  pub swap_free_bytes : ℕ
  pub swap_used_bytes : ℕ
  pub swap_used_percent : F

pub record RawDiskStats : Type 0 where
  pub major : ℤ
  pub minor : ℤ
  pub device_name : Text
  pub reads_completed : ℕ
  pub reads_merged : ℕ
  pub sectors_read : ℕ
  pub read_time_ms : ℕ
  pub writes_completed : ℕ
  pub writes_merged : ℕ
  pub sectors_written : ℕ
  pub write_time_ms : ℕ
  pub io_in_progress : ℕ
  pub io_time_ms : ℕ
  pub weighted_io_time : ℕ

pub record DiskDeviceStats (F : Type 0) : Type 0 where
  pub device : Text
  pub read_bytes : ℕ
  pub write_bytes : ℕ
  pub read_bytes_per_sec : F
  pub write_bytes_per_sec : F
  pub read_iops : F
  pub write_iops : F
  pub io_time_ms : ℕ

pub record DiskStats (F : Type 0) : Type 0 where
  pub timestamp : Instant
  pub total_read_bytes_per_sec : F
  pub total_write_bytes_per_sec : F
  pub total_read_iops : F
  pub total_write_iops : F
  pub devices : List (DiskDeviceStats F)

pub record RawNetStats : Type 0 where
  pub interface : Text
  pub rx_bytes : ℕ
  pub rx_packets : ℕ
  pub rx_errors : ℕ
  pub rx_drops : ℕ
  pub tx_bytes : ℕ
  pub tx_packets : ℕ
  pub tx_errors : ℕ
  pub tx_drops : ℕ

pub record NetInterfaceStats (F : Type 0) : Type 0 where
  pub name : Text
  pub rx_bytes : ℕ
  pub tx_bytes : ℕ
  pub rx_bytes_per_sec : F
  pub tx_bytes_per_sec : F
  pub rx_packets_per_sec : F
  pub tx_packets_per_sec : F
  pub rx_errors : ℕ
  pub tx_errors : ℕ
  pub rx_drops : ℕ
  pub tx_drops : ℕ

pub record NetStats (F : Type 0) : Type 0 where
  pub timestamp : Instant
  pub total_rx_bytes_per_sec : F
  pub total_tx_bytes_per_sec : F
  pub interfaces : List (NetInterfaceStats F)

pub record SystemSnapshot (F : Type 0) : Type 0 where
  pub timestamp : Instant
  pub cpu : CpuStats F
  pub memory : MemStats F
  pub disk : DiskStats F
  pub network : NetStats F
