-- ===== src/Collector.antt =====
-- internal/collector: the collectors of metrics from /proc.
pub mod Float
pub mod Fixed
pub mod Scan
pub mod Reader
pub mod Cpu
pub mod Mem
pub mod Rates
pub mod Rounds
pub mod Disk
pub mod Net
pub mod Harvester
