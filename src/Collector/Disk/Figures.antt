-- ===== src/Collector/Disk/Figures.antt =====
-- The figures of `CalculateDiskStats` of internal/collector/disk.go.
use mathlib.Core.List.{Perm}
use sugi.Base.{◌≡◌, refl, ap₂, Option, none, some, List, [], ◌∷◌, map, All}
use sugi.Base.Text.{Text}
use sugi.Base.Dict.{lookup, value_or}
use sugi.Base.Sort.{
  AscendingTexts, sort_texts, sort_texts-AscendingTexts, sort_texts-Perm, AscendingTexts-map,
}
use sugi.Model.Time.{Instant, Duration}
use sugi.Model.Metrics.{RawDiskStats, DiskDeviceStats, DiskStats}
use sugi.Collector.Float.{Float64, FloatLaws, NotNeg, NotLeZero}
use sugi.Collector.Rates.{
  keys, elapsed_seconds, elapsed_seconds-NotLeZero, rate-NotNeg, zero-NotNeg, total_of-NotNeg,
}
use sugi.Collector.Disk.{
  DiskTable, no_disk, is_counted, idle_device, device_stats, devices_of, calculate_disk_stats,
  sector_bytes,
}

module _ (f : Float64) where
  open f use {F}

  device-device_stats :
      (prev : Option RawDiskStats) (secs : F) (name : Text) (curr : RawDiskStats)
      → (device_stats f secs name prev curr).device ≡ name
  unfolding device_stats idle_device
  device-device_stats none secs name curr = refl
  device-device_stats (some p) secs name curr = refl

  names-devices_of :
      (names : List Text) (secs : F) (prev curr : DiskTable)
      → map (λ (d : DiskDeviceStats F). d.device) (devices_of f secs prev curr names) ≡ names
  unfolding devices_of
  names-devices_of [] secs prev curr = refl
  names-devices_of (name ∷ names) secs prev curr =
      ap₂ (λ n ns. n ∷ ns)
        (device-device_stats (lookup name prev) secs name (value_or no_disk (lookup name curr)))
        (names-devices_of names secs prev curr)

  -- `CalculateDiskStats` returns one device for each entry of the current snapshot, in the order of
  -- their names.
  pub devices-AscendingTexts :
      (now : Instant) (prev curr : DiskTable) (duration : Duration)
      → let devices = (calculate_disk_stats f now prev curr duration).devices in
        AscendingTexts (λ d. d.device) devices × Perm (map (λ d. d.device) devices) (keys curr)
  unfolding calculate_disk_stats
  devices-AscendingTexts now prev curr duration =
      let names = sort_texts (λ name. name) (keys curr) in
      let same = names-devices_of names (elapsed_seconds f duration) prev curr in
      (
        AscendingTexts-map (λ d. d.device)
            (devices_of f (elapsed_seconds f duration) prev curr names)
            (rw same (sort_texts-AscendingTexts (λ name. name) (keys curr))),
        rw same (sort_texts-Perm (λ name. name) (keys curr)),
      )

module _ (f : Float64) (laws : FloatLaws f) where
  open f use {F}

  abbrev pub RatesNotNeg : DiskDeviceStats F → Type 0
  RatesNotNeg d =
      NotNeg f d.read_bytes_per_sec
      × NotNeg f d.write_bytes_per_sec
      × NotNeg f d.read_iops
      × NotNeg f d.write_iops

  abbrev pub TotalsNotNeg : DiskStats F → Type 0
  TotalsNotNeg s =
      NotNeg f s.total_read_bytes_per_sec
      × NotNeg f s.total_write_bytes_per_sec
      × NotNeg f s.total_read_iops
      × NotNeg f s.total_write_iops

  device_stats-RatesNotNeg :
      (prev : Option RawDiskStats) (secs : F) (name : Text) (curr : RawDiskStats)
      → NotLeZero f secs
      → RatesNotNeg (device_stats f secs name prev curr)
  unfolding device_stats idle_device
  device_stats-RatesNotNeg none secs name curr h = let z = zero-NotNeg f laws in (z, z, z, z)
  device_stats-RatesNotNeg (some p) secs name curr h = (
    rate-NotNeg f laws sector_bytes p.sectors_read curr.sectors_read secs h,
    rate-NotNeg f laws sector_bytes p.sectors_written curr.sectors_written secs h,
    rate-NotNeg f laws (λ n. n) p.reads_completed curr.reads_completed secs h,
    rate-NotNeg f laws (λ n. n) p.writes_completed curr.writes_completed secs h,
  )

  devices_of-RatesNotNeg :
      (names : List Text) (secs : F) (prev curr : DiskTable)
      → NotLeZero f secs
      → All RatesNotNeg (devices_of f secs prev curr names)
  unfolding devices_of
  devices_of-RatesNotNeg [] secs prev curr h = tt
  devices_of-RatesNotNeg (name ∷ names) secs prev curr h = (
    device_stats-RatesNotNeg (lookup name prev) secs name (value_or no_disk (lookup name curr)) h,
    devices_of-RatesNotNeg names secs prev curr h,
  )

  All-weaken :
      (P Q : DiskDeviceStats F → Type 0) (ds : List (DiskDeviceStats F))
      → ((d : DiskDeviceStats F) → P d → Q d)
      → All P ds
      → All Q ds
  All-weaken P Q [] imp h = tt
  All-weaken P Q (d ∷ ds) imp h = (imp d h.0, All-weaken P Q ds imp h.1)

  -- Given FloatLaws, whatever the counters and the clock do, no rate of a device and no total is
  -- negative.
  pub calculate_disk_stats-NotNeg :
      (now : Instant) (prev curr : DiskTable) (duration : Duration)
      → let s = calculate_disk_stats f now prev curr duration in
        All RatesNotNeg s.devices × TotalsNotNeg s
  unfolding calculate_disk_stats
  calculate_disk_stats-NotNeg now prev curr duration =
      let names = sort_texts (λ name. name) (keys curr) in
      let secs = elapsed_seconds f duration in
      let ds = devices_of f secs prev curr names in
      let ok : All RatesNotNeg ds =
        devices_of-RatesNotNeg names secs prev curr (elapsed_seconds-NotLeZero f laws duration) in
      let total =
        λ (field : DiskDeviceStats F → F)
            (imp : (d : DiskDeviceStats F) → RatesNotNeg d → NotNeg f (field d)).
          total_of-NotNeg f laws (is_counted f) field ds
            (All-weaken RatesNotNeg (λ d. NotNeg f (field d)) ds imp ok) in
      (
        ok,
        (
          total (λ d. d.read_bytes_per_sec) (λ d h. h.0),
          total (λ d. d.write_bytes_per_sec) (λ d h. h.1),
          total (λ d. d.read_iops) (λ d h. h.2),
          total (λ d. d.write_iops) (λ d h. h.3),
        ),
      )
