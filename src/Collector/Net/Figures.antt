-- ===== src/Collector/Net/Figures.antt =====
-- The figures of `CalculateNetStats` of internal/collector/net.go.
use mathlib.Core.List.{Perm}
use sugi.Base.{◌≡◌, refl, ap₂, Option, none, some, List, [], ◌∷◌, map, All}
use sugi.Base.Text.{Text}
use sugi.Base.Dict.{lookup, value_or}
use sugi.Base.Sort.{
  AscendingTexts, sort_texts, sort_texts-AscendingTexts, sort_texts-Perm, AscendingTexts-map,
}
use sugi.Model.Time.{Instant, Duration}
use sugi.Model.Metrics.{RawNetStats, NetInterfaceStats, NetStats}
use sugi.Collector.Float.{Float64, FloatLaws, NotNeg, NotLeZero}
use sugi.Collector.Rates.{
  keys, elapsed_seconds, elapsed_seconds-NotLeZero, rate-NotNeg, zero-NotNeg, total_of-NotNeg,
}
use sugi.Collector.Net.{
  NetTable, no_net, is_outside, idle_interface, interface_stats, interfaces_of, calculate_net_stats,
}

module _ (f : Float64) where
  open f use {F}

  name-interface_stats :
      (prev : Option RawNetStats) (secs : F) (name : Text) (curr : RawNetStats)
      → (interface_stats f secs name prev curr).name ≡ name
  unfolding interface_stats idle_interface
  name-interface_stats none secs name curr = refl
  name-interface_stats (some p) secs name curr = refl

  names-interfaces_of :
      (names : List Text) (secs : F) (prev curr : NetTable)
      → map (λ (i : NetInterfaceStats F). i.name) (interfaces_of f secs prev curr names) ≡ names
  unfolding interfaces_of
  names-interfaces_of [] secs prev curr = refl
  names-interfaces_of (name ∷ names) secs prev curr =
      ap₂ (λ n ns. n ∷ ns)
        (name-interface_stats (lookup name prev) secs name (value_or no_net (lookup name curr)))
        (names-interfaces_of names secs prev curr)

  -- `CalculateNetStats` returns one interface for each entry of the current snapshot, in the order
  -- of their names.
  pub interfaces-AscendingTexts :
      (now : Instant) (prev curr : NetTable) (duration : Duration)
      → let interfaces = (calculate_net_stats f now prev curr duration).interfaces in
        AscendingTexts (λ i. i.name) interfaces × Perm (map (λ i. i.name) interfaces) (keys curr)
  unfolding calculate_net_stats
  interfaces-AscendingTexts now prev curr duration =
      let names = sort_texts (λ name. name) (keys curr) in
      let same = names-interfaces_of names (elapsed_seconds f duration) prev curr in
      (
        AscendingTexts-map (λ i. i.name)
            (interfaces_of f (elapsed_seconds f duration) prev curr names)
            (rw same (sort_texts-AscendingTexts (λ name. name) (keys curr))),
        rw same (sort_texts-Perm (λ name. name) (keys curr)),
      )

module _ (f : Float64) (laws : FloatLaws f) where
  open f use {F}

  abbrev pub SpeedsNotNeg : NetInterfaceStats F → Type 0
  SpeedsNotNeg i =
      NotNeg f i.rx_bytes_per_sec
      × NotNeg f i.tx_bytes_per_sec
      × NotNeg f i.rx_packets_per_sec
      × NotNeg f i.tx_packets_per_sec

  abbrev pub SumsNotNeg : NetStats F → Type 0
  SumsNotNeg s = NotNeg f s.total_rx_bytes_per_sec × NotNeg f s.total_tx_bytes_per_sec

  interface_stats-SpeedsNotNeg :
      (prev : Option RawNetStats) (secs : F) (name : Text) (curr : RawNetStats)
      → NotLeZero f secs
      → SpeedsNotNeg (interface_stats f secs name prev curr)
  unfolding interface_stats idle_interface
  interface_stats-SpeedsNotNeg none secs name curr h = let z = zero-NotNeg f laws in (z, z, z, z)
  interface_stats-SpeedsNotNeg (some p) secs name curr h = (
    rate-NotNeg f laws (λ n. n) p.rx_bytes curr.rx_bytes secs h,
    rate-NotNeg f laws (λ n. n) p.tx_bytes curr.tx_bytes secs h,
    rate-NotNeg f laws (λ n. n) p.rx_packets curr.rx_packets secs h,
    rate-NotNeg f laws (λ n. n) p.tx_packets curr.tx_packets secs h,
  )

  interfaces_of-SpeedsNotNeg :
      (names : List Text) (secs : F) (prev curr : NetTable)
      → NotLeZero f secs
      → All SpeedsNotNeg (interfaces_of f secs prev curr names)
  unfolding interfaces_of
  interfaces_of-SpeedsNotNeg [] secs prev curr h = tt
  interfaces_of-SpeedsNotNeg (name ∷ names) secs prev curr h = (
    interface_stats-SpeedsNotNeg (lookup name prev) secs name (value_or no_net (lookup name curr))
        h,
    interfaces_of-SpeedsNotNeg names secs prev curr h,
  )

  All-weaker :
      (P Q : NetInterfaceStats F → Type 0) (is : List (NetInterfaceStats F))
      → ((i : NetInterfaceStats F) → P i → Q i)
      → All P is
      → All Q is
  All-weaker P Q [] imp h = tt
  All-weaker P Q (i ∷ is) imp h = (imp i h.0, All-weaker P Q is imp h.1)

  -- Given FloatLaws, whatever the counters and the clock do, no rate of an interface and no total
  -- is negative.
  pub calculate_net_stats-NotNeg :
      (now : Instant) (prev curr : NetTable) (duration : Duration)
      → let s = calculate_net_stats f now prev curr duration in
        All SpeedsNotNeg s.interfaces × SumsNotNeg s
  unfolding calculate_net_stats
  calculate_net_stats-NotNeg now prev curr duration =
      let names = sort_texts (λ name. name) (keys curr) in
      let secs = elapsed_seconds f duration in
      let is = interfaces_of f secs prev curr names in
      let ok : All SpeedsNotNeg is =
        interfaces_of-SpeedsNotNeg names secs prev curr
          (elapsed_seconds-NotLeZero f laws duration) in
      let total =
        λ (field : NetInterfaceStats F → F)
            (imp : (i : NetInterfaceStats F) → SpeedsNotNeg i → NotNeg f (field i)).
          total_of-NotNeg f laws (is_outside f) field is
            (All-weaker SpeedsNotNeg (λ i. NotNeg f (field i)) is imp ok) in
      (
        ok,
        (
          total (λ i. i.rx_bytes_per_sec) (λ i h. h.0),
          total (λ i. i.tx_bytes_per_sec) (λ i h. h.1),
        ),
      )
