-- ===== src/Collector/Net.antt =====
-- internal/collector/net.go: network throughput from /proc/net/dev. `Collect` calls
-- `CalculateNetStats`, whose own reading of the clock it overwrites.
pub mod Figures
pub mod Collect
mod Tests
use sugi.Base.{
  ℕ, not, Bool, Option, none, some, List, [], ◌∷◌, if◌then◌else◌, ltb, length, get_or, map,
}
use sugi.Base.Text.{Text, codes, text_eq, fields, trim_space, cut_at}
use sugi.Base.Dict.{lookup, insert, value_or}
use sugi.Base.Result.{Result, ok, err}
use sugi.Base.Sort.{sort_texts}
use sugi.Model.Time.{Instant, Duration, time_sub}
use sugi.Model.Metrics.{RawNetStats, NetInterfaceStats, NetStats}
use sugi.Collector.Scan.{Reader, scan_lines, parse_uint, or_zero}
use sugi.Collector.Float.{Float64}
use sugi.Collector.Rates.{keys, elapsed_seconds, rate, total_of}

abbrev pub NetTable : Type 0
NetTable = List (Text × RawNetStats)

pub data NetError : Type 0 where
  open_failed scan_failed : NetError

-- The closure `parseUint` of `ParseProcNetDev`; its caller has checked that there is such a field.
abbrev pub counter : List Text → ℕ → ℕ
counter fs idx = or_zero (parse_uint (get_or fs idx []))

unfoldable pub net_of : Text → List Text → RawNetStats
net_of iface fs = record {
  interface = iface;
  rx_bytes = counter fs 0;
  rx_packets = counter fs 1;
  rx_errors = counter fs 2;
  rx_drops = counter fs 3;
  tx_bytes = counter fs 8;
  tx_packets = counter fs 9;
  tx_errors = counter fs 10;
  tx_drops = counter fs 11;
}

-- One round of the loop of `ParseProcNetDev`.
unfoldable pub net_line : Text → NetTable → NetTable
unfolding cut_at trim_space fields net_of insert
net_line line result = elim (cut_at b':' line) [
  | none ↦ result
  | some (before, after) ↦
      let iface = trim_space before in
      let fs = fields (trim_space after) in
      if ltb (length fs) 16 then result else insert iface (net_of iface fs) result
]

unfoldable pub net_lines : List Text → NetTable → NetTable
unfolding net_line
net_lines [] result = result
net_lines (line ∷ lines) result = net_lines lines (net_line line result)

-- `ParseProcNetDev`.
unfoldable pub parse_proc_net_dev : Reader → Result NetError NetTable
unfolding scan_lines net_lines
parse_proc_net_dev r =
    let (lines, failed) = scan_lines r in
    if failed then err scan_failed else ok (net_lines lines [])

-- What a map gives for a missing key.
abbrev pub no_net : RawNetStats
no_net = record {
  interface = [];
  rx_bytes = 0;
  rx_packets = 0;
  rx_errors = 0;
  rx_drops = 0;
  tx_bytes = 0;
  tx_packets = 0;
  tx_errors = 0;
  tx_drops = 0;
}

module _ (f : Float64) where
  open f use {F, of_uint}

  -- An interface without rates.
  unfoldable pub idle_interface : Text → RawNetStats → NetInterfaceStats F
  idle_interface name iface = record {
    name = name;
    rx_bytes = iface.rx_bytes;
    tx_bytes = iface.tx_bytes;
    rx_bytes_per_sec = of_uint 0;
    tx_bytes_per_sec = of_uint 0;
    rx_packets_per_sec = of_uint 0;
    tx_packets_per_sec = of_uint 0;
    rx_errors = iface.rx_errors;
    tx_errors = iface.tx_errors;
    rx_drops = iface.rx_drops;
    tx_drops = iface.tx_drops;
  }

  -- One round of the loop of `CalculateNetStats`.
  unfoldable pub interface_stats : F → Text → Option RawNetStats → RawNetStats → NetInterfaceStats F
  unfolding idle_interface rate
  interface_stats secs name none curr = idle_interface name curr
  interface_stats secs name (some prev) curr = record (idle_interface name curr) {
    rx_bytes_per_sec = rate f (λ n. n) prev.rx_bytes curr.rx_bytes secs;
    tx_bytes_per_sec = rate f (λ n. n) prev.tx_bytes curr.tx_bytes secs;
    rx_packets_per_sec = rate f (λ n. n) prev.rx_packets curr.rx_packets secs;
    tx_packets_per_sec = rate f (λ n. n) prev.tx_packets curr.tx_packets secs;
  }

  unfoldable pub interfaces_of : F → NetTable → NetTable → List Text → List (NetInterfaceStats F)
  unfolding interface_stats lookup
  interfaces_of secs prev curr [] = []
  interfaces_of secs prev curr (name ∷ names) =
      interface_stats secs name (lookup name prev) (value_or no_net (lookup name curr))
      ∷ interfaces_of secs prev curr names

  -- The totals leave out the loopback interface.
  abbrev pub is_outside : NetInterfaceStats F → Bool
  is_outside i = not (text_eq i.name (codes "lo"))

  -- `CalculateNetStats` at the time `now`.
  unfoldable pub calculate_net_stats : Instant → NetTable → NetTable → Duration → NetStats F
  unfolding interfaces_of elapsed_seconds total_of sort_texts keys text_eq
  calculate_net_stats now prev curr duration =
      let interfaces =
        interfaces_of (elapsed_seconds f duration) prev curr
          (sort_texts (λ name. name) (keys curr)) in
      record {
        timestamp = now;
        total_rx_bytes_per_sec = total_of f is_outside (λ i. i.rx_bytes_per_sec) interfaces;
        total_tx_bytes_per_sec = total_of f is_outside (λ i. i.tx_bytes_per_sec) interfaces;
        interfaces = interfaces;
      }

-- `NetCollector`; `none` is the nil map before the first snapshot.
pub record NetCollector : Type 0 where
  pub last_stats : Option NetTable
  pub last_time : Instant

module _ (f : Float64) where
  open f use {F, of_uint}

  -- What `Collect` returns for a table that was read at the time `now`.
  unfoldable pub net_stats_after : NetCollector → NetTable → Instant → NetStats F
  unfolding calculate_net_stats idle_interface sort_texts time_sub
  net_stats_after n curr now = elim n.last_stats [
    | none ↦ record {
      timestamp = now;
      total_rx_bytes_per_sec = of_uint 0;
      total_tx_bytes_per_sec = of_uint 0;
      interfaces =
          sort_texts (λ i. i.name) (map (λ (name, iface). idle_interface f name iface) curr);
    }
    | some prev ↦ calculate_net_stats f now prev curr (time_sub now n.last_time)
  ]

  unfoldable pub net_after_parse :
      Result NetError NetTable
      → Instant
      → NetCollector
      → Result NetError (NetStats F) × NetCollector
  unfolding net_stats_after
  net_after_parse (err e) now n = (err e, n)
  net_after_parse (ok curr) now n =
      (ok (net_stats_after n curr now), record { last_stats = some curr; last_time = now })

  -- `Collect`; the argument is what `fs.Open("net/dev")` returns.
  unfoldable pub collect_net :
      Option Reader → Instant → NetCollector → Result NetError (NetStats F) × NetCollector
  unfolding net_after_parse parse_proc_net_dev
  collect_net none now n = (err open_failed, n)
  collect_net (some file) now n = net_after_parse (parse_proc_net_dev file) now n
