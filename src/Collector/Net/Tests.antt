-- ===== src/Collector/Net/Tests.antt =====
-- Network throughput at concrete files and snapshots.
use sugi.Base.{◌≡◌, refl, ◌*◌, false, none, some, List, [], ◌∷◌}
use sugi.Base.Int.{negsuc}
use sugi.Base.Text.{codes, text_eq}
use sugi.Base.Dict.{lookup}
use sugi.Base.Result.{ok}
use sugi.Model.Time.{zero_time}
use sugi.Model.Metrics.{RawNetStats}
use sugi.Collector.Fixed.{fixed, unit}
use sugi.Collector.Scan.{Reader, scan_lines, parse_uint}
use sugi.Collector.Rounds.{Round}
use sugi.Collector.Net.{
  NetTable, NetCollector, no_net, parse_proc_net_dev, net_lines, calculate_net_stats,
}

abbrev net_dev : Reader
net_dev = record {
  text =
      codes
        "Inter-| Receive\n  lo: 900 9 0 0 0 0 0 0 900 9 0 0 0 0 0 0\neth0:300 3 1 2 0 0 0 0 40 4 5 6 0 0 0 0\nbad: 1\n";
  failed = false;
}

abbrev lo : RawNetStats
lo = record no_net {
  interface = codes "lo";
  rx_bytes = 900;
  rx_packets = 9;
  tx_bytes = 900;
  tx_packets = 9;
}

abbrev eth0 : RawNetStats
eth0 = record {
  interface = codes "eth0";
  rx_bytes = 300;
  rx_packets = 3;
  rx_errors = 1;
  rx_drops = 2;
  tx_bytes = 40;
  tx_packets = 4;
  tx_errors = 5;
  tx_drops = 6;
}

abbrev table : NetTable
table = (codes "lo", lo) ∷ (codes "eth0", eth0) ∷ []

parse_net_dev : parse_proc_net_dev net_dev ≡ ok table
unfolding parse_proc_net_dev scan_lines net_lines text_eq parse_uint
parse_net_dev = refl

abbrev before : NetTable
before =
    (codes "lo", record lo { rx_bytes = 100 }) ∷ (codes "eth0", record eth0 { rx_bytes = 100 }) ∷ []

-- The clock has gone back, so the rate is over one second; the traffic of "lo" does not count.
eth0_in_total :
    (calculate_net_stats fixed zero_time before table (negsuc 5)).total_rx_bytes_per_sec
    ≡ 200 * unit
unfolding calculate_net_stats lookup text_eq
eth0_in_total = refl

abbrev rounds : List Round
rounds = (some net_dev, zero_time) ∷ (none, zero_time) ∷ []

abbrev start : NetCollector
start = record { last_stats = none; last_time = zero_time }
