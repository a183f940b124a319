-- ===== src/Collector/Mem/Accounts.antt =====
-- The figures of internal/collector/mem.go add up.
use sugi.Base.{ℕ, ◌+◌, ◌%◌, ◌^◌, ◌<◌, ◌≡◌, ◌⊎◌, arith, Option, []}
use sugi.Base.Text.{codes}
use sugi.Base.Dict.{lookup}
use sugi.Base.Result.{ok, ok_of_if}
use sugi.Model.Time.{Instant}
use sugi.Model.Metrics.{MemStats}
use sugi.Collector.Float.{Float64}
use sugi.Collector.Mem.{
  RawKb, scan_failed, no_metrics, bytes_of, used_and_available, swap_stats, mem_stats,
  parse_proc_meminfo, meminfo_lines,
}
use sugi.Collector.Scan.{Reader, scan_lines}

-- Used and available memory make up the total; a kernel that reports more available than there is
-- leaves nothing used.
abbrev pub Splits : ℕ → ℕ → ℕ → Type 0
Splits used rest total = (used + rest ≡ total) ⊎ ((used ≡ 0) × (total < rest))

pub record Accounts {F : Type 0} (s : MemStats F) : Type 0 where
  pub positive : 0 < s.total_bytes
  pub memory : Splits s.used_bytes s.available_bytes s.total_bytes
  pub swap : Splits s.swap_used_bytes s.swap_free_bytes s.swap_total_bytes

used_and_available-Splits :
    (total non_used : ℕ) (avail : Option ℕ)
    → let (used, available) = used_and_available total avail non_used in Splits used available total
unfolding used_and_available
used_and_available-Splits total non_used avail = ground arith

module _ (f : Float64) where
  open f use {F}

  swap_stats-Splits :
      (total_kb free_kb : Option ℕ)
      → let (total, free, used, percent) = swap_stats f total_kb free_kb in Splits used free total
  unfolding swap_stats
  swap_stats-Splits total_kb free_kb = ground arith

  mem_stats-Accounts :
      (raw : RawKb) (now : Instant) {s : MemStats F} → mem_stats f raw now ≡ ok s → Accounts s
  unfolding mem_stats
  mem_stats-Accounts raw now {s} e = ground (
    arith,
    used_and_available-Splits (bytes_of (lookup (codes "MemTotal") raw))
        ((bytes_of (lookup (codes "MemFree") raw)
            + bytes_of (lookup (codes "Buffers") raw)
            + bytes_of (lookup (codes "Cached") raw))
          % 2 ^ 64)
        (lookup (codes "MemAvailable") raw),
    swap_stats-Splits (lookup (codes "SwapTotal") raw) (lookup (codes "SwapFree") raw),
  )

  -- Whatever the file says, in the record that `ParseProcMeminfo` returns without an error the
  -- total is positive, used and available memory make up the total unless more is available than
  -- there is, and then nothing counts as used; and so for the swap space.
  pub parse_proc_meminfo-Accounts :
      (r : Reader) (now : Instant) {s : MemStats F} → parse_proc_meminfo f r now ≡ ok s → Accounts s
  unfolding parse_proc_meminfo
  parse_proc_meminfo-Accounts r now e =
      let raw = meminfo_lines (scan_lines r).0 [] in
      mem_stats-Accounts raw now
        (ok_of_if _ no_metrics _ (ok_of_if (scan_lines r).1 scan_failed _ e).1).1
