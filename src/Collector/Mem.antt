-- ===== src/Collector/Mem.antt =====
-- internal/collector/mem.go: memory figures from /proc/meminfo. The partly filled record that
-- `ParseProcMeminfo` returns beside an error is left out; no caller reads it.
pub mod Accounts
mod Tests
use sugi.Base.{
  ℕ, ◌+◌, ◌-◌, ◌*◌, ◌%◌, ◌^◌, ◌||◌, Bool, true, false, Option, none, some, List, [], ◌∷◌,
  if◌then◌else◌, ltb, leb, ◌==◌, length,
}
use sugi.Base.Text.{Text, codes, trim_space, fields, cut_at}
use sugi.Base.Dict.{lookup, insert, value_or}
use sugi.Base.Result.{Result, ok, err}
use sugi.Model.Time.{Instant}
use sugi.Model.Metrics.{MemStats}
use sugi.Collector.Scan.{Reader, scan_lines, parse_uint, Parsed, parsed, syntax, out_of_range}
use sugi.Collector.Float.{Float64, round_float, clamp_percentage}

abbrev pub RawKb : Type 0
RawKb = List (Text × ℕ)

pub data MemError : Type 0 where
  open_failed scan_failed no_metrics no_total : MemError

-- What a line behind its key adds to the map.
abbrev pub add_value : Text → List Text → RawKb → RawKb
add_value key [] raw = raw
add_value key (v ∷ vs) raw = elim (parse_uint v) [
  | parsed n ↦ insert key n raw
  | syntax ↦ raw
  | out_of_range n ↦ raw
]

-- One round of the loop of `ParseProcMeminfo`.
unfoldable pub meminfo_line : Text → RawKb → RawKb
unfolding cut_at trim_space fields parse_uint insert
meminfo_line line raw = elim (cut_at b':' line) [
  | none ↦ raw
  | some (before, after) ↦ add_value (trim_space before) (fields (trim_space after)) raw
]

unfoldable pub meminfo_lines : List Text → RawKb → RawKb
unfolding meminfo_line
meminfo_lines [] raw = raw
meminfo_lines (line ∷ lines) raw = meminfo_lines lines (meminfo_line line raw)

-- `rawKB[key] * kbToBytes`, a uint64 product.
unfoldable pub bytes_of : Option ℕ → ℕ
bytes_of kb = (value_or 0 kb * 1024) % 2 ^ 64

-- `UsedBytes` and `AvailableBytes`, from the total, `MemAvailable` and the sum of the bytes that an
-- older kernel reports as free, buffers and cached.
unfoldable pub used_and_available : ℕ → Option ℕ → ℕ → ℕ × ℕ
unfolding bytes_of
used_and_available total avail non_used =
    if ltb 0 (value_or 0 avail)
    then (let available = bytes_of avail in
        (if leb available total then total - available else 0, available))
    else if leb non_used total
    then (total - non_used, non_used)
    else (0, total)

module _ (f : Float64) where
  open f use {F, of_uint, mul, div}

  unfoldable pub percent_of : ℕ → ℕ → F
  unfolding round_float clamp_percentage
  percent_of part whole =
      clamp_percentage f (round_float f (mul (div (of_uint part) (of_uint whole)) (of_uint 100)) 2)

  -- `SwapTotalBytes`, `SwapFreeBytes`, `SwapUsedBytes` and `SwapUsedPercent`.
  unfoldable pub swap_stats : Option ℕ → Option ℕ → ℕ × ℕ × ℕ × F
  swap_stats total_kb free_kb =
      if ltb 0 (value_or 0 total_kb)
      then (let total = bytes_of total_kb in
          let free = bytes_of free_kb in
          if leb free total
          then (total, free, total - free, percent_of (total - free) total)
          else (total, free, 0, of_uint 0))
      else (0, 0, 0, of_uint 0)

  -- The part of `ParseProcMeminfo` behind its loop.
  unfoldable pub mem_stats : RawKb → Instant → Result MemError (MemStats F)
  mem_stats raw now =
      let total = bytes_of (lookup (codes "MemTotal") raw) in
      let free = bytes_of (lookup (codes "MemFree") raw) in
      let buffers = bytes_of (lookup (codes "Buffers") raw) in
      let cached = bytes_of (lookup (codes "Cached") raw) in
      let (used, available) =
        used_and_available total (lookup (codes "MemAvailable") raw)
          ((free + buffers + cached) % 2 ^ 64) in
      let (swap_total, swap_free, swap_used, swap_percent) =
        swap_stats (lookup (codes "SwapTotal") raw) (lookup (codes "SwapFree") raw) in
      if total == 0
      then err no_total
      else ok (record {
        timestamp = now;
        total_bytes = total;
        free_bytes = free;
        available_bytes = available;
        buffers_bytes = buffers;
        cached_bytes = cached;
        used_bytes = used;
        used_percent = percent_of used total;
        swap_total_bytes = swap_total;
        swap_free_bytes = swap_free;
        swap_used_bytes = swap_used;
        swap_used_percent = swap_percent;
      })

  -- `ParseProcMeminfo`.
  unfoldable pub parse_proc_meminfo : Reader → Instant → Result MemError (MemStats F)
  parse_proc_meminfo r now =
      let (lines, failed) = scan_lines r in
      let raw = meminfo_lines lines [] in
      if failed
      then err scan_failed
      else if length raw == 0
      then err no_metrics
      else mem_stats raw now

  -- `Collect`; the argument is what `fs.Open("meminfo")` returns.
  unfoldable pub collect_mem : Option Reader → Instant → Result MemError (MemStats F)
  collect_mem none now = err open_failed
  collect_mem (some file) now = parse_proc_meminfo file now
