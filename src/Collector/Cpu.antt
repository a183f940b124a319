-- ===== src/Collector/Cpu.antt =====
-- internal/collector/cpu.go: CPU usage from /proc/stat. Iteration over a map is in the order of its
-- association list; `sort.Slice` is a stable sort here, which the code does not rely on.
pub mod Parse
pub mod Usage
pub mod Order
pub mod Collect
mod Tests
use sugi.Base.{
  ℕ, zero, suc, ◌+◌, ◌-◌, ◌%◌, ◌^◌, ◌||◌, ◌&&◌, not, Bool, true, false, Option, none, some, List,
  [], ◌∷◌, ◌++◌, if◌then◌else◌, ltb, leb, ◌==◌, length, get_or, drop, map,
}
use sugi.Base.Int.{ℤ, pos, negsuc, ltb_ℤ}
use sugi.Base.Text.{Text, codes, text_eq, has_prefix, fields}
use sugi.Base.Dict.{lookup, insert}
use sugi.Base.Result.{Result, ok, err}
use sugi.Model.Time.{Instant}
use sugi.Model.Metrics.{CpuTicks, CoreUsage, CpuStats, total, idle_total}
use sugi.Collector.Scan.{
  Reader, scan_lines, parse_uint, or_zero, atoi, Parsed, parsed, syntax, out_of_range,
}
use sugi.Collector.Float.{Float64, round_float, clamp_percentage}

abbrev pub Ticks : Type 0
Ticks = List (Text × CpuTicks)

pub data CollectError : Type 0 where
  open_failed scan_failed no_metrics : CollectError

abbrev pub aggregate : Text
aggregate = codes "cpu"

abbrev pub is_parsed : Parsed ℤ → Bool
is_parsed (parsed n) = true
is_parsed syntax = false
is_parsed (out_of_range n) = false

-- `isCoreLabel`.
unfoldable pub is_core_label : Text → Bool
unfolding atoi has_prefix
is_core_label s =
    if not (has_prefix s aggregate) || leb (length s) 3 then false else is_parsed (atoi (drop 3 s))

abbrev pub index_or : Parsed ℤ → ℤ
index_or (parsed n) = n
index_or syntax = pos 999999
index_or (out_of_range n) = pos 999999

-- `coreIndex`.
unfoldable pub core_index : Text → ℤ
unfolding atoi
core_index s = if text_eq s aggregate then negsuc 0 else index_or (atoi (drop 3 s))

-- The closure `parseField` of `ParseProcStat`.
unfoldable pub parse_field : List Text → ℕ → ℕ
unfolding parse_uint
parse_field fs idx = if ltb idx (length fs) then or_zero (parse_uint (get_or fs idx [])) else 0

unfoldable pub ticks_of : List Text → CpuTicks
unfolding parse_field
ticks_of fs = record {
  id = get_or fs 0 [];
  user = parse_field fs 1;
  nice = parse_field fs 2;
  system = parse_field fs 3;
  idle = parse_field fs 4;
  io_wait = parse_field fs 5;
  irq = parse_field fs 6;
  soft_irq = parse_field fs 7;
  steal = parse_field fs 8;
  guest = parse_field fs 9;
  guest_nice = parse_field fs 10;
}

-- One round of the loop of `ParseProcStat`.
unfoldable pub stat_line : Text → Ticks → Ticks
unfolding is_core_label ticks_of fields insert
stat_line line result =
    if not (has_prefix line aggregate)
    then result
    else let fs = fields line in
      if ltb (length fs) 5
      then result
      else let id = get_or fs 0 [] in
        if not (text_eq id aggregate) && not (is_core_label id)
        then result
        else insert id (ticks_of fs) result

unfoldable pub stat_lines : List Text → Ticks → Ticks
unfolding stat_line
stat_lines [] result = result
stat_lines (line ∷ lines) result = stat_lines lines (stat_line line result)

-- `ParseProcStat`.
unfoldable pub parse_proc_stat : Reader → Result CollectError Ticks
unfolding scan_lines stat_lines
parse_proc_stat r =
    let (lines, failed) = scan_lines r in
    let result = stat_lines lines [] in
    if failed then err scan_failed else if length result == 0 then err no_metrics else ok result

-- A uint64 subtraction.
abbrev pub sub_uint64 : ℕ → ℕ → ℕ
sub_uint64 a b = (a + 2 ^ 64 - b) % 2 ^ 64

-- `deltaTotal` and `deltaIdle` of `calculateDelta`, as integers.
unfoldable pub delta_total : CpuTicks → CpuTicks → ℕ
delta_total prev curr = sub_uint64 (total curr) (total prev)

unfoldable pub delta_idle : CpuTicks → CpuTicks → ℕ
delta_idle prev curr = sub_uint64 (idle_total curr) (idle_total prev)

-- Sorting by `less` on a key, as `sort.Slice` is used.
unfoldable pub insert_by {ℓ} : {A : Type ℓ} → (A → ℤ) → A → List A → List A
insert_by key a [] = a ∷ []
insert_by key a (b ∷ bs) = if ltb_ℤ (key b) (key a) then b ∷ insert_by key a bs else a ∷ b ∷ bs

unfoldable pub sort_by {ℓ} : {A : Type ℓ} → (A → ℤ) → List A → List A
unfolding insert_by
sort_by key [] = []
sort_by key (a ∷ as') = insert_by key a (sort_by key as')

-- The keys of a map other than "cpu".
unfoldable pub core_ids : Ticks → List Text
core_ids [] = []
core_ids ((id, t) ∷ m) = if text_eq id aggregate then core_ids m else id ∷ core_ids m

module _ (f : Float64) where
  open f use {F, of_uint, sub, mul, div}

  abbrev pub no_usage : Text → CoreUsage F
  no_usage id = record {
    id = id;
    total_usage = of_uint 0;
    user_usage = of_uint 0;
    system_usage = of_uint 0;
    io_wait_usage = of_uint 0;
    steal_usage = of_uint 0;
  }

  -- `clampPercentage(roundFloat(ratio*100.0, 2))`.
  unfoldable pub percentage : F → F
  unfolding round_float clamp_percentage
  percentage ratio = clamp_percentage f (round_float f (mul ratio (of_uint 100)) 2)

  -- The share of one counter, 0 where it has gone back.
  unfoldable pub share : ℕ → ℕ → F → F
  unfolding percentage
  share prev curr elapsed =
      if leb prev curr then percentage (div (of_uint (sub_uint64 curr prev)) elapsed) else of_uint 0

  -- `calculateDelta`.
  unfoldable pub calculate_delta : CpuTicks → CpuTicks → CoreUsage F
  unfolding percentage share delta_total delta_idle total idle_total
  calculate_delta prev curr =
      if leb (total curr) (total prev)
      then no_usage curr.id
      else let elapsed = of_uint (delta_total prev curr) in
        let idle = of_uint (delta_idle prev curr) in
        record {
          id = curr.id;
          total_usage = percentage (div (sub elapsed idle) elapsed);
          user_usage = share prev.user curr.user elapsed;
          system_usage = share prev.system curr.system elapsed;
          io_wait_usage = share prev.io_wait curr.io_wait elapsed;
          steal_usage = share prev.steal curr.steal elapsed;
        }

  -- The usage of a key that both maps have.
  abbrev pub usage_of : Option CpuTicks → Option CpuTicks → Option (CoreUsage F)
  usage_of (some p) (some c) = some (calculate_delta p c)
  usage_of none c = none
  usage_of (some p) none = none

  abbrev pub add_usage : Option (CoreUsage F) → List (CoreUsage F) → List (CoreUsage F)
  add_usage none us = us
  add_usage (some u) us = u ∷ us

  -- The loop of `CalculateCPUUsage` over the sorted ids.
  unfoldable pub core_usages : Ticks → Ticks → List Text → List (CoreUsage F)
  unfolding calculate_delta
  core_usages prev curr [] = []
  core_usages prev curr (id ∷ ids) =
      add_usage (usage_of (lookup id prev) (lookup id curr)) (core_usages prev curr ids)

  abbrev pub aggregate_or_none : Option (CoreUsage F) → CoreUsage F
  aggregate_or_none none = no_usage []
  aggregate_or_none (some u) = u

  -- `CalculateCPUUsage` at the time `now`.
  unfoldable pub calculate_cpu_usage : Instant → Ticks → Ticks → CpuStats F
  unfolding core_usages sort_by core_ids
  calculate_cpu_usage now prev curr =
      let all = aggregate_or_none (usage_of (lookup aggregate prev) (lookup aggregate curr)) in
      record {
        timestamp = now;
        total_usage = all.total_usage;
        user_usage = all.user_usage;
        system_usage = all.system_usage;
        io_wait_usage = all.io_wait_usage;
        cores = core_usages prev curr (sort_by core_index (core_ids curr));
      }

-- `CpuCollector`; `none` is the nil map before the first snapshot.
pub record CpuCollector : Type 0 where
  pub last_ticks : Option Ticks
  pub last_time : Instant

module _ (f : Float64) where
  open f use {F, of_uint}

  -- The end of `Collect`, at the time `now`, with the ticks that were parsed.
  unfoldable pub stats_after : Option Ticks → Ticks → Instant → CpuStats F
  unfolding calculate_cpu_usage sort_by core_ids
  stats_after none curr now = record {
    timestamp = now;
    total_usage = of_uint 0;
    user_usage = of_uint 0;
    system_usage = of_uint 0;
    io_wait_usage = of_uint 0;
    cores = sort_by (λ u. core_index u.id) (map (no_usage f) (core_ids curr));
  }
  stats_after (some prev) curr now = calculate_cpu_usage f now prev curr

  -- `Collect` behind the parse.
  unfoldable pub after_parse :
      Result CollectError Ticks
      → Instant
      → CpuCollector
      → Result CollectError (CpuStats F) × CpuCollector
  after_parse (err e) now c = (err e, c)
  after_parse (ok curr) now c =
      (ok (stats_after c.last_ticks curr now), record { last_ticks = some curr; last_time = now })

  -- `Collect`; the argument is what `fs.Open("stat")` returns.
  unfoldable pub collect_cpu :
      Option Reader → Instant → CpuCollector → Result CollectError (CpuStats F) × CpuCollector
  collect_cpu none now c = (err open_failed, c)
  collect_cpu (some file) now c = after_parse (parse_proc_stat file) now c
