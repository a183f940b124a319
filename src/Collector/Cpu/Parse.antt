-- ===== src/Collector/Cpu/Parse.antt =====
-- What `ParseProcStat` of internal/collector/cpu.go returns.
use sugi.Base.{
  ℕ, ◌^◌, ◌<◌, ◌≤◌, ◌≡◌, ◌≢◌, refl, Bool, true, false, not, ◌&&◌, ◌||◌, arith, List, [], ◌∷◌, ◌++◌,
  All, length, get_or, ltb, ◌==◌, if◌then◌else◌, subst, Bool-cases, inl, inr,
}
use sugi.Base.Text.{Text, codes, text_eq, has_prefix, fields}
use sugi.Base.Dict.{All-insert}
use sugi.Base.Result.{ok, err}
use sugi.Model.Metrics.{CpuTicks}
use sugi.Collector.Scan.{Reader, scan_lines, parse_uint, parse_uint-lt, parsed}
use sugi.Collector.Cpu.{
  Ticks, aggregate, is_core_label, parse_field, ticks_of, stat_line, stat_lines, parse_proc_stat,
  scan_failed, no_metrics,
}

-- Every counter is a uint64.
pub record InWord (t : CpuTicks) : Type 0 where
  pub user_lt : t.user < 2 ^ 64
  pub nice_lt : t.nice < 2 ^ 64
  pub system_lt : t.system < 2 ^ 64
  pub idle_lt : t.idle < 2 ^ 64
  pub io_wait_lt : t.io_wait < 2 ^ 64
  pub irq_lt : t.irq < 2 ^ 64
  pub soft_irq_lt : t.soft_irq < 2 ^ 64
  pub steal_lt : t.steal < 2 ^ 64
  pub guest_lt : t.guest < 2 ^ 64
  pub guest_nice_lt : t.guest_nice < 2 ^ 64

-- An entry stands under its own label, which is "cpu" or that of a core, and holds uint64 counters.
abbrev pub Labelled : Text × CpuTicks → Type 0
Labelled (id, t) = (t.id ≡ id) × ((text_eq id aggregate || is_core_label id) ≡ true) × InWord t

parse_field-lt : (fs : List Text) (i : ℕ) → parse_field fs i < 2 ^ 64
unfolding parse_field
parse_field-lt fs i = ground (arith, parse_uint-lt (get_or fs i []))

ticks_of-InWord : (fs : List Text) → InWord (ticks_of fs)
unfolding ticks_of
ticks_of-InWord fs = record {
  user_lt = parse_field-lt fs 1;
  nice_lt = parse_field-lt fs 2;
  system_lt = parse_field-lt fs 3;
  idle_lt = parse_field-lt fs 4;
  io_wait_lt = parse_field-lt fs 5;
  irq_lt = parse_field-lt fs 6;
  soft_irq_lt = parse_field-lt fs 7;
  steal_lt = parse_field-lt fs 8;
  guest_lt = parse_field-lt fs 9;
  guest_nice_lt = parse_field-lt fs 10;
}

id-ticks_of : (fs : List Text) → (ticks_of fs).id ≡ get_or fs 0 []
unfolding ticks_of
id-ticks_of fs = refl

-- The test of the label, as the code writes it.
labels : (a b : Bool) → (not a && not b) ≡ false → (a || b) ≡ true
labels true b h = refl
labels false true h = refl
labels false false h = cc

stat_line-Labelled : (line : Text) (m : Ticks) → All Labelled m → All Labelled (stat_line line m)
unfolding stat_line
stat_line-Labelled line m h = elim (Bool-cases (has_prefix line aggregate)) [
  | inr other ↦ rw other h
  | inl cpu ↦ rw cpu (elim (Bool-cases (ltb (length (fields line)) 5)) [
    | inl short ↦ rw short h
    | inr long ↦ rw long (elim (Bool-cases (not (text_eq id aggregate) && not (is_core_label id))) [
      | inl odd ↦ rw odd h
      | inr fine ↦ rw fine (
          All-insert Labelled id (ticks_of fs) m
            (
              id-ticks_of fs,
              labels (text_eq id aggregate) (is_core_label id) fine,
              ticks_of-InWord fs,
            )
            h)
    ])
  ])
]
  where
    fs : List Text
    fs = fields line

    id : Text
    id = get_or fs 0 []

stat_lines-Labelled :
    (lines : List Text) (m : Ticks) → All Labelled m → All Labelled (stat_lines lines m)
unfolding stat_lines
stat_lines-Labelled [] m h = h
stat_lines-Labelled (line ∷ lines) m h =
    stat_lines-Labelled lines (stat_line line m) (stat_line-Labelled line m h)

finish :
    (failed : Bool) (result : Ticks) {m : Ticks}
    → All Labelled result
    → (if failed then err scan_failed else if length result == 0 then err no_metrics else ok result)
      ≡ ok m
    → All Labelled m × (m ≢ [])
finish true result h e = cc
finish false [] h e = cc
finish false (x ∷ xs) {m} h e =
    let k : x ∷ xs ≡ m = ground arith in (subst (All Labelled) k h, rw (← k) (λ z. cc))

-- What `ParseProcStat` returns without an error is not empty, and each of its entries stands under
-- its own label, which is "cpu" or passes `isCoreLabel`, with counters that fit 64 bits.
pub parse_proc_stat-Labelled :
    (r : Reader) {m : Ticks} → parse_proc_stat r ≡ ok m → All Labelled m × (m ≢ [])
unfolding parse_proc_stat
parse_proc_stat-Labelled r {m} e =
    let (lines, failed) = scan_lines r in
    finish failed (stat_lines lines []) (stat_lines-Labelled lines [] tt) e

-- A label with a minus sign before its digits passes `isCoreLabel`.
pub is_core_label-signed :
    (s : Text) {n : ℕ}
    → parse_uint s ≡ parsed n
    → n ≤ 2 ^ 63
    → is_core_label (codes "cpu-" ++ s) ≡ true
unfolding is_core_label
is_core_label-signed s {n} e h = ground (arith, e)
