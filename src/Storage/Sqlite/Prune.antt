-- ===== src/Storage/Sqlite/Prune.antt =====
-- Retention in internal/storage/sqlite.go: which entries `PruneOldLogs` leaves in the log table.
use sugi.Base.{
  ◌==◌, zero, ap₂, leb, ℕ, suc, ◌+◌, ◌-◌, ◌*◌, ◌/◌, ◌%◌, ◌≤◌, ◌<◌, ◌≡◌, refl, ap, ◌∙◌, true, false,
  Option, none, some, List, [], ◌∷◌, ◌++◌, Bool-cases, inl, inr, arith, ltb,
}
use sugi.Base.Int.{ℤ, pos, negsuc, ltb_ℤ, sub_ℕ}
use sugi.Model.Time.{unix_milli, time_add, negate, second, millisecond}
use sugi.Storage.Sqlite.{Row, Engine}
use sugi.Storage.Sqlite.Reads.{
  QueryEngine, Deletes, rows_from, prune_old_logs, prune_threshold, after_delete,
}

-- Nanoseconds from 1970.
abbrev pub since_1970 : ℕ → ℕ → ℕ
since_1970 s nsec = s * second + nsec

unix_milli_pos :
    (n r : ℕ) → unix_milli (record { sec = pos n; nsec = r }) ≡ pos (1000 * n + r / millisecond)
unfolding unix_milli
unix_milli_pos n r =
    let p : leb 0 (1000 * n + r / millisecond) ≡ true = ground arith in
    rw p (
      ap pos
        (let q : 1000 * n + r / millisecond - 0 ≡ 1000 * n + r / millisecond = omega arith in q))

sub_sec :
    (a b r : ℕ)
    → b ≤ a
    → unix_milli (record { sec = sub_ℕ a b; nsec = r }) ≡ pos (1000 * (a - b) + r / millisecond)
sub_sec a b r h = let p : leb b a ≡ true = ground arith in rw p (unix_milli_pos (a - b) r)

no_retention :
    (s nsec : ℕ)
    → nsec < second
    → unix_milli (time_add (record { sec = pos s; nsec = nsec }) (pos 0))
      ≡ pos ((since_1970 s nsec - 0) / millisecond)
unfolding time_add
no_retention s nsec h =
    sub_sec (s + (nsec + 0) / second) 0 ((nsec + 0) % second) (omega arith)
    ∙ ap pos (
        let q : 1000 * (s + (nsec + 0) / second - 0) + (nsec + 0) % second / millisecond
            ≡ (since_1970 s nsec - 0) / millisecond =
          omega arith in
        q)

module _ (s nsec d : ℕ) (h : nsec < second) (k : suc d ≤ since_1970 s nsec) where
  same_second :
      suc d ≤ nsec
      → unix_milli (time_add (record { sec = pos s; nsec = nsec }) (negsuc d))
        ≡ pos ((since_1970 s nsec - suc d) / millisecond)
  unfolding time_add
  same_second m =
      let p : leb (suc d) nsec ≡ true = ground arith in
      rw p (
        unix_milli_pos s (nsec - suc d)
        ∙ ap pos (
            let q : 1000 * s + (nsec - suc d) / millisecond
                ≡ (since_1970 s nsec - suc d) / millisecond =
              omega arith in
            q))

  earlier_second :
      nsec < suc d
      → unix_milli (time_add (record { sec = pos s; nsec = nsec }) (negsuc d))
        ≡ pos ((since_1970 s nsec - suc d) / millisecond)
  unfolding time_add
  earlier_second m =
      let p : leb (suc d) nsec ≡ false = ground arith in
      let b = (suc d + second - 1 - nsec) / second in
      rw p (
        sub_sec (s + 0) (0 + b) (nsec + b * second - suc d) (omega arith)
        ∙ ap pos (
            let q : 1000 * (s + 0 - (0 + b)) + (nsec + b * second - suc d) / millisecond
                ≡ (since_1970 s nsec - suc d) / millisecond =
              omega arith in
            q))

negate-suc : (d : ℕ) → negate (pos (suc d)) ≡ negsuc d
negate-suc d =
    let p : (suc d == 0) ≡ false = ground arith in
    rw p (ap negsuc (let q : suc d - 1 ≡ d = omega arith in q))

-- The threshold at a clock that is behind 1970 by at least the retention.
threshold_of :
    (s nsec d : ℕ)
    → nsec < second
    → d ≤ since_1970 s nsec
    → prune_threshold (pos d) (record { sec = pos s; nsec = nsec })
      ≡ pos ((since_1970 s nsec - d) / millisecond)
unfolding prune_threshold
threshold_of s nsec zero h k = no_retention s nsec h
threshold_of s nsec (suc d) h k =
    ap (λ e. unix_milli (time_add (record { sec = pos s; nsec = nsec }) e)) (negate-suc d)
    ∙ elim (Bool-cases (leb (suc d) nsec)) [
      | inl same ↦ same_second s nsec d h k (ground arith)
      | inr earlier ↦ earlier_second s nsec d h k (ground arith)
    ]

rows_from-keeps :
    (ms : ℤ) (before after : List Row) (r : Row)
    → ltb_ℤ r.timestamp ms ≡ false
    → rows_from ms (before ++ r ∷ after) ≡ rows_from ms before ++ r ∷ rows_from ms after
rows_from-keeps ms [] after r h = rw h refl
rows_from-keeps ms (x ∷ before) after r h = elim (Bool-cases (ltb_ℤ x.timestamp ms)) [
  | inl old ↦ rw old (rows_from-keeps ms before after r h)
  | inr new ↦ rw new (ap (λ rs. x ∷ rs) (rows_from-keeps ms before after r h))
]

-- Some rows, then `r`, then some rows.
abbrev pub Holds : Row → List Row → Type 0
Holds r rows = (before : List Row) × (after : List Row) × (rows ≡ before ++ r ∷ after)

module _ (e : Engine) (q : QueryEngine e) (law : Deletes e q) where
  kept :
      (ms : ℤ) (db : e.Db) (r : Row) (result : Option (e.Db × Option ℤ))
      → q.delete_before ms db ≡ result
      → ltb_ℤ r.timestamp ms ≡ false
      → Holds r (e.rows db)
      → Holds r (e.rows (after_delete e q db result).1)
  kept ms db r none c h holds = holds
  kept ms db r (some (db', n)) c h (before, after, split) = (
    rows_from ms before,
    rows_from ms after,
    law ms db db' n c ∙ ap (rows_from ms) split ∙ rows_from-keeps ms before after r h,
  )

  -- `PruneOldLogs` keeps a row whose timestamp is that of an instant not longer ago than the
  -- retention, whether its deletion succeeds or not, where the clock is behind 1970 by at least the
  -- retention.
  pub prune_old_logs-Holds :
      (s nsec d a b : ℕ) (db : e.Db) (r : Row)
      → nsec < second
      → d ≤ since_1970 s nsec
      → since_1970 s nsec ≤ since_1970 a b + d
      → r.timestamp ≡ unix_milli (record { sec = pos a; nsec = b })
      → Holds r (e.rows db)
      → Holds r (e.rows (prune_old_logs e q (pos d) (record { sec = pos s; nsec = nsec }) db).1)
  unfolding prune_old_logs
  prune_old_logs-Holds s nsec d a b db r h k recent dated holds =
      let ms = prune_threshold (pos d) (record { sec = pos s; nsec = nsec }) in
      let late : ltb ((1000 * a + b / millisecond) + 0) ((since_1970 s nsec - d) / millisecond + 0)
          ≡ false =
        ground arith in
      kept ms db r (q.delete_before ms db) refl
        (ap₂ ltb_ℤ (dated ∙ unix_milli_pos a b) (threshold_of s nsec d h k) ∙ late) holds
