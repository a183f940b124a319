-- ===== src/Storage/Sqlite/Batch.antt =====
-- The batch insert of internal/storage/sqlite.go is all or nothing, and its rows are normalised.
use sugi.Base.{
  ℕ, suc, ◌*◌, ◌-◌, ◌≡◌, ◌≢◌, refl, sym, ap, ◌∙◌, Option, none, some, List, [], ◌∷◌, ◌++◌,
  Bool-cases, Option-cases, inl, inr, append-nil, append_assoc,
}
use sugi.Base.Int.{negsuc}
use sugi.Base.Text.{Text, codes, to_upper, trim_space}
use sugi.Model.Time.{Instant, unix_milli, zero_time}
use sugi.Model.Log.{LogEntry}
use sugi.Storage.Sqlite.{
  Row, Engine, EngineLaws, DbError, Codec, row_of, insert_entries, commit_tx, in_tx, write_batch,
  or_default,
}

-- The rows of the entries, with the clock as each is inserted.
abbrev pub rows_of : Codec → List LogEntry → (ℕ → Instant) → List Row
rows_of c [] clock = []
rows_of c (entry ∷ entries) clock =
    row_of c (clock 0) entry ∷ rows_of c entries (λ i. clock (suc i))

module _ (e : Engine) (laws : EngineLaws e) (c : Codec) where
  open e use {Db, Tx}

  -- Success with all of the rows behind those before, or an error and the database as it was.
  abbrev pub Atomic : List Row → Db → Option DbError × Db → Type 0
  Atomic new db (none, db') = e.rows db' ≡ e.rows db ++ new
  Atomic new db (some error, db') = db' ≡ db

  rows-insert_entries :
      (entries : List LogEntry) (clock : ℕ → Instant) (tx : Tx) {tx' : Tx}
      → insert_entries e c entries clock tx ≡ some tx'
      → e.tx_rows tx' ≡ e.tx_rows tx ++ rows_of c entries clock
  unfolding insert_entries
  rows-insert_entries [] clock tx {tx'} h =
      let same : tx' ≡ tx = cc in ap e.tx_rows same ∙ sym (append-nil (e.tx_rows tx))
  rows-insert_entries (entry ∷ entries) clock tx h =
      let row = row_of c (clock 0) entry in
      elim (Option-cases (e.exec_insert row tx)) [
        | inl failed ↦ let k = rw (failed, insert_entries) at h in cc
        | inr (next, k) ↦
            rows-insert_entries entries (λ i. clock (suc i)) next (rw (k, insert_entries) at h)
            ∙ ap (λ rows. rows ++ rows_of c entries (λ i. clock (suc i)))
                (laws.insert_rows row tx next k)
            ∙ append_assoc (e.tx_rows tx) (row ∷ []) (rows_of c entries (λ i. clock (suc i)))
      ]

  commit_tx-Atomic :
      (tx : Option Tx) (db : Db) (new : List Row)
      → ((t : Tx) → tx ≡ some t → e.tx_rows t ≡ e.rows db ++ new)
      → Atomic new db (commit_tx e c tx db)
  unfolding commit_tx
  commit_tx-Atomic none db new h = refl
  commit_tx-Atomic (some tx) db new h = elim (Option-cases (e.commit tx)) [
    | inl failed ↦ rw (failed, commit_tx) refl
    | inr (next, k) ↦ rw (k, commit_tx) (laws.commit_rows tx next k ∙ h tx refl)
  ]

  in_tx-Atomic :
      (tx : Option Tx) (entries : List LogEntry) (clock : ℕ → Instant) (db : Db)
      → ((t : Tx) → tx ≡ some t → e.tx_rows t ≡ e.rows db)
      → Atomic (rows_of c entries clock) db (in_tx e c tx entries clock db)
  unfolding in_tx
  in_tx-Atomic none entries clock db h = refl
  in_tx-Atomic (some tx) entries clock db h = elim (Bool-cases (e.prepares tx)) [
    | inl ready ↦ rw ready (
        commit_tx-Atomic (insert_entries e c entries clock tx) db (rows_of c entries clock) (λ t k.
          rows-insert_entries entries clock tx k
          ∙ ap (λ rows. rows ++ rows_of c entries clock) (h tx refl)))
    | inr not_ready ↦ rw not_ready refl
  ]

  -- Given EngineLaws, `WriteBatch` without an error has added a row for every entry, in their
  -- order; with an error it leaves the database as it was, wherever the error came from.
  pub write_batch-Atomic :
      (entries : List LogEntry) (clock : ℕ → Instant) (db : Db)
      → Atomic (rows_of c entries clock) db (write_batch e c entries clock db)
  unfolding write_batch
  write_batch-Atomic [] clock db = sym (append-nil (e.rows db))
  write_batch-Atomic (entry ∷ entries) clock db =
      in_tx-Atomic (e.begin_tx db) (entry ∷ entries) clock db (laws.begin_rows db)

or_default-ne-nil : (d s : Text) → d ≢ [] → or_default d s ≢ []
or_default-ne-nil d [] h = h
or_default-ne-nil d (x ∷ s) h = λ k. cc

-- No row is stored with an empty level or service.
pub row_of-named :
    (c : Codec) (now : Instant) (entry : LogEntry)
    → let row = row_of c now entry in (row.level ≢ []) × (row.service ≢ [])
unfolding row_of
row_of-named c now entry = (
  or_default-ne-nil (codes "INFO") (to_upper c.wide_upper (trim_space entry.level)) (λ k. cc),
  or_default-ne-nil (codes "default") (trim_space entry.service) (λ k. cc),
)

-- An entry whose timestamp is the zero `time.Time` is stored with the year 1, not with the current
-- time that the guard on a zero timestamp is for.
pub row_of-zero_time :
    (c : Codec) (now : Instant) (entry : LogEntry)
    → entry.timestamp ≡ zero_time
    → (row_of c now entry).timestamp ≡ negsuc (62135596800 * 1000 - 1)
unfolding row_of unix_milli
row_of-zero_time c now entry h = rw h refl
