-- ===== src/Storage/Sqlite/RoundTrip.antt =====
-- Entries that internal/storage/sqlite.go writes to the log table, and reads back.
use sugi.Base.{
  leb, true, suc, ℕ, ◌+◌, ◌-◌, ◌*◌, ◌/◌, ◌%◌, ◌<◌, ◌≡◌, refl, sym, ap, ap₂, ◌∙◌, false, some, List,
  [], ◌∷◌, arith,
}
use sugi.Base.Int.{ℤ, pos, negsuc}
use sugi.Base.Text.{Text, is_empty, trim_space, to_upper}
use sugi.Model.Time.{Instant, unix_milli, from_unix_milli, millisecond}
use sugi.Model.Log.{LogEntry}
use sugi.Storage.Sqlite.{Row, Codec, row_of, is_zero_ℤ, attr_str}
use sugi.Storage.Sqlite.Reads.{StoredRow, Unmarshal, entry_of, attributes_of}

-- An instant of whole milliseconds comes back from its number of milliseconds.
pub from_unix_milli-unix_milli :
    (sec : ℤ) (k : ℕ)
    → k < 1000
    → from_unix_milli (unix_milli (record { sec = sec; nsec = k * millisecond }))
      ≡ record { sec = sec; nsec = k * millisecond }
unfolding from_unix_milli unix_milli
from_unix_milli-unix_milli (pos n) k h =
    let e : 1000 * n + k * 1000000 / 1000000 - 0 ≡ 1000 * n + k = omega arith in
    let p : leb 0 (1000 * n + k * 1000000 / 1000000) ≡ true = ground arith in
    rw (p, e)
      (ap₂ (λ s r. record { sec = pos s; nsec = r * millisecond })
        (let q : (1000 * n + k) / 1000 ≡ n = omega arith in q)
        (let q : (1000 * n + k) % 1000 ≡ k = omega arith in q))
from_unix_milli-unix_milli (negsuc n) k h =
    let e : suc (1000 * suc n - 1) + 0 - (0 + k * 1000000 / 1000000) - 1 ≡ 1000 * n + (999 - k) =
      omega arith in
    let p : leb (suc (1000 * suc n - 1) + 0) (0 + k * 1000000 / 1000000) ≡ false = ground arith in
    rw (p, e)
      (ap₂ (λ s r. record { sec = negsuc s; nsec = r * millisecond })
        (let q : (1000 * n + (999 - k)) / 1000 ≡ n = omega arith in q)
        (let q : 999 - (1000 * n + (999 - k)) % 1000 ≡ k = omega arith in q))

-- The row that the table has for an inserted one.
abbrev pub stored : ℤ → Row → StoredRow
stored id r = record {
  id = id;
  timestamp = r.timestamp;
  level = r.level;
  service = r.service;
  message = r.message;
  attributes = some r.attributes;
}

-- No attributes, or attributes that json.Marshal writes and json.Unmarshal reads back.
abbrev pub ReadsBack : Codec → Unmarshal → List (Text × Text) → Type 0
ReadsBack c unmarshal [] = Unit {0}
ReadsBack c unmarshal (a ∷ as') =
    (s : Text) × (c.marshal (a ∷ as') ≡ some s)
    × (is_empty s ≡ false)
    × (unmarshal s ≡ some (a ∷ as'))

-- An entry as the table keeps it: level and service are trimmed and not empty, the level is in
-- capitals.
pub record IsNormal (c : Codec) (entry : LogEntry) : Type 0 where
  pub level_upper : to_upper c.wide_upper (trim_space entry.level) ≡ entry.level
  pub level_given : is_empty entry.level ≡ false
  pub service_trimmed : trim_space entry.service ≡ entry.service
  pub service_given : is_empty entry.service ≡ false
  pub not_1970 : is_zero_ℤ (unix_milli entry.timestamp) ≡ false
  -- The timestamp is one of whole milliseconds.
  pub milliseconds : ℕ
  pub below_second : milliseconds < 1000
  pub nsec_milli : entry.timestamp.nsec ≡ milliseconds * millisecond

attributes-ReadsBack :
    (c : Codec) (unmarshal : Unmarshal) (attributes : List (Text × Text))
    → ReadsBack c unmarshal attributes
    → attributes_of unmarshal (some (attr_str c attributes)) ≡ attributes
attributes-ReadsBack c unmarshal [] h = refl
attributes-ReadsBack c unmarshal (a ∷ as') (s, m, full, u) = rw (m, full, u) refl

from_milli :
    (t : Instant) (k : ℕ) → k < 1000 → t.nsec ≡ k * millisecond → from_unix_milli (unix_milli t) ≡ t
from_milli t k h e =
    let same : t ≡ record { sec = t.sec; nsec = k * millisecond } =
      ap (λ n. record { sec = t.sec; nsec = n }) e in
    ap (λ u. from_unix_milli (unix_milli u)) same ∙ from_unix_milli-unix_milli t.sec k h ∙ sym same

-- What `QueryLogs` reads of the row that `WriteBatch` inserts for a normalised entry is that entry,
-- with the id that the table has given to it, where JSON gives back the attributes.
pub entry_of-row_of :
    (c : Codec) (unmarshal : Unmarshal) (now : Instant) (id : ℤ) (entry : LogEntry)
    → IsNormal c entry
    → ReadsBack c unmarshal entry.attributes
    → entry_of unmarshal (stored id (row_of c now entry)) ≡ record entry { id = id }
unfolding entry_of row_of
entry_of-row_of c unmarshal now id entry n h =
    rw
      (
        n.not_1970,
        n.level_upper,
        n.level_given,
        n.service_trimmed,
        n.service_given,
        attributes-ReadsBack c unmarshal entry.attributes h,
        from_milli entry.timestamp n.milliseconds n.below_second n.nsec_milli,
      )
      refl
