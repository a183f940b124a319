-- ===== src/Storage/Stored/Thinned.antt =====
-- Tables that deletions of old rows have thinned out.
use sugi.Base.{◌≡◌, Bool-cases, true, List, [], ◌∷◌, ◌++◌, ◌⊎◌, inl, inr}
use sugi.Base.Int.{ℤ, ltb_ℤ}
use sugi.Storage.Sqlite.{Row}
use sugi.Storage.Sqlite.Reads.{rows_from}

-- The row is older than one of the times.
abbrev pub Expired : List ℤ → Row → Type 0
Expired [] r = ⊥
Expired (t ∷ ts) r = (ltb_ℤ r.timestamp t ≡ true) ⊎ Expired ts r

-- The second table is the first one without some rows, each of which has expired.
pub data Thinned (ts : List ℤ) : List Row → List Row → Type 0 where
  done : Thinned ts [] []
  keep :
      {rows rows' : List Row} (r : Row) → Thinned ts rows rows' → Thinned ts (r ∷ rows) (r ∷ rows')
  drop :
      {rows rows' : List Row} (r : Row)
      → Expired ts r
      → Thinned ts rows rows'
      → Thinned ts (r ∷ rows) rows'

pub Thinned-refl : (ts : List ℤ) (rows : List Row) → Thinned ts rows rows
Thinned-refl ts [] = done
Thinned-refl ts (r ∷ rows) = keep r (Thinned-refl ts rows)

pub Thinned-append :
    {ts : List ℤ} {rows rows' : List Row} (new : List Row)
    → Thinned ts rows rows'
    → Thinned ts (rows ++ new) (rows' ++ new)
Thinned-append {ts} new done = Thinned-refl ts new
Thinned-append new (keep r h) = keep r (Thinned-append new h)
Thinned-append new (drop r old h) = drop r old (Thinned-append new h)

Expired-left : (ts us : List ℤ) (r : Row) → Expired ts r → Expired (ts ++ us) r
Expired-left [] us r h = absurd h
Expired-left (t ∷ ts) us r (inl h) = inl h
Expired-left (t ∷ ts) us r (inr h) = inr (Expired-left ts us r h)

Expired-right : (ts us : List ℤ) (r : Row) → Expired us r → Expired (ts ++ us) r
Expired-right [] us r h = h
Expired-right (t ∷ ts) us r h = inr (Expired-right ts us r h)

pub Thinned-more :
    {ts : List ℤ} (us : List ℤ) {rows rows' : List Row}
    → Thinned ts rows rows'
    → Thinned (ts ++ us) rows rows'
Thinned-more us done = done
Thinned-more us (keep r h) = keep r (Thinned-more us h)
Thinned-more {ts} us (drop r old h) = drop r (Expired-left ts us r old) (Thinned-more us h)

-- A deletion thins out what is left.
pub Thinned-rows_from :
    {ts : List ℤ} (t : ℤ) {rows rows' : List Row}
    → Thinned ts rows rows'
    → Thinned (ts ++ t ∷ []) rows (rows_from t rows')
Thinned-rows_from t done = done
Thinned-rows_from {ts} t (drop r old h) =
    drop r (Expired-left ts (t ∷ []) r old) (Thinned-rows_from t h)
Thinned-rows_from {ts} t (keep r h) = elim (Bool-cases (ltb_ℤ r.timestamp t)) [
  | inl old ↦ rw old (drop r (Expired-right ts (t ∷ []) r (inl old)) (Thinned-rows_from t h))
  | inr young ↦ rw young (keep r (Thinned-rows_from t h))
]

-- Nothing is missing where nothing has been deleted.
pub Thinned-same : {rows rows' : List Row} → Thinned [] rows rows' → rows' ≡ rows
Thinned-same done = cc
Thinned-same (keep r h) = let k = Thinned-same h in cc
Thinned-same (drop r old h) = absurd old
