-- ===== src/Base/Result.antt =====
-- A value or an error.
use sugi.Base.{◌≡◌, refl, Bool, true, false, if◌then◌else◌}

pub data Result {ℓ κ} (E : Type ℓ) (A : Type κ) : Type (ℓ ⊔ κ) where
  ok : A → Result E A
  err : E → Result E A

-- A success behind a check means that the check let it through.
pub ok_of_if {ℓ κ} :
    {E : Type ℓ} {A : Type κ} (b : Bool) (e : E) (r : Result E A) {a : A}
    → (if b then err e else r) ≡ ok a
    → (b ≡ false) × (r ≡ ok a)
ok_of_if true e r h = cc
ok_of_if false e r h = (refl, h)
