-- ===== src/Prelude/Results.antt =====
-- A result or the error that was thrown, with `do`.
use mathlib.Core.Path.{◌≡◌, refl}
use mathlib.Core.Bool.{Bool, true, false}

pub data Result {ℓ} (E : Type 0) (A : Type ℓ) : Type ℓ where
  ok : A → Result E A
  err : E → Result E A

module _ {E : Type 0} where
  -- `if (!test) throw e`.
  abbrev pub check : Bool → E → Result E (Unit {0})
  check false thrown = err thrown
  check true thrown = ok tt

  infixl 5 ◌>>◌
  abbrev pub ◌>>◌ {ℓ} : {A : Type ℓ} → Result E (Unit {0}) → Result E A → Result E A
  err thrown >> rest = err thrown
  ok _ >> rest = rest

  module _ {ℓ κ} {A : Type ℓ} {B : Type κ} where
    infixl 5 ◌>>=◌
    abbrev pub ◌>>=◌ : Result E A → (A → Result E B) → Result E B
    err thrown >>= rest = err thrown
    ok value >>= rest = rest value

    -- What a sequence that returned went through.
    pub >>=-eq-ok :
        (first : Result E A) (rest : A → Result E B) {end : B}
        → (first >>= rest) ≡ ok end
        → (value : A) × (first ≡ ok value) × (rest value ≡ ok end)
    >>=-eq-ok (err thrown) rest returned = cc
    >>=-eq-ok (ok value) rest returned = (value, refl, returned)

  pub ok_inj {ℓ} : {A : Type ℓ} {a b : A} → ◌≡◌ {A = Result E A} (ok a) (ok b) → a ≡ b
  ok_inj e = cc e
