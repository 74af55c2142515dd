-- ===== src/Prelude/Result.antt =====
-- Go's pair of a value and an error, with exactly one of the two; `ok` is a nil error.
use mathlib.Core.Path.{◌≡◌, refl}
use mathlib.Core.Logic.{◌⊎◌, inl, inr}
use mathlib.Core.Bool.{Bool, true, false}
use mathlib.Core.Option.{Option, none, some}

pub data Outcome {ℓ} (E : Type 0) (A : Type ℓ) : Type ℓ where
  ok : A → Outcome E A
  err : E → Outcome E A

module _ {ℓ κ} {E : Type 0} {A : Type ℓ} {B : Type κ} where
  infixl 5 ◌>>=◌
  abbrev pub ◌>>=◌ : Outcome E A → (A → Outcome E B) → Outcome E B
  ◌>>=◌ r f = elim r [ err e ↦ err e | ok a ↦ f a ]

module _ {κ} {E : Type 0} {B : Type κ} where
  infixl 5 ◌>>◌
  abbrev pub ◌>>◌ : Outcome E (Unit {0}) → Outcome E B → Outcome E B
  ◌>>◌ r s = elim r [ err e ↦ err e | ok _ ↦ s ]

-- `if !b { return e }`
abbrev pub require : {E : Type 0} → E → Bool → Outcome E (Unit {0})
require e b = elim b [ true ↦ ok tt | false ↦ err e ]

abbrev pub present {ℓ} : {E : Type 0} {A : Type ℓ} → E → Option A → Outcome E A
present e o = elim o [ none ↦ err e | some a ↦ ok a ]

-- How a chain succeeds, and the two ways in which a call ends.
pub >>=-ok {ℓ κ} :
    {E : Type 0} {A : Type ℓ} {B : Type κ} {b : B} (r : Outcome E A) (f : A → Outcome E B)
    → (r >>= f) ≡ ok b
    → (a : A) × (r ≡ ok a) × (f a ≡ ok b)
>>=-ok (err e) f p = cc
>>=-ok (ok a) f p = (a, refl, p)

pub require-ok {κ} :
    {E : Type 0} {B : Type κ} {a : B} (e : E) (b : Bool) (r : Outcome E B)
    → (require e b >> r) ≡ ok a
    → (b ≡ true) × (r ≡ ok a)
require-ok e false r p = cc
require-ok e true r p = (refl, p)

pub Outcome-cases {ℓ} :
    {E : Type 0} {A : Type ℓ} (r : Outcome E A) → ((a : A) × (r ≡ ok a)) ⊎ ((e : E) × (r ≡ err e))
Outcome-cases (err e) = inr (e, refl)
Outcome-cases (ok a) = inl (a, refl)
