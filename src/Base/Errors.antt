-- ===== src/Base/Errors.antt =====
-- A Go function that returns a value and an error.
use mathlib.Core.Path.{◌≡◌, refl}
use mathlib.Core.Logic.{◌⊎◌, inl, inr}
use mathlib.Core.Bool.{Bool, true, false}
use mathlib.Core.Option.{Option, none, some}

pub data Result {ℓ κ} (E : Type κ) (A : Type ℓ) : Type (ℓ ⊔ κ) where
  ok : A → Result E A
  err : E → Result E A

abbrev pub Yields {ℓ κ} : {E : Type κ} {A : Type ℓ} → Result E A → A → Type (ℓ ⊔ κ)
Yields r a = r ≡ ok a

module _ {ℓ κ} {E : Type κ} {A B : Type ℓ} where
  infixl 5 ◌>>=◌
  abbrev pub ◌>>=◌ : Result E A → (A → Result E B) → Result E B
  ok a >>= f = f a
  err e >>= f = err e

  -- A chain yields what its last step yields.
  pub >>=-Yields :
      {b : B} (step : A → Result E B) (r : Result E A)
      → Yields (r >>= step) b
      → (mid : A) × Yields r mid × Yields (step mid) b
  >>=-Yields step (err e) y = cc
  >>=-Yields step (ok mid) y = (mid, refl, y)

pub Result-cases {ℓ κ} :
    {E : Type κ} {A : Type ℓ} (r : Result E A) → ((a : A) × (r ≡ ok a)) ⊎ ((e : E) × (r ≡ err e))
Result-cases (ok a) = inl (a, refl)
Result-cases (err e) = inr (e, refl)

-- A missing value is the error.
abbrev pub or_fail {ℓ κ} : {E : Type κ} {A : Type ℓ} → Option A → E → Result E A
or_fail none e = err e
or_fail (some a) e = ok a

pub or_fail-Yields {ℓ κ} :
    {E : Type κ} {A : Type ℓ} (o : Option A) (e : E) {a : A} → Yields (or_fail o e) a → o ≡ some a
or_fail-Yields none e y = cc
or_fail-Yields (some x) e y = cc

-- The rest runs where the test does not hold.
abbrev pub unless {ℓ κ} : {E : Type κ} {A : Type ℓ} → Bool → E → Result E A → Result E A
unless true e r = err e
unless false e r = r

pub unless-Yields {ℓ κ} :
    {E : Type κ} {A : Type ℓ} (b : Bool) (e : E) (r : Result E A) {a : A}
    → Yields (unless b e r) a
    → (b ≡ false) × Yields r a
unless-Yields true e r y = cc
unless-Yields false e r y = (refl, y)

abbrev pub map_err {ℓ κ μ} :
    {E : Type κ} {F : Type μ} {A : Type ℓ} → (E → F) → Result E A → Result F A
map_err f (ok a) = ok a
map_err f (err e) = err (f e)

pub map_err-Yields {ℓ κ μ} :
    {E : Type κ} {F : Type μ} {A : Type ℓ} (f : E → F) (r : Result E A) {a : A}
    → Yields (map_err f r) a
    → Yields r a
map_err-Yields f (ok a) y = cc
map_err-Yields f (err e) y = cc
