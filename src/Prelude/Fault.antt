-- ===== src/Prelude/Fault.antt =====
-- A computation that may run into what C++ leaves undefined, such as a read past an array's end, or
-- that may use up the rounds given to a loop.
use mathlib.Core.Option.{Option, none, some}
use mathlib.Core.Path.{◌≡◌, refl}
use mathlib.Core.Logic.{◌⊎◌, inl, inr}

pub data Checked {ℓ} (A : Type ℓ) : Type ℓ where
  fault : Checked A
  out_of_fuel : Checked A
  done : A → Checked A

infixl 5 ◌>>=◌
abbrev pub ◌>>=◌ {ℓ κ} : {A : Type ℓ} {B : Type κ} → Checked A → (A → Checked B) → Checked B
fault >>= f = fault
out_of_fuel >>= f = out_of_fuel
done a >>= f = f a

abbrev pub of_option {ℓ} : {A : Type ℓ} → Option A → Checked A
of_option none = fault
of_option (some a) = done a

pub Checked-cases {ℓ} :
    {A : Type ℓ} (r : Checked A) → (r ≡ fault) ⊎ ((r ≡ out_of_fuel) ⊎ ((a : A) × (r ≡ done a)))
Checked-cases fault = inl refl
Checked-cases out_of_fuel = inr (inl refl)
Checked-cases (done a) = inr (inr (a, refl))
