-- ===== src/Prelude/Results.antt =====
-- Python exceptions that the modelled code can raise, as values.
use mathlib.Core.Path.{◌≡◌, refl}
use mathlib.Core.Logic.{◌⊎◌, inl, inr}
use mathlib.Core.Option.{Option, none, some}

pub data Exception : Type 0 where
  key_error value_error zero_division_error struct_error connection_error : Exception

-- What a call leaves its caller with: an exception, or the value that it returned.
pub data Result {κ} (V : Type κ) : Type κ where
  raise : Exception → Result V
  ok : V → Result V

-- The next step runs on the value; an exception passes it by.
infixl 5 ◌>>=◌
abbrev pub ◌>>=◌ {κ μ} :
    {V : Type κ} {W : Type μ} (call : Result V) (next : V → Result W) → Result W
raise exception >>= next = raise exception
ok value >>= next = next value

-- A lookup that fails raises `KeyError`, say.
abbrev pub or_raise {ℓ} : {A : Type ℓ} → Exception → Option A → Result A
or_raise e none = raise e
or_raise e (some a) = ok a

-- The result is a value that has the property.
abbrev pub Returns {ℓ κ} : {A : Type ℓ} → Result A → (A → Type κ) → Type (ℓ ⊔ κ)
Returns {A} r P = (a : A) × (r ≡ ok a) × P a

-- Inversion of a step that succeeded.
pub >>=-eq-ok {κ μ} :
    {V : Type κ} {W : Type μ} (call : Result V) (next : V → Result W) {w : W}
    → (call >>= next) ≡ ok w
    → Returns call (λ value. next value ≡ ok w)
>>=-eq-ok (raise exception) next h = cc
>>=-eq-ok (ok value) next h = (value, refl, h)

-- The result is a value that has the property, or an exception other than `KeyError`.
abbrev pub Spared : {A : Type 0} → Result A → (A → Type 0) → Type 0
Spared (ok a) P = P a
Spared (raise key_error) P = ⊥
Spared (raise value_error) P = Unit {0}
Spared (raise zero_division_error) P = Unit {0}
Spared (raise struct_error) P = Unit {0}
Spared (raise connection_error) P = Unit {0}

pub >>=-Spared :
    {A B : Type 0} (P : A → Type 0) (Q : B → Type 0) (m : Result A) (f : A → Result B)
    → Spared m P
    → ((a : A) → P a → Spared (f a) Q)
    → Spared (m >>= f) Q
>>=-Spared P Q (ok a) f s h = h a s
>>=-Spared P Q (raise key_error) f s h = absurd s
>>=-Spared P Q (raise value_error) f s h = tt
>>=-Spared P Q (raise zero_division_error) f s h = tt
>>=-Spared P Q (raise struct_error) f s h = tt
>>=-Spared P Q (raise connection_error) f s h = tt

pub Spared_imp :
    {A : Type 0} (P Q : A → Type 0) (m : Result A)
    → ((a : A) → m ≡ ok a → P a → Q a)
    → Spared m P
    → Spared m Q
Spared_imp P Q (ok a) h s = h a refl s
Spared_imp P Q (raise key_error) h s = absurd s
Spared_imp P Q (raise value_error) h s = tt
Spared_imp P Q (raise zero_division_error) h s = tt
Spared_imp P Q (raise struct_error) h s = tt
Spared_imp P Q (raise connection_error) h s = tt

-- To split on a result and keep the equation.
pub Result-cases :
    {A : Type 0} (r : Result A) → ((e : Exception) × (r ≡ raise e)) ⊎ ((a : A) × (r ≡ ok a))
Result-cases (raise e) = inl (e, refl)
Result-cases (ok a) = inr (a, refl)
