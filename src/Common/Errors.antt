-- ===== src/Common/Errors.antt =====
-- Python's exceptions as values.
use mathlib.Core.Bool.{Bool, true, false}
use mathlib.Core.Logic.{◌⊎◌, inl, inr}
use mathlib.Core.Path.{◌≡◌, refl}

-- `recursion` stands for a call that has not returned within the fuel given.
pub data Error : Type 0 where
  key_error type_error unbound_local index_error value_error assertion recursion attribute_error
        fatal :
      Error

-- the result of a run, or the exception that ends it
pub data Result {ℓ} (Value : Type ℓ) : Type ℓ where
  ok : Value → Result Value
  err : Error → Result Value

-- `assert test`
abbrev pub assert : Bool → Result (Unit {0})
assert true = ok tt
assert false = err assertion

infixl 5 ◌>>=◌ ◌>>◌
abbrev pub ◌>>=◌ {ℓ κ} :
    {Value : Type ℓ} {Next : Type κ} → Result Value → (Value → Result Next) → Result Next
err exception >>= next = err exception
ok value >>= next = next value

abbrev pub ◌>>◌ {κ} : {Next : Type κ} → Result (Unit {0}) → Result Next → Result Next
checked >> next = checked >>= λ _. next

pub Result-cases {ℓ} :
    {Value : Type ℓ} (r : Result Value)
    → ((value : Value) × (r ≡ ok value)) ⊎ ((exception : Error) × (r ≡ err exception))
Result-cases (err exception) = inr (exception, refl)
Result-cases (ok value) = inl (value, refl)

-- Inversion of a successful bind.
pub >>=-eq-ok {ℓ κ} :
    {Value : Type ℓ} {Next : Type κ} (r : Result Value) (next : Value → Result Next) {n : Next}
    → (r >>= next) ≡ ok n
    → (value : Value) × (r ≡ ok value) × (next value ≡ ok n)
>>=-eq-ok (err exception) next h = absurd (cc)
>>=-eq-ok (ok value) next h = (value, refl, h)

pub assert-eq-true : (b : Bool) → assert b ≡ ok tt → b ≡ true
assert-eq-true true h = refl
assert-eq-true false h = absurd (cc)

pub ok-injective {ℓ} : {A : Type ℓ} (a b : A) → ok a ≡ ok b → a ≡ b
ok-injective a b h = cc
