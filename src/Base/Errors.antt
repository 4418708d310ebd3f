-- ===== src/Base/Errors.antt =====
-- Errors as values: Go's `(value, error)` results. A panic is a value of its own; `stuck` is no Go
-- value, it says that a loop of the model ran out of fuel.
use Prim.Native.Nat.{ℕ}
use Prim.Native.String.{String}
use mathlib.Core.Bool.{Bool, true, false}
use mathlib.Core.Path.{◌≡◌, refl}

-- The errors of package errors, and those of package io that the code tests for.
pub data Error : Type 0 where
  eof : Error
  unexpected_eof : Error
  short_write : Error
  structural : String → Error
  unsupported : String → Error
  signature : String → Error
  invalid_argument : String → Error
  unknown_packet_type : ℕ → Error
  aead_error : String → Error
  failure : String → Error

pub data Result {ℓ} (T : Type ℓ) : Type ℓ where
  panic stuck : Result T
  err : Error → Result T
  ok : T → Result T

-- What follows a call, unless the call failed or panicked.
infixl 5 ◌>>=◌
abbrev pub ◌>>=◌ {ℓ κ} : {T : Type ℓ} {U : Type κ} → Result T → (T → Result U) → Result U
panic >>= next = panic
stuck >>= next = stuck
err e >>= next = err e
ok value >>= next = next value

infixl 5 ◌>>◌
abbrev pub ◌>>◌ {κ} : {U : Type κ} → Result (Unit {0}) → Result U → Result U
check >> rest = check >>= λ done. rest

-- `if b { return e }`.
abbrev pub fail_if : Bool → Error → Result (Unit {0})
fail_if true e = err e
fail_if false e = ok tt

-- `if b { panic(..) }`.
abbrev pub panic_if : Bool → Result (Unit {0})
panic_if true = panic
panic_if false = ok tt

-- A chain of calls that succeeds has a first call that succeeds.
pub >>=-eq-ok {ℓ κ} :
    {T : Type ℓ} {U : Type κ} (first : Result T) (next : T → Result U) {result : U}
    → (first >>= next) ≡ ok result
    → (value : T) × (first ≡ ok value) × (next value ≡ ok result)
>>=-eq-ok panic next e = cc
>>=-eq-ok stuck next e = cc
>>=-eq-ok (err x) next e = cc
>>=-eq-ok (ok value) next e = (value, refl, e)

pub >>=_assoc {ℓ κ ι} :
    {A : Type ℓ} {B : Type κ} {C : Type ι} (r : Result A) (f : A → Result B) (g : B → Result C)
    → (r >>= f) >>= g ≡ (r >>= λ a. (f a >>= g))
>>=_assoc panic f g = refl
>>=_assoc stuck f g = refl
>>=_assoc (err e) f g = refl
>>=_assoc (ok a) f g = refl

pub >>=_cong {ℓ κ} :
    {A : Type ℓ} {B : Type κ} (r : Result A) (f g : A → Result B)
    → ((a : A) → f a ≡ g a)
    → (r >>= f) ≡ (r >>= g)
>>=_cong panic f g h = refl
>>=_cong stuck f g h = refl
>>=_cong (err e) f g h = refl
>>=_cong (ok a) f g h = h a
