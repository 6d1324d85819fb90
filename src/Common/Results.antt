-- ===== src/Common/Results.antt =====
-- shared/errors: the error classes that the domain throws, and a result that is a value or a
-- thrown error.
use Prim.Native.String.{String}
use mathlib.Core.Path.{◌≡◌, refl}
use mathlib.Core.Bool.{Bool, true, false}

-- shared/errors/*.ts. An error keeps its class and what tells it apart: the field at fault, the
-- action refused, or the constraint that the database names. `other` is any other thrown error.
pub data Error : Type 0 where
  validation_error : String → Error
  conflict_error : String → Error
  not_found_error : String → Error
  unauthorized_error : String → Error
  forbidden_error : String → Error
  unique_violation : String → Error
  other : String → Error

-- What a call returned, or the error that it threw.
pub data Result {ℓ} (X : Type ℓ) : Type ℓ where
  err : Error → Result X
  ok : X → Result X

abbrev pub is_ok {ℓ} : {X : Type ℓ} → Result X → Bool
is_ok (err thrown) = false
is_ok (ok value) = true

-- `if (!test) throw thrown`
abbrev pub require : Bool → Error → Result (Unit {0})
require false thrown = err thrown
require true thrown = ok tt

infixl 5 ◌>>=◌ ◌>>◌
-- The statements after a call run on its value.
abbrev pub ◌>>=◌ {ℓ μ} : {X : Type ℓ} {Y : Type μ} → Result X → (X → Result Y) → Result Y
err thrown >>= next = err thrown
ok value >>= next = next value

abbrev pub ◌>>◌ {ℓ μ} : {X : Type ℓ} {Y : Type μ} → Result X → Result Y → Result Y
call >> next = call >>= λ _. next

-- What a returned result says of the call before its last statements: it returned too.
pub >>=-eq-ok {ℓ μ} :
    {X : Type ℓ} {Y : Type μ} (call : Result X) (next : X → Result Y) {returned : Y}
    → (call >>= next) ≡ ok returned
    → (value : X) × (call ≡ ok value) × (next value ≡ ok returned)
>>=-eq-ok (err thrown) next e = cc
>>=-eq-ok (ok value) next e = (value, refl, e)
