-- ===== src/Prelude/Result.antt =====
-- Exceptions of Python and of Dart as values. The kinds are those that the code raises or catches
-- apart.
use mathlib.Core.Path.{◌≡◌, refl}
use weronity_vpn.Prelude.Tests.{if◌then◌else◌}
use mathlib.Core.Bool.{Bool, true, false}
use mathlib.Core.Option.{Option, none, some}

pub data Fault : Type 0 where
  parse_error key_error value_error type_error : Fault
  struct_error format_error range_error os_error http_error overflow_error : Fault

-- What a call ends with: a raised exception, or a value.
pub data Result {ℓ} (A : Type ℓ) : Type ℓ where
  err : Fault → Result A
  ok : A → Result A

-- A value, or the exception that its absence raises.
abbrev pub or_raise {ℓ} : {A : Type ℓ} → Fault → Option A → Result A
or_raise e none = err e
or_raise e (some a) = ok a

abbrev pub succeeds {ℓ} : {A : Type ℓ} → Result A → Bool
succeeds (ok a) = true
succeeds (err e) = false

-- `if not test: raise`
abbrev pub guard : Bool → Fault → Result (Unit {0})
guard test e = if test then ok tt else err e

-- An exception ends the calls that would follow.
infixl 5 ◌>>=◌
abbrev pub ◌>>=◌ {ℓ ℓ'} : {A : Type ℓ} {B : Type ℓ'} → Result A → (A → Result B) → Result B
err raised >>= rest = err raised
ok value >>= rest = rest value

infixl 5 ◌>>◌
abbrev pub ◌>>◌ {ℓ'} : {B : Type ℓ'} → Result (Unit {0}) → Result B → Result B
first >> rest = first >>= λ _. rest

-- A call that ends with a value has all its parts end with values.
pub >>=-eq-ok {ℓ ℓ'} :
    {A : Type ℓ} {B : Type ℓ'} (first : Result A) (rest : A → Result B) {b : B}
    → (first >>= rest) ≡ ok b
    → (a : A) × (first ≡ ok a) × (rest a ≡ ok b)
>>=-eq-ok (err raised) rest h = cc
>>=-eq-ok (ok value) rest h = (value, refl, h)

pub ok_inj {ℓ} : {A : Type ℓ} {a b : A} → ok a ≡ ok b → a ≡ b
ok_inj h = cc

pub some_inj {ℓ} : {A : Type ℓ} {a b : A} → some a ≡ some b → a ≡ b
some_inj h = cc
