-- ===== src/Base/Result.antt =====
-- Python exceptions as values: a call returns, or raises an exception of a class.
use mathlib.Core.Bool.{Bool, true, false}
use mathlib.Core.Option.{Option, none, some}

pub data Exception : Type 0 where
  runtime_error index_error key_error value_error type_error zero_division_error attribute_error
        plain_exception :
      Exception

pub data Result {ℓ} (A : Type ℓ) : Type ℓ where
  raise : Exception → Result A
  ok : A → Result A

-- A value that may be missing, and the exception that its absence raises.
abbrev pub or_raise {ℓ} : {A : Type ℓ} → Exception → Option A → Result A
or_raise e none = raise e
or_raise e (some a) = ok a

-- `if test: raise e`
abbrev pub raise_if : Bool → Exception → Result (Unit {0})
raise_if test e = elim test [ true ↦ raise e | false ↦ ok tt ]

infixl 5 ◌>>=◌ ◌>>◌
-- A statement and those after it: an exception ends them.
abbrev pub ◌>>=◌ {ℓ κ} : {B : Type κ} {A : Type ℓ} → Result A → (A → Result B) → Result B
raise e >>= next = raise e
ok a >>= next = next a

abbrev pub ◌>>◌ {κ} : {B : Type κ} → Result (Unit {0}) → Result B → Result B
raise e >> next = raise e
ok _ >> next = next
