-- ===== src/Prelude/Result.antt =====
-- The outcome of Python code that may raise: a value, or the class of the exception.
use mathlib.Core.Path.{◌≡◌, refl}
use mathlib.Core.Bool.{Bool, true, false}
use mathlib.Core.Option.{Option, none, some}
use mathlib.Core.List.{◌++◌}
use skepticoin.Prelude.Lists.{Bytes}

-- The program's own exceptions first, then those of Python. `recursion` stands for a call that
-- never returns (Python answers it with a RecursionError or loops for ever).
pub data Error : Type 0 where
  truncation deserialization validation validate_transaction validate_pow : Error
  validate_block_header validate_block address_parse plain_exception : Error
  value_error struct_error key_error index_error assertion_error overflow_error : Error
  zero_division type_error attribute_error not_implemented signing_error recursion : Error

pub data Result {ℓ} (A : Type ℓ) : Type ℓ where
  err : Error → Result A
  ok : A → Result A

-- A statement after another: it runs if the first raised nothing.
infixl 5 ◌>>=◌
abbrev pub ◌>>=◌ {ℓ κ} : {A : Type ℓ} {B : Type κ} → Result A → (A → Result B) → Result B
err raised >>= next = err raised
ok value >>= next = next value

-- `if test: raise e`
abbrev pub raise_if : Bool → Error → Result (Unit {0})
raise_if true e = err e
raise_if false e = ok tt

-- After a check, which has no value.
infixl 5 ◌>>◌
abbrev pub ◌>>◌ {ℓ} : {B : Type ℓ} → Result (Unit {0}) → Result B → Result B
check >> next = check >>= λ _. next

-- What a lookup that failed raises.
abbrev pub or_raise {ℓ} : {A : Type ℓ} → Option A → Error → Result A
or_raise none e = err e
or_raise (some a) e = ok a

-- Two writes to the same stream.
infixr 6 ◌then_write◌
abbrev pub ◌then_write◌ : Result Bytes → Result Bytes → Result Bytes
m then_write k = do a ← m; b ← k; ok (a ++ b)

-- The two steps of a block of code that returned.
pub >>=-eq_ok {ℓ κ} :
    {A : Type ℓ} {B : Type κ} (m : Result A) (next : A → Result B) {b : B}
    → (m >>= next) ≡ ok b
    → (a : A) × (m ≡ ok a) × (next a ≡ ok b)
>>=-eq_ok (err raised) next h = cc
>>=-eq_ok (ok value) next h = (value, refl, h)

pub raise_if-eq_ok : (b : Bool) (e : Error) {u : Unit {0}} → raise_if b e ≡ ok u → b ≡ false
raise_if-eq_ok true e h = cc
raise_if-eq_ok false e h = refl

pub ok-injective {ℓ} : {A : Type ℓ} {a b : A} → ok a ≡ ok b → a ≡ b
ok-injective h = cc
