-- ===== src/Prelude/Errors.antt =====
-- The exceptions that the program raises or catches, and computations that may raise one.
use mathlib.Core.Path.{◌≡◌, refl}
use mathlib.Core.Logic.{◌⊎◌, inl, inr}
use mathlib.Core.Bool.{Bool, true, false}

-- `invalid_packet` is `InvalidPacketError` (a `ValueError`), `struct_error` is `struct.error`,
-- `timeout_error` is `TimeoutError` (an `OSError`), `runtime_error` is
-- `RuntimeError`, `key_error` is `KeyError`, `system_exit` is
-- `SystemExit`, `assertion_error` is
-- `AssertionError`, `stop_iteration` is `StopIteration`, `index_error` is `IndexError`,
-- `type_error` is `TypeError`, and `command_error` is `BenchmarkCommandError` (a `RuntimeError`).
pub data Error : Type 0 where
  value_error invalid_packet struct_error overflow_error invalid_tag timeout_error os_error
        runtime_error key_error system_exit assertion_error stop_iteration index_error type_error
        command_error :
      Error

pub data Result {u} (Value : Type u) : Type u where
  err : Error → Result Value
  ok : Value → Result Value

infixl 5 ◌>>=◌ ◌>>◌
-- A call that may raise, and what is done with the value that it returns.
abbrev pub ◌>>=◌ {u v} : {A : Type u} {B : Type v} → Result A → (A → Result B) → Result B
◌>>=◌ (err raised) next = err raised
◌>>=◌ (ok value) next = next value

-- `if test: raise e`
abbrev pub raise_if : Bool → Error → Result (Unit {0})
raise_if true e = err e
raise_if false e = ok tt

abbrev pub ◌>>◌ {u} : {B : Type u} → Result (Unit {0}) → Result B → Result B
first >> second = first >>= λ done. second

-- `except ValueError`
abbrev pub is_value_error : Error → Bool
is_value_error Error.value_error = true
is_value_error Error.invalid_packet = true
is_value_error _ = false

-- `except OSError`
abbrev pub is_os_error : Error → Bool
is_os_error Error.os_error = true
is_os_error Error.timeout_error = true
is_os_error _ = false

pub >>=-eq-ok {u v} :
    {A : Type u} {B : Type v} (r : Result A) (next : A → Result B) {y : B}
    → (r >>= next) ≡ ok y
    → (x : A) × (r ≡ ok x) × (next x ≡ ok y)
>>=-eq-ok (err raised) next returned = cc
>>=-eq-ok (ok value) next returned = (value, refl, returned)

pub Result-cases {u} :
    {A : Type u} (r : Result A) → ((x : A) × (r ≡ ok x)) ⊎ ((e : Error) × (r ≡ err e))
Result-cases (err raised) = inr (raised, refl)
Result-cases (ok value) = inl (value, refl)

-- A result that is no exception other than this one.
abbrev pub Raises {u} : {A : Type u} → Error → Result A → Type u
Raises e r = (raised : Error) → r ≡ err raised → raised ≡ e

pub Raises-raise_if : (e : Error) (test : Bool) → Raises e (raise_if test e)
Raises-raise_if e true raised h = cc
Raises-raise_if e false raised h = cc

pub Raises-bind {u v} :
    {A : Type u} {B : Type v} (e : Error) (r : Result A) (next : A → Result B)
    → Raises e r
    → ((x : A) → r ≡ ok x → Raises e (next x))
    → Raises e (r >>= next)
Raises-bind e (err raised) next first rest = λ other h. first other (cc h)
Raises-bind e (ok value) next first rest = rest value refl
