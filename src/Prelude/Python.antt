-- ===== src/Prelude/Python.antt =====
-- Exceptions of Python and of the libraries, the outcome of a call that may raise, and integers.
use mathlib.Core.Path.{◌≡◌, ap}
use Prim.Native.Nat.{ℕ}
use mathlib.Core.Bool.{Bool, true, false}

-- `kafka_exception` carries the error's code, and `library` stands for any other `Exception`.
pub data Exn : Type 0 where
  value_error type_error attribute_error key_error overflow_error json_decode_error : Exn
  runtime_error buffer_error cancelled_error : Exn
  kafka_exception library : ℕ → Exn

pub data Outcome {ℓ} (A : Type ℓ) : Type ℓ where
  ok : A → Outcome A
  raise : Exn → Outcome A

-- `asyncio.CancelledError` is a `BaseException` only, so `except Exception` lets it pass.
abbrev pub is_exception : Exn → Bool
is_exception cancelled_error = false
is_exception _ = true

infixl 5 ◌>>=◌
abbrev pub ◌>>=◌ {ℓ κ} : {A : Type ℓ} {B : Type κ} → Outcome A → (A → Outcome B) → Outcome B
ok a >>= f = f a
raise e >>= f = raise e

abbrev pub ok_or {ℓ} : {A : Type ℓ} → A → Outcome A → A
ok_or d (ok a) = a
ok_or d (raise e) = d

pub ok_injective {ℓ} : {A : Type ℓ} {a b : A} → ok a ≡ ok b → a ≡ b
ok_injective {a = a} h = ap (ok_or a) h

-- an integer of Python; `negsuc n` is `-1 - n`
pub data ℤ : Type 0 where
  pos negsuc : ℕ → ℤ
