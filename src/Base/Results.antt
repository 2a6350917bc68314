-- ===== src/Base/Results.antt =====
-- Calls that return or raise. The constructors of `Error` are the kinds of exception that the
-- modelled code raises; `out_of_fuel` stands for a loop that the model cuts off.
use Prim.Native.Nat.{ℕ}
use mathlib.Core.Path.{◌≡◌, refl}
use mathlib.Core.List.{List}

pub data Error : Type 0 where
  -- assert
  assertion_error : Error
  -- raise Exception(...)
  exception : Error
  key_error index_error value_error type_error zero_division overflow_error : Error
  compile_failure : Error
  eof_error struct_error crypto_error : Error
  server_error : List ℕ → Error
  -- sys.exit(1)
  system_exit : Error
  out_of_fuel : Error

-- What a call comes to: an exception, or a value.
pub data Result {ℓ} (V : Type ℓ) : Type ℓ where
  err : Error → Result V
  ok : V → Result V

module _ {ℓ κ} {V : Type ℓ} {W : Type κ} where
  -- The calls behind an exception are not made.
  infixl 5 ◌>>=◌
  abbrev pub ◌>>=◌ : Result V → (V → Result W) → Result W
  err raised >>= rest = err raised
  ok value >>= rest = rest value

  -- Both calls of a sequence that returns have returned.
  pub >>=-eq-ok :
      (m : Result V) (f : V → Result W) {w : W}
      → (m >>= f) ≡ ok w
      → (v : V) × (m ≡ ok v) × (f v ≡ ok w)
  >>=-eq-ok (err raised) f h = cc
  >>=-eq-ok (ok v) f h = (v, refl, h)
