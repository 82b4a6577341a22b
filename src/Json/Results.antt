-- ===== src/Json/Results.antt =====
-- What a function of src/json.cpp can come to: a value, one of the exceptions, `undefined` where it
-- accesses a vector out of range, or the end of the
-- fuel of the model. A position is the value of `pos` at that moment.
use libnap.Base.{ℕ}

pub data Outcome {ℓ} (A : Type ℓ) : Type ℓ where
  done : A → Outcome A
  json_error : ℕ → ℕ → Outcome A
  type_error : Outcome A
  unknown_error : Outcome A
  out_of_range : ℕ → Outcome A
  undefined : Outcome A
  out_of_fuel : Outcome A

infixl 5 ◌>>=◌
abbrev pub ◌>>=◌ {ℓ κ} : {A : Type ℓ} {B : Type κ} → Outcome A → (A → Outcome B) → Outcome B
done a >>= f = f a
json_error pos msg >>= f = json_error pos msg
type_error >>= f = type_error
unknown_error >>= f = unknown_error
out_of_range pos >>= f = out_of_range pos
undefined >>= f = undefined
out_of_fuel >>= f = out_of_fuel
