-- ===== src/Expected.antt =====
-- include/pipepp/core/expected.hpp: a value or an error, and `result`, which has no value.
use pipepp_core.Prelude.{Bool, true, false}
use pipepp_core.ErrorCode.{ErrorCode}

-- `expected<T, E>`: `has_value_` picks the live member of the union.
pub data Expected {ℓ κ} (T : Type ℓ) (E : Type κ) : Type (ℓ ⊔ κ) where
  value : T → Expected T E
  error : E → Expected T E

abbrev pub has_value {ℓ κ} : {T : Type ℓ} {E : Type κ} → Expected T E → Bool
has_value (value v) = true
has_value (error e) = false

abbrev pub value_or {ℓ κ} : {T : Type ℓ} {E : Type κ} → Expected T E → T → T
value_or (value v) default_val = v
value_or (error e) default_val = default_val

-- `using result = expected<void, error_code>`
abbrev pub Result : Type 0
Result = Expected (Unit {0}) ErrorCode

-- `return {}`
abbrev pub ok : Result
ok = value tt

-- `result{unexpect, make_unexpected(e)}`
abbrev pub fail : ErrorCode → Result
fail e = error e

abbrev pub is_ok : Result → Bool
is_ok r = has_value r
