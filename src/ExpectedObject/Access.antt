-- ===== src/ExpectedObject/Access.antt =====
-- The constructors and accessors of the union in include/pipepp/core/expected.hpp.
use pipepp_core.Prelude.{◌≡◌, refl}
use pipepp_core.Exec.{Exec, done, fault, dead_object, failed_assert}
use pipepp_core.Expected.{Expected, value, error, value_or}
use pipepp_core.ExpectedObject.{
  ExpectedObject, make_unexpected, from_value, from_unexpected, value_of, error_of, value_or_of,
  expected_of,
}

module _ {T E : Type 0} where
  -- The object as its constructors make it.
  abbrev pub construct : Expected T E → Exec (ExpectedObject T E)
  construct (value t) = from_value t
  construct (error e) = from_unexpected (make_unexpected e)

  -- What `value` and `error` come to: the member that is asked for, or a misuse.
  abbrev pub value_access : Expected T E → Exec T
  value_access (value t) = done t
  value_access (error e) = fault dead_object

  abbrev pub error_access : Expected T E → Exec E
  error_access (value t) = fault failed_assert
  error_access (error e) = done e

  -- The constructors make the object that holds the value or the error; `value` gives a value and
  -- reads a dead member on an error, `error` gives an error and fails its assertion on a value, and
  -- `value_or` reads no dead member on either.
  pub construct-access :
      (x : Expected T E) (t : T)
      → (construct x ≡ done (expected_of x))
        × (value_of (expected_of x) ≡ value_access x)
        × (error_of (expected_of x) ≡ error_access x)
        × (value_or_of (expected_of x) t ≡ done (value_or x t))
  unfolding from_value from_unexpected value_of error_of value_or_of
  construct-access (value u) t = (refl, refl, refl, refl)
  construct-access (error e) t = (refl, refl, refl, refl)
