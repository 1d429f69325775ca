-- ===== src/ExpectedObject/OfVoid.antt =====
-- include/pipepp/core/expected.hpp, `expected<void, E>`: only an error is ever built, so the member
-- is an error that is alive or not.
use pipepp_core.Prelude.{◌≡◌, refl, Bool, true, false, Option, none, some, if◌then◌else◌}
use pipepp_core.Exec.{Exec, done, fault, dead_object, leaked_object, failed_assert, ◌>>=◌}
use pipepp_core.Expected.{Expected, value, error}
use pipepp_core.ExpectedObject.{Unexpected, make_unexpected}
use pipepp_core.ExpectedObject.Access.{error_access}

-- `has_value_` and the union
pub record VoidObject (E : Type 0) : Type 0 where
  pub has_value : Bool
  pub member : Option E

module _ {E : Type 0} where
  abbrev pub build_error : Option E → E → Exec (Option E)
  build_error none e = done (some e)
  build_error (some _) e = fault leaked_object

  abbrev pub read_error : Option E → Exec E
  read_error none = fault dead_object
  read_error (some e) = done e

  -- `expected()`
  abbrev pub good : VoidObject E
  good = record { has_value = true; member = none }

  -- `expected(unexpect_t, unexpected<E> u)`
  unfoldable pub failed : Unexpected E → Exec (VoidObject E)
  failed u = build_error none u.error_ >>= λ m. done (record { has_value = false; member = m })

  -- `error`
  unfoldable pub error_of : VoidObject E → Exec E
  error_of o = if o.has_value then fault failed_assert else read_error o.member

  -- `destroy`
  unfoldable pub destroy : VoidObject E → Exec (Option E)
  destroy o = if o.has_value then done o.member else (read_error o.member >>= λ e. done none)

  -- The member of `o`, built in `dst`.
  unfoldable pub copy_member : Option E → VoidObject E → Exec (VoidObject E)
  copy_member dst o =
      (if o.has_value then done dst else (read_error o.member >>= λ e. build_error dst e)) >>= λ m.
      done (record { has_value = o.has_value; member = m })

  -- `expected(const expected& o)`
  unfoldable pub copy_expected : VoidObject E → Exec (VoidObject E)
  unfolding copy_member
  copy_expected o = copy_member none o

  -- `operator=(const expected& o)`, for two different objects
  unfoldable pub copy_assign : VoidObject E → VoidObject E → Exec (VoidObject E)
  unfolding destroy copy_member
  copy_assign s o = destroy s >>= λ m. copy_member m o

  -- The object that holds success or an error.
  abbrev pub void_object : Expected (Unit {0}) E → VoidObject E
  void_object (value _) = good
  void_object (error e) = record { has_value = false; member = some e }

  abbrev pub construct_void : Expected (Unit {0}) E → Exec (VoidObject E)
  construct_void (value _) = done good
  construct_void (error e) = failed (make_unexpected e)

-- `left_err` is what a move leaves in the error that is moved from.
module _ {E : Type 0} (left_err : E → E) where
  -- The member of `o` moved into `dst`, with what is left of `o`.
  unfoldable pub move_member : Option E → VoidObject E → Exec (VoidObject E × VoidObject E)
  move_member dst o =
      (if o.has_value
        then done (dst, o.member)
        else (read_error o.member >>= λ e. build_error dst e >>= λ m. done (m, some (left_err e))))
      >>= λ (m, left).
          done (record { has_value = o.has_value; member = m }, record o { member = left })

  -- `expected(expected&& o)`
  unfoldable pub move_expected : VoidObject E → Exec (VoidObject E × VoidObject E)
  unfolding move_member
  move_expected o = move_member none o

  -- `operator=(expected&& o)`, for two different objects
  unfoldable pub move_assign : VoidObject E → VoidObject E → Exec (VoidObject E × VoidObject E)
  unfolding destroy move_member
  move_assign s o = destroy s >>= λ m. move_member m o

  abbrev pub left_void : Expected (Unit {0}) E → Expected (Unit {0}) E
  left_void (value u) = value u
  left_void (error e) = error (left_err e)

  -- `expected<void, E>` is made, copied, moved, assigned and destroyed like the value or error it
  -- stands for: each gives the success or the error that is held, a move leaves what a move of the
  -- error leaves, `error` fails its assertion on a success, and no error is read or destroyed that
  -- is not alive, built over another, or left alive behind an assignment.
  pub void_object-lifetimes :
      (x y : Expected (Unit {0}) E)
      → (construct_void x ≡ done (void_object x))
        × (copy_expected (void_object x) ≡ done (void_object x))
        × (move_expected (void_object x) ≡ done (void_object x, void_object (left_void x)))
        × (copy_assign (void_object x) (void_object y) ≡ done (void_object y))
        × (move_assign (void_object x) (void_object y)
            ≡ done (void_object y, void_object (left_void y)))
        × (error_of (void_object x) ≡ error_access x)
        × (destroy (void_object x) ≡ done none)
  unfolding failed copy_expected move_expected copy_assign move_assign error_of
  void_object-lifetimes (value t) (value u) = (refl, refl, refl, refl, refl, refl, refl)
  void_object-lifetimes (value t) (error e) = (refl, refl, refl, refl, refl, refl, refl)
  void_object-lifetimes (error d) (value u) = (refl, refl, refl, refl, refl, refl, refl)
  void_object-lifetimes (error d) (error e) = (refl, refl, refl, refl, refl, refl, refl)
