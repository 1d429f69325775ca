-- ===== src/ExpectedObject.antt =====
-- include/pipepp/core/expected.hpp: the union in `expected`, with the lifetimes of its members. The
-- other modules read an `expected` as a value or an error (`Expected`).
pub mod Access
pub mod OfVoid
use pipepp_core.Prelude.{◌≡◌, refl, Bool, true, false, if◌then◌else◌}
use pipepp_core.Exec.{Exec, done, fault, dead_object, leaked_object, failed_assert, ◌>>=◌}
use pipepp_core.Expected.{Expected, value, error}

-- The union: no member is alive, or `val_`, or `err_`.
pub data Union (T E : Type 0) : Type 0 where
  no_member : Union T E
  val : T → Union T E
  err : E → Union T E

-- `unexpected<E>`
pub record Unexpected (E : Type 0) : Type 0 where
  pub error_ : E

-- `make_unexpected`
abbrev pub make_unexpected : {E : Type 0} → E → Unexpected E
make_unexpected e = record { error_ = e }

-- `has_value_` and the union
pub record ExpectedObject (T E : Type 0) : Type 0 where
  pub has_value : Bool
  pub member : Union T E

module _ {T E : Type 0} where
  abbrev pub build_val : Union T E → T → Exec (Union T E)
  build_val no_member t = done (val t)
  build_val _ t = fault leaked_object

  abbrev pub build_err : Union T E → E → Exec (Union T E)
  build_err no_member e = done (err e)
  build_err _ e = fault leaked_object

  abbrev pub read_val : Union T E → Exec T
  read_val (val t) = done t
  read_val _ = fault dead_object

  abbrev pub read_err : Union T E → Exec E
  read_err (err e) = done e
  read_err _ = fault dead_object

  -- `expected(T v)`
  unfoldable pub from_value : T → Exec (ExpectedObject T E)
  from_value v = build_val no_member v >>= λ m. done (record { has_value = true; member = m })

  -- `expected(unexpect_t, unexpected<E> u)`
  unfoldable pub from_unexpected : Unexpected E → Exec (ExpectedObject T E)
  from_unexpected u =
      build_err no_member u.error_ >>= λ m. done (record { has_value = false; member = m })

  -- `value` and `operator*`
  unfoldable pub value_of : ExpectedObject T E → Exec T
  value_of o = read_val o.member

  -- `error`
  unfoldable pub error_of : ExpectedObject T E → Exec E
  error_of o = if o.has_value then fault failed_assert else read_err o.member

  -- `value_or(U&& default_val) const&`
  unfoldable pub value_or_of : ExpectedObject T E → T → Exec T
  value_or_of o default_val = if o.has_value then read_val o.member else done default_val

  -- `destroy`
  unfoldable pub destroy : ExpectedObject T E → Exec (Union T E)
  destroy o =
      if o.has_value
      then (read_val o.member >>= λ t. done no_member)
      else (read_err o.member >>= λ e. done no_member)

  -- The member of `o`, built in `dst`.
  unfoldable pub copy_member : Union T E → ExpectedObject T E → Exec (ExpectedObject T E)
  copy_member dst o =
      (if o.has_value
        then (read_val o.member >>= λ t. build_val dst t)
        else (read_err o.member >>= λ e. build_err dst e))
      >>= λ m. done (record { has_value = o.has_value; member = m })

  -- `expected(const expected& o)`
  unfoldable pub copy_expected : ExpectedObject T E → Exec (ExpectedObject T E)
  unfolding copy_member
  copy_expected o = copy_member no_member o

  -- `operator=(const expected& o)`, for two different objects
  unfoldable pub copy_assign_expected :
      ExpectedObject T E → ExpectedObject T E → Exec (ExpectedObject T E)
  unfolding destroy copy_member
  copy_assign_expected s o = destroy s >>= λ m. copy_member m o

  -- The object that holds a value or an error.
  abbrev pub expected_of : Expected T E → ExpectedObject T E
  expected_of (value t) = record { has_value = true; member = val t }
  expected_of (error e) = record { has_value = false; member = err e }

-- `left_val` and `left_err` are what a move leaves in the object that is moved from.
module _ {T E : Type 0} (left_val : T → T) (left_err : E → E) where
  -- The member of `o` moved into `dst`, with what is left of `o`.
  unfoldable pub move_member :
      Union T E → ExpectedObject T E → Exec (ExpectedObject T E × ExpectedObject T E)
  move_member dst o =
      (if o.has_value
        then (read_val o.member >>= λ t. build_val dst t >>= λ m. done (m, val (left_val t)))
        else (read_err o.member >>= λ e. build_err dst e >>= λ m. done (m, err (left_err e))))
      >>= λ (m, left).
          done (record { has_value = o.has_value; member = m }, record o { member = left })

  -- `expected(expected&& o)`
  unfoldable pub move_expected : ExpectedObject T E → Exec (ExpectedObject T E × ExpectedObject T E)
  unfolding move_member
  move_expected o = move_member no_member o

  -- `operator=(expected&& o)`, for two different objects
  unfoldable pub move_assign_expected :
      ExpectedObject T E → ExpectedObject T E → Exec (ExpectedObject T E × ExpectedObject T E)
  unfolding destroy move_member
  move_assign_expected s o = destroy s >>= λ m. move_member m o

  abbrev pub left : Expected T E → Expected T E
  left (value t) = value (left_val t)
  left (error e) = error (left_err e)

  -- Copies and moves of an `expected` give the value or the error that it holds, a move leaves what
  -- a move of the member leaves, and an assignment ends the life of the old member, of whichever
  -- kind, before the new one begins: no member is read or destroyed when it is not alive, and none
  -- is built over another.
  pub expected_of-lifetimes :
      (x y : Expected T E)
      → (copy_expected (expected_of x) ≡ done (expected_of x))
        × (move_expected (expected_of x) ≡ done (expected_of x, expected_of (left x)))
        × (copy_assign_expected (expected_of x) (expected_of y) ≡ done (expected_of y))
        × (move_assign_expected (expected_of x) (expected_of y)
            ≡ done (expected_of y, expected_of (left y)))
        × (destroy (expected_of x) ≡ done no_member)
  unfolding copy_expected move_expected copy_assign_expected move_assign_expected
  expected_of-lifetimes (value t) (value u) = (refl, refl, refl, refl, refl)
  expected_of-lifetimes (value t) (error e) = (refl, refl, refl, refl, refl)
  expected_of-lifetimes (error d) (value u) = (refl, refl, refl, refl, refl)
  expected_of-lifetimes (error d) (error e) = (refl, refl, refl, refl, refl)
