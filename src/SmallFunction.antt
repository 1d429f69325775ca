-- ===== src/SmallFunction.antt =====
-- include/pipepp/core/small_function.hpp: a callable in the storage of its holder. What stands in a
-- storage is kept, so that a use of a dead object, a second destruction and a leak are faults.
pub mod Lifetime
use pipepp_core.Prelude.{
  ℕ, ◌==◌, Bool, true, false, Option, none, some, List, [], ◌∷◌, get_elem?, set, if◌then◌else◌,
}
use pipepp_core.Exec.{
  Exec, done, fault, dead_object, leaked_object, null_call, out_of_bounds, ◌>>=◌,
}

-- What stands in a `small_function_storage`: nothing, an object, or what a move left of one, which
-- is still to be destroyed.
pub data Storage (F : Type 0) : Type 0 where
  vacant : Storage F
  alive : F → Storage F
  moved_out : Storage F

-- `small_function`: whether each of the three pointers is set, and the storage.
pub record SmallFunction (F : Type 0) : Type 0 where
  pub invoke_fn : Bool
  pub destroy_fn : Bool
  pub move_fn : Bool
  pub storage : Storage F

module _ {F : Type 0} where
  -- `::new (storage_.data()) Decayed(…)`
  abbrev pub build_in : Storage F → F → Exec (Storage F)
  build_in vacant f = done (alive f)
  build_in _ f = fault leaked_object

  -- `destroy_impl`
  abbrev pub destroy_impl : Storage F → Exec (Storage F)
  destroy_impl vacant = fault dead_object
  destroy_impl _ = done vacant

  -- `move_impl`: the source and the destination after it.
  abbrev pub move_impl : Storage F → Storage F → Exec (Storage F × Storage F)
  move_impl (alive f) dst = build_in dst f >>= λ d. done (moved_out, d)
  move_impl _ dst = fault dead_object

  -- `small_function()` and `small_function(nullptr)`
  abbrev pub no_function : SmallFunction F
  no_function = record { invoke_fn = false; destroy_fn = false; move_fn = false; storage = vacant }

  -- `small_function(F&& f)`
  abbrev pub function_of : F → SmallFunction F
  function_of f = record { invoke_fn = true; destroy_fn = true; move_fn = true; storage = alive f }

  -- The three pointers set to null.
  abbrev pub cleared : Storage F → SmallFunction F
  cleared storage = record {
    invoke_fn = false;
    destroy_fn = false;
    move_fn = false;
    storage = storage;
  }

  -- `reset`, and the destructor
  unfoldable pub reset : SmallFunction F → Exec (SmallFunction F)
  reset s =
      (if s.destroy_fn then destroy_impl s.storage else done s.storage) >>= λ d. done (cleared d)

  -- The pointers of `other` copied, its object moved into `dst` and destroyed, and its pointers set
  -- to null: what the new object and `other` are.
  unfoldable pub take_over : Storage F → SmallFunction F → Exec (SmallFunction F × SmallFunction F)
  take_over dst other =
      (if other.move_fn
        then (do (src, d) ← move_impl other.storage dst; src' ← destroy_impl src; done (src', d))
        else done (other.storage, dst))
      >>= λ (src, d). done (record other { storage = d }, cleared src)

  -- `small_function(small_function&& other)`
  unfoldable pub move_construct : SmallFunction F → Exec (SmallFunction F × SmallFunction F)
  unfolding take_over
  move_construct other = take_over vacant other

  -- `operator=(small_function&& other)`, for two different objects; on itself it does nothing.
  unfoldable pub move_assign :
      SmallFunction F → SmallFunction F → Exec (SmallFunction F × SmallFunction F)
  unfolding reset take_over
  move_assign s other = reset s >>= λ s'. take_over s'.storage other

  abbrev pub held : Storage F → Exec F
  held (alive f) = done f
  held _ = fault dead_object

  -- `operator()`: the callable that is called.
  unfoldable pub invoke : SmallFunction F → Exec F
  invoke s = if s.invoke_fn then held s.storage else fault null_call

-- What a pipeline does with its arrays of closures: `fns[i] = F(f)`, `fns[i] = std::move(fns[j])` and
-- `fns[i].reset()`.
pub data Op (F : Type 0) : Type 0 where
  sets : ℕ → F → Op F
  moves : ℕ → ℕ → Op F
  resets : ℕ → Op F

-- `fns[i]`
abbrev pub element {ℓ} : {A : Type ℓ} → Option A → Exec A
element none = fault out_of_bounds
element (some a) = done a

module _ {F : Type 0} where
  unfoldable pub op : List (SmallFunction F) → Op F → Exec (List (SmallFunction F))
  unfolding move_assign reset
  op fns (sets i f) = do
    s ← element (get_elem? fns i)
    (s', temp) ← move_assign s (function_of f)
    gone ← reset temp
    done (set fns i s')
  op fns (moves i j) = do
    s ← element (get_elem? fns i)
    other ← element (get_elem? fns j)
    if i == j
        then done fns
        else (move_assign s other >>= λ (s', other'). done (set (set fns i s') j other'))
  op fns (resets i) = do s ← element (get_elem? fns i); s' ← reset s; done (set fns i s')

  unfoldable pub run_ops : List (SmallFunction F) → List (Op F) → Exec (List (SmallFunction F))
  run_ops fns [] = done fns
  run_ops fns (o ∷ ops) = do fns' ← op fns o; run_ops fns' ops
