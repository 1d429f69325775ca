-- ===== src/AnySource.antt =====
-- include/pipepp/core/any_source.hpp: a source of any type, or none. `S` holds the states of all the
-- types of sources, and `bus` their operations.
pub mod Dispatch
pub mod Empty
use pipepp_core.Prelude.{ℕ, ℤ, Bool, true, false, Option, none, some, List, [], if◌then◌else◌}
use pipepp_core.ErrorCode.{ErrorCode}
use pipepp_core.Exec.{Exec, done, ◌>>=◌}
use pipepp_core.Expected.{Result, ok, fail}
use pipepp_core.Message.{MessageView}
use pipepp_core.SmallFunction.{Storage, vacant, alive, build_in, destroy_impl, move_impl, held}
use pipepp_core.Source.{BusSource}
use pipepp_core.Uri.{UriView}

-- `vtable`: functions on the storage that `self` points to.
pub record Vtable (S : Type 0) : Type 0 where
  pub connect_fn : Storage S → UriView → Exec (Result × Storage S)
  pub disconnect_fn : Storage S → Exec (Result × Storage S)
  pub is_connected_fn : Storage S → Exec Bool
  pub subscribe_fn : Storage S → List ℕ → ℤ → Exec (Result × Storage S)
  pub publish_fn : Storage S → List ℕ → List ℕ → ℤ → Exec (Result × Storage S)
  pub set_callback_fn : Storage S → Exec (Storage S)
  pub poll_fn : Storage S → Exec (List MessageView × Storage S)
  pub destroy_fn : Storage S → Exec (Storage S)
  pub move_fn : Storage S → Storage S → Exec (Storage S × Storage S)

-- `any_source<Config>`: a null `vtable_` is `none`.
pub record AnySource (S : Type 0) : Type 0 where
  pub vtable : Option (Vtable S)
  pub storage : Storage S

module _ {S A : Type 0} where
  -- A call of the source that stands in the storage.
  abbrev pub on_source : (S → A × S) → Storage S → Exec (A × Storage S)
  on_source f self = held self >>= λ s. let (a, s') = f s in done (a, alive s')

module _ {S : Type 0} (bus : BusSource S) where
  -- `connect_impl` to `poll_impl`
  abbrev pub connect_impl : Storage S → UriView → Exec (Result × Storage S)
  connect_impl self uri = on_source (λ s. bus.connect s uri) self

  abbrev pub disconnect_impl : Storage S → Exec (Result × Storage S)
  disconnect_impl self = on_source bus.disconnect self

  abbrev pub is_connected_impl : Storage S → Exec Bool
  is_connected_impl self = held self >>= λ s. done (bus.is_connected s)

  abbrev pub subscribe_impl : Storage S → List ℕ → ℤ → Exec (Result × Storage S)
  subscribe_impl self topic qos = on_source (λ s. bus.subscribe s topic qos) self

  abbrev pub publish_impl : Storage S → List ℕ → List ℕ → ℤ → Exec (Result × Storage S)
  publish_impl self topic payload qos = on_source (λ s. bus.publish s topic payload qos) self

  abbrev pub set_callback_impl : Storage S → Exec (Storage S)
  set_callback_impl self = held self >>= λ s. done (alive (bus.set_message_callback s))

  abbrev pub poll_impl : Storage S → Exec (List MessageView × Storage S)
  poll_impl self = on_source bus.poll self

  -- `destroy_impl` and `move_impl`
  abbrev pub destroy_source_impl : Storage S → Exec (Storage S)
  destroy_source_impl self = destroy_impl self

  abbrev pub move_source_impl : Storage S → Storage S → Exec (Storage S × Storage S)
  move_source_impl src dst = move_impl src dst

  -- `vtable_for<Source>()`
  abbrev pub vtable_for : Vtable S
  vtable_for = record {
    connect_fn = connect_impl;
    disconnect_fn = disconnect_impl;
    is_connected_fn = is_connected_impl;
    subscribe_fn = subscribe_impl;
    publish_fn = publish_impl;
    set_callback_fn = set_callback_impl;
    poll_fn = poll_impl;
    destroy_fn = destroy_source_impl;
    move_fn = move_source_impl;
  }

  -- `any_source(Source&& src)`: the storage is raw before.
  unfoldable pub any_source_of : S → Exec (AnySource S)
  any_source_of src =
      build_in vacant src >>= λ st. done (record { vtable = some vtable_for; storage = st })

module _ {S A : Type 0} where
  -- A call through `vtable_`, if it is set, and what an empty object answers.
  abbrev pub dispatch :
      A → (Vtable S → Storage S → Exec (A × Storage S)) → AnySource S → Exec (A × AnySource S)
  dispatch empty fn a = elim a.vtable [
    | none ↦ done (empty, a)
    | some vt ↦ fn vt a.storage >>= λ (r, st). done (r, record a { storage = st })
  ]

module _ {S : Type 0} where
  -- `any_source()`
  abbrev pub no_source : AnySource S
  no_source = record { vtable = none; storage = vacant }

  -- `connect` to `poll`
  unfoldable pub connect : AnySource S → UriView → Exec (Result × AnySource S)
  connect a uri = dispatch (fail ErrorCode.not_connected) (λ vt st. vt.connect_fn st uri) a

  unfoldable pub disconnect : AnySource S → Exec (Result × AnySource S)
  disconnect a = dispatch ok (λ vt st. vt.disconnect_fn st) a

  unfoldable pub is_connected : AnySource S → Exec Bool
  is_connected a = elim a.vtable [ none ↦ done false | some vt ↦ vt.is_connected_fn a.storage ]

  unfoldable pub subscribe : AnySource S → List ℕ → ℤ → Exec (Result × AnySource S)
  subscribe a topic qos = dispatch ok (λ vt st. vt.subscribe_fn st topic qos) a

  unfoldable pub publish : AnySource S → List ℕ → List ℕ → ℤ → Exec (Result × AnySource S)
  publish a topic payload qos = dispatch ok (λ vt st. vt.publish_fn st topic payload qos) a

  unfoldable pub set_message_callback : AnySource S → Exec (AnySource S)
  set_message_callback a = elim a.vtable [
    | none ↦ done a
    | some vt ↦ vt.set_callback_fn a.storage >>= λ st. done (record a { storage = st })
  ]

  unfoldable pub poll : AnySource S → Exec (List MessageView × AnySource S)
  poll a = dispatch [] (λ vt st. vt.poll_fn st) a

  -- `operator bool`
  abbrev pub is_set : AnySource S → Bool
  is_set a = elim a.vtable [ none ↦ false | some vt ↦ true ]

  -- `reset`, and the destructor
  unfoldable pub reset_source : AnySource S → Exec (AnySource S)
  reset_source a =
      elim a.vtable [ none ↦ done a.storage | some vt ↦ vt.destroy_fn a.storage ] >>= λ st.
      done (record { vtable = none; storage = st })

  -- The source of `other` moved into `dst`: what the new object and `other` are.
  unfoldable pub take_source : Storage S → AnySource S → Exec (AnySource S × AnySource S)
  take_source dst other = elim other.vtable [
    | none ↦ done (record other { storage = dst }, record other { vtable = none })
    | some vt ↦ do
      (src, d) ← vt.move_fn other.storage dst
      src' ← vt.destroy_fn src
      done (record other { storage = d }, record { vtable = none; storage = src' })
  ]

  -- `any_source(any_source&& other)`
  unfoldable pub move_source : AnySource S → Exec (AnySource S × AnySource S)
  unfolding take_source
  move_source other = take_source vacant other

  -- `operator=(any_source&& other)`, for two different objects
  unfoldable pub assign_source : AnySource S → AnySource S → Exec (AnySource S × AnySource S)
  unfolding reset_source take_source
  assign_source a other = reset_source a >>= λ a'. take_source a'.storage other

-- The specification of the operations, on the source that is held, if one is: what an object answers
-- of which only the source counts. It is no translation of code.
abbrev pub through : {S A : Type 0} → A → (S → A × S) → Option S → A × Option S
through empty f none = (empty, none)
through empty f (some s) = let (a, s') = f s in (a, some s')

module _ {S : Type 0} (bus : BusSource S) where
  abbrev pub any_bus : BusSource (Option S)
  any_bus = record {
    connect = λ o uri. through (fail ErrorCode.not_connected) (λ s. bus.connect s uri) o;
    disconnect = through ok bus.disconnect;
    is_connected = λ o. elim o [ none ↦ false | some s ↦ bus.is_connected s ];
    subscribe = λ o topic qos. through ok (λ s. bus.subscribe s topic qos) o;
    publish = λ o topic payload qos. through ok (λ s. bus.publish s topic payload qos) o;
    set_message_callback = λ o. elim o [ none ↦ none | some s ↦ some (bus.set_message_callback s) ];
    poll = through [] bus.poll;
  }
