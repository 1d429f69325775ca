-- ===== src/AnySource/Dispatch.antt =====
-- The operations and the lifetimes of include/pipepp/core/any_source.hpp, told without tables and
-- storage.
use pipepp_core.Prelude.{ℕ, ℤ, ◌≡◌, refl, Option, none, some, List}
use pipepp_core.Exec.{done}
use pipepp_core.Source.{BusSource}
use pipepp_core.Uri.{UriView}
use pipepp_core.SmallFunction.{alive}
use pipepp_core.AnySource.{
  AnySource, vtable_for, no_source, connect, disconnect, is_connected, subscribe, publish,
  set_message_callback, poll, reset_source, move_source, assign_source, any_bus,
}

-- The object that holds a source or none.
abbrev pub holder : {S : Type 0} → BusSource S → Option S → AnySource S
holder bus none = no_source
holder bus (some s) = record { vtable = some (vtable_for bus); storage = alive s }

abbrev pub with_holder : {S A : Type 0} → BusSource S → A × Option S → A × AnySource S
with_holder bus (a, o) = (a, holder bus o)

module _ {S : Type 0} (bus : BusSource S) where
  -- Every operation of an `any_source` answers as the source that it holds and changes that source
  -- alone, and on an empty one answers as told by `any_bus`: `not_connected` to `connect`, success
  -- or nothing to the others. No call goes to a source that is not alive.
  pub dispatch-any_bus :
      (o : Option S) (uri : UriView) (topic payload : List ℕ) (qos : ℤ)
      → (connect (holder bus o) uri ≡ done (with_holder bus ((any_bus bus).connect o uri)))
        × (disconnect (holder bus o) ≡ done (with_holder bus ((any_bus bus).disconnect o)))
        × (is_connected (holder bus o) ≡ done ((any_bus bus).is_connected o))
        × (subscribe (holder bus o) topic qos
            ≡ done (with_holder bus ((any_bus bus).subscribe o topic qos)))
        × (publish (holder bus o) topic payload qos
            ≡ done (with_holder bus ((any_bus bus).publish o topic payload qos)))
        × (set_message_callback (holder bus o)
            ≡ done (holder bus ((any_bus bus).set_message_callback o)))
        × (poll (holder bus o) ≡ done (with_holder bus ((any_bus bus).poll o)))
  unfolding connect disconnect is_connected subscribe publish set_message_callback poll
  dispatch-any_bus none uri topic payload qos = (refl, refl, refl, refl, refl, refl, refl)
  dispatch-any_bus (some s) uri topic payload qos = (refl, refl, refl, refl, refl, refl, refl)

  -- Construction by move and assignment by move take the source over and leave the other object
  -- empty, and a reset leaves it empty; whatever the two objects hold, each source is destroyed once
  -- and none is used after.
  pub move-holder :
      (o o' : Option S)
      → (reset_source (holder bus o) ≡ done (holder bus none))
        × (move_source (holder bus o) ≡ done (holder bus o, holder bus none))
        × (assign_source (holder bus o) (holder bus o') ≡ done (holder bus o', holder bus none))
  unfolding reset_source move_source assign_source
  move-holder none none = (refl, refl, refl)
  move-holder none (some s') = (refl, refl, refl)
  move-holder (some s) none = (refl, refl, refl)
  move-holder (some s) (some s') = (refl, refl, refl)
