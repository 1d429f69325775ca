-- ===== src/Pipeline/Run/Session.antt =====
-- What `run` of include/pipepp/core/pipeline.hpp does with its source, told without arrays or
-- counters.
pub mod Refines
use pipepp_core.Prelude.{
  ℕ, zero, suc, ◌≡◌, refl, sym, ap, ◌∙◌, Bool, true, false, not, ◌&&◌, Option, some, List, [], ◌∷◌,
  map, length, take, drop, take-drop_cons, if◌then◌else◌, arith,
}
use pipepp_core.Exec.{
  Exec, done, fault, unfinished, ◌>>=◌, map_exec, >>=_assoc, >>=-ext, if-map, if_of_false,
}
use pipepp_core.ErrorCode.{is_error}
use pipepp_core.Expected.{Result, ok, has_value}
use pipepp_core.Config.{Config}
use pipepp_core.FixedString.{as_view}
use pipepp_core.Message.{MessageView}
use pipepp_core.Source.{BusSource, Subscription}
use pipepp_core.Spinlock.{unlocked}
use pipepp_core.Stages.{ConfigFn, ProcessFn, SinkFn, callee}
use pipepp_core.Uri.{UriView}
use pipepp_core.Pipeline.{Pipeline}
use pipepp_core.Pipeline.Emit.{Env, env_of, with_env}
use pipepp_core.Pipeline.Emit.Flow.{Holds}
use pipepp_core.Pipeline.Emit.Sequence.{deliver_all, emit_all-deliver_all}
use pipepp_core.Pipeline.Run.{
  run_subscriptions, run_configs, poll_loop, event_loop, run_loop, run_subscribed, run_connected,
  run, disconnected,
}

module _ {S : Type 0} (bus : BusSource S) where
  -- The subscriptions in order, up to the first that the source refuses.
  abbrev pub subscribe_all : List Subscription → S → Result × S
  subscribe_all [] src = (ok, src)
  subscribe_all (sub ∷ subs) src =
      let (r, src') = bus.subscribe src (as_view sub.topic) sub.qos in
      let rest = subscribe_all subs src' in if has_value r then rest else (r, src')

  pub run_subscriptions_lem :
      (c : Config) (subs : List Subscription) (n i : ℕ) (slots : List Subscription)
      → take n (drop i slots) ≡ subs
      → length subs ≡ n
      → (src : S) → run_subscriptions bus c n i slots src ≡ subscribe_all subs src
  unfolding run_subscriptions
  run_subscriptions_lem c [] zero i slots h k src = refl
  run_subscriptions_lem c [] (suc n) i slots h k src = absurd (omega arith)
  run_subscriptions_lem c (s ∷ subs) zero i slots h k src = absurd (omega arith)
  run_subscriptions_lem c (s ∷ subs) (suc n) i slots h k src =
      let (here, later) = take-drop_cons slots n i s subs h in
      let res = bus.subscribe src (as_view s.topic) s.qos in
      rw here (
        ap (λ rest. if has_value res.0 then rest else (res.0, res.1))
          (run_subscriptions_lem c subs n (suc i) slots later (omega arith) res.1))

module _ {S W : Type 0} (bus : BusSource S) where
  -- The configuration functions in order, up to the first that fails.
  abbrev pub configure_all : List (ConfigFn S W) → S → W → Exec (Result × S × W)
  configure_all [] src w = done (ok, src, w)
  configure_all (g ∷ gs) src w = do
    (r, src', w') ← g src w
    if has_value r then configure_all gs src' w' else done (r, src', w')

  pub run_configs_lem :
      (gs : List (ConfigFn S W)) (n i : ℕ) (ops : List (Option (ConfigFn S W)))
      → take n (drop i ops) ≡ map some gs
      → length gs ≡ n
      → (src : S) (w : W) → run_configs bus n i ops src w ≡ configure_all gs src w
  unfolding run_configs callee
  run_configs_lem [] zero i ops h k src w = refl
  run_configs_lem [] (suc n) i ops h k src w = absurd (omega arith)
  run_configs_lem (g ∷ gs) zero i ops h k src w = absurd (omega arith)
  run_configs_lem (g ∷ gs) (suc n) i ops h k src w =
      let (here, later) = take-drop_cons ops n i (some g) (map some gs) h in
      rw here (
        >>=-ext (g src w) _ _ λ (r, src', w').
          ap (λ rest. if has_value r then rest else done (r, src', w'))
            (run_configs_lem gs n (suc i) ops later (omega arith) src' w'))

module _ {S W : Type 0} (bus : BusSource S) (c : Config) (fs : List (ProcessFn W))
    (sink : Option (SinkFn W)) where
  -- While nobody has stopped it and the source is connected: poll, and deliver what comes.
  abbrev pub rounds : List Bool → S → Env W → Exec (S × Env W)
  rounds [] src env = fault unfinished
  rounds (stopped ∷ schedule) src env =
      let running = not stopped && env.running in
      let (mvs, src') = bus.poll src in
      let polled = (deliver_all c fs sink mvs env >>= λ env'. rounds schedule src' env') in
      if running && bus.is_connected src
      then polled
      else done (src, record env { running = running })

  -- Install the callback, go round until that ends, and disconnect.
  abbrev pub listen : List Bool → S → W → Exec (Result × S × W)
  listen schedule src w = do
    (src', env) ←
        rounds schedule (bus.set_message_callback src) (record { world = w; running = true })
    done (ok, (bus.disconnect src').1, env.world)

  -- Subscribe, and listen if the source agrees; else disconnect.
  abbrev pub subscribed_session : List Subscription → List Bool → S → W → Exec (Result × S × W)
  subscribed_session subs schedule src w =
      let (r, src') = subscribe_all bus subs src in
      if has_value r then listen schedule src' w else done (r, (bus.disconnect src').1, w)

  -- Configure, and subscribe if that succeeds; else disconnect.
  abbrev pub connected_session :
      List (ConfigFn S W) → List Subscription → List Bool → S → W → Exec (Result × S × W)
  connected_session gs subs schedule src w = do
    (r, src', w') ← configure_all bus gs src w
    let listened = subscribed_session subs schedule src' w'
    if has_value r then listened else done (r, (bus.disconnect src').1, w')

  -- Connect, and go on if the source agrees.
  abbrev pub session :
      List (ConfigFn S W) → List Subscription → UriView → List Bool → S → W → Exec (Result × S × W)
  session gs subs uri schedule src w =
      let (r, src') = bus.connect src uri in
      if has_value r then connected_session gs subs schedule src' w else done (r, src', w)
