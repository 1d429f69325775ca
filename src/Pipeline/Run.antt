-- ===== src/Pipeline/Run.antt =====
-- include/pipepp/core/pipeline.hpp: `run`, `event_loop` and `poll_once`.
pub mod Ends
pub mod Early
pub mod Session
pub mod Errors
pub mod Keeps
pub mod Calls
pub mod Idle
pub mod Polled
pub mod AtRest
use pipepp_core.Prelude.{
  ℕ, zero, suc, Bool, true, false, ◌&&◌, not, Option, none, some, List, [], ◌∷◌, get_elem?,
  if◌then◌else◌,
}
use pipepp_core.ErrorCode.{is_error}
use pipepp_core.Exec.{Exec, done, fault, unfinished, ◌>>=◌}
use pipepp_core.Expected.{Result, ok, fail, has_value}
use pipepp_core.Config.{Config}
use pipepp_core.FixedString.{as_view}
use pipepp_core.Source.{BusSource, Subscription}
use pipepp_core.Stages.{ConfigFn, callee}
use pipepp_core.Pipeline.{Pipeline, subscription_at, stop}
use pipepp_core.Pipeline.Emit.{emit_all}

module _ {S : Type 0} (bus : BusSource S) where
  -- The loop over `subscriptions_`, with `rounds` for `sub_count_ - i`.
  unfoldable pub run_subscriptions : Config → ℕ → ℕ → List Subscription → S → Result × S
  run_subscriptions c zero i subs src = (ok, src)
  run_subscriptions c (suc rounds) i subs src =
      let sub = subscription_at c (get_elem? subs i) in
      let (r, src') = bus.subscribe src (as_view sub.topic) sub.qos in
      let rest = run_subscriptions c rounds (suc i) subs src' in
      if has_value r then rest else (r, src')

module _ {S W : Type 0} (bus : BusSource S) where
  open bus use {connect, disconnect, is_connected, set_message_callback, poll}

  -- The loop over `config_ops_`, with `rounds` for `config_count_ - i`.
  unfoldable pub run_configs : ℕ → ℕ → List (Option (ConfigFn S W)) → S → W → Exec (Result × S × W)
  run_configs zero i ops src w = done (ok, src, w)
  run_configs (suc rounds) i ops src w = do
    f ← callee (get_elem? ops i)
    (r, src', w') ← f src w
    if has_value r then run_configs rounds (suc i) ops src' w' else done (r, src', w')

  -- The `while` of `event_loop`. The schedule says, for each test of the condition, whether another
  -- thread has called `stop()` before it.
  unfoldable pub poll_loop : List Bool → Pipeline S W → W → Exec (Pipeline S W × W)
  poll_loop [] p w = fault unfinished
  poll_loop (stopped ∷ schedule) p w =
      let q = if stopped then stop p else p in
      let polled = poll q.source in
      let rest =
        (emit_all (record q { source = polled.1 }) w polled.0 >>= λ (q', w').
        poll_loop schedule q' w') in
      if q.running && is_connected q.source then rest else done (q, w)

  -- `event_loop`
  unfoldable pub event_loop : List Bool → Pipeline S W → W → Exec (Pipeline S W × W)
  unfolding poll_loop
  event_loop schedule p w =
      poll_loop schedule (record p { source = set_message_callback p.source }) w

  -- `source_.disconnect()`, whose result is not looked at.
  abbrev pub disconnected : Pipeline S W → Pipeline S W
  disconnected p = record p { source = (disconnect p.source).1 }

  -- `run` behind the subscriptions.
  unfoldable pub run_loop : List Bool → Pipeline S W → W → Exec (Result × Pipeline S W × W)
  unfolding event_loop
  run_loop schedule p w = do
    (q, w') ← event_loop schedule (record p { running = true }) w
    done (ok, disconnected (record q { running = false }), w')

  -- `run` behind the configuration functions.
  unfoldable pub run_subscribed : List Bool → Pipeline S W → W → Exec (Result × Pipeline S W × W)
  unfolding run_subscriptions run_loop
  run_subscribed schedule p w =
      let (r, src) = run_subscriptions bus p.config p.sub_count 0 p.subscriptions p.source in
      let q = record p { source = src } in
      let rest = run_loop schedule q w in if has_value r then rest else done (r, disconnected q, w)

  -- `run` behind `connect`.
  unfoldable pub run_connected : List Bool → Pipeline S W → W → Exec (Result × Pipeline S W × W)
  unfolding run_configs run_subscribed
  run_connected schedule p w = do
    (r, src, w') ← run_configs p.config_count 0 p.config_ops p.source w
    let q = record p { source = src }
    let rest = run_subscribed schedule q w'
    if has_value r then rest else done (r, disconnected q, w')

  -- `run`
  unfoldable pub run : List Bool → Pipeline S W → W → Exec (Result × Pipeline S W × W)
  unfolding run_connected
  run schedule p w =
      let (r, src) = connect p.source p.owned_uri.view in
      let q = record p { source = src } in
      let rest = run_connected schedule q w in
      if is_error p.pending_error
      then done (fail p.pending_error, p, w)
      else if has_value r
      then rest
      else done (r, q, w)

  -- `poll_once`
  unfoldable pub poll_once : Pipeline S W → W → Exec (Bool × Pipeline S W × W)
  poll_once p w =
      let polled = poll p.source in
      let rest =
        (emit_all (record p { source = polled.1 }) w polled.0 >>= λ (q, w').
        done (q.running, q, w')) in
      if not (p.running && is_connected p.source) then done (false, p, w) else rest
