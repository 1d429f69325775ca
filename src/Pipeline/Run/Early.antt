-- ===== src/Pipeline/Run/Early.antt =====
-- `run` of include/pipepp/core/pipeline.hpp while another thread calls `stop()` before its loop begins.
use pipepp_core.Prelude.{◌≡◌, refl, ap, ◌∙◌, Bool, true, false, List, if◌then◌else◌}
use pipepp_core.ErrorCode.{is_error}
use pipepp_core.Exec.{Exec, done, fault, ◌>>=◌, map_exec}
use pipepp_core.Expected.{Result, fail, has_value}
use pipepp_core.Source.{BusSource}
use pipepp_core.Pipeline.{Pipeline, stop}
use pipepp_core.Pipeline.Run.{
  run_subscriptions, run_configs, disconnected, run_loop, run_subscribed, run_connected, run,
}

-- Where `stop()` is called before the loop: before `run`, and behind `connect`, the configuration
-- functions and the subscriptions.
pub record EarlyStops : Type 0 where
  pub before : Bool
  pub connected : Bool
  pub configured : Bool
  pub subscribed : Bool

module _ {S W : Type 0} where
  abbrev pub stop_if : Bool → Pipeline S W → Pipeline S W
  stop_if b p = if b then stop p else p

module _ {S W : Type 0} (bus : BusSource S) (early : EarlyStops) where
  open bus use {connect}

  unfoldable pub stopped_subscribed :
      List Bool → Pipeline S W → W → Exec (Result × Pipeline S W × W)
  unfolding run_subscriptions run_loop
  stopped_subscribed schedule p w =
      let (r, src) = run_subscriptions bus p.config p.sub_count 0 p.subscriptions p.source in
      let q = stop_if early.subscribed (record p { source = src }) in
      let rest = run_loop bus schedule q w in
      if has_value r then rest else done (r, disconnected bus q, w)

  unfoldable pub stopped_connected : List Bool → Pipeline S W → W → Exec (Result × Pipeline S W × W)
  unfolding run_configs stopped_subscribed
  stopped_connected schedule p w = do
    (r, src, w') ← run_configs bus p.config_count 0 p.config_ops p.source w
    let q = stop_if early.configured (record p { source = src })
    let rest = stopped_subscribed schedule q w'
    if has_value r then rest else done (r, disconnected bus q, w')

  unfoldable pub stopped_start : List Bool → Pipeline S W → W → Exec (Result × Pipeline S W × W)
  unfolding stopped_connected
  stopped_start schedule p w =
      let (r, src) = connect p.source p.owned_uri.view in
      let q = stop_if early.connected (record p { source = src }) in
      let rest = stopped_connected schedule q w in
      if is_error p.pending_error
      then done (fail p.pending_error, p, w)
      else if has_value r
      then rest
      else done (r, q, w)

  -- `run`
  unfoldable pub stopped_run : List Bool → Pipeline S W → W → Exec (Result × Pipeline S W × W)
  unfolding stopped_start
  stopped_run schedule p w = stopped_start schedule (stop_if early.before p) w

module _ {S W : Type 0} where
  -- The end of a run, with `running_` reset, as it is behind the loop anyway.
  abbrev pub at_rest : Result × Pipeline S W × W → Result × Pipeline S W × W
  at_rest (r, p, w) = (r, stop p, w)

  abbrev settled : Exec (Result × Pipeline S W × W) → Exec (Result × Pipeline S W × W)
  settled = map_exec at_rest

  pick :
      (c : Bool) (x x' y y' : Exec (Result × Pipeline S W × W))
      → settled x ≡ settled x'
      → settled y ≡ settled y'
      → settled (if c then x else y) ≡ settled (if c then x' else y')
  pick true x x' y y' h k = h
  pick false x x' y y' h k = k

  -- What follows a call, settled.
  settled-ext :
      {A : Type 0} (m : Exec A) (f g : A → Exec (Result × Pipeline S W × W))
      → ((a : A) → settled (f a) ≡ settled (g a))
      → settled (m >>= f) ≡ settled (m >>= g)
  settled-ext (done a) f g h = h a
  settled-ext (fault e) f g h = refl

  settled_stop :
      (b : Bool) (r : Result) (p : Pipeline S W) (w : W)
      → settled (done (r, stop_if b p, w)) ≡ settled (done (r, p, w))
  settled_stop true r p w = refl
  settled_stop false r p w = refl

module _ {S W : Type 0} (bus : BusSource S) where
  ended_stop :
      (b : Bool) (r : Result) (p : Pipeline S W) (w : W)
      → settled (done (r, disconnected bus (stop_if b p), w))
        ≡ settled (done (r, disconnected bus p, w))
  ended_stop true r p w = refl
  ended_stop false r p w = refl

  -- `run` sets `running_` before the loop, so what it was before does not matter.
  run_loop-stop :
      (b : Bool) (schedule : List Bool) (p : Pipeline S W) (w : W)
      → run_loop bus schedule (stop_if b p) w ≡ run_loop bus schedule p w
  unfolding run_loop
  run_loop-stop true schedule p w = refl
  run_loop-stop false schedule p w = refl

  run_subscribed-stop :
      (b : Bool) (schedule : List Bool) (p : Pipeline S W) (w : W)
      → settled (run_subscribed bus schedule (stop_if b p) w)
        ≡ settled (run_subscribed bus schedule p w)
  unfolding run_subscribed
  run_subscribed-stop false schedule p w = refl
  run_subscribed-stop true schedule p w =
      let (r, src) = run_subscriptions bus p.config p.sub_count 0 p.subscriptions p.source in
      let q = record p { source = src } in
      pick (has_value r) _ _ _ _ (ap settled (run_loop-stop true schedule q w)) refl

  run_connected-stop :
      (b : Bool) (schedule : List Bool) (p : Pipeline S W) (w : W)
      → settled (run_connected bus schedule (stop_if b p) w)
        ≡ settled (run_connected bus schedule p w)
  unfolding run_connected
  run_connected-stop false schedule p w = refl
  run_connected-stop true schedule p w =
      settled-ext (run_configs bus p.config_count 0 p.config_ops p.source w) _ _ λ (r, src, w').
        pick (has_value r) _ _ _ _
          (run_subscribed-stop true schedule (record p { source = src }) w') refl

  run-stop :
      (b : Bool) (schedule : List Bool) (p : Pipeline S W) (w : W)
      → settled (run bus schedule (stop_if b p) w) ≡ settled (run bus schedule p w)
  unfolding run
  run-stop false schedule p w = refl
  run-stop true schedule p w =
      let (r, src) = bus.connect p.source p.owned_uri.view in
      pick (is_error p.pending_error) _ _ _ _ refl (
        pick (has_value r) _ _ _ _ (run_connected-stop true schedule (record p { source = src }) w)
          refl)

module _ {S W : Type 0} (bus : BusSource S) (early : EarlyStops) where
  stopped_subscribed-run :
      (schedule : List Bool) (p : Pipeline S W) (w : W)
      → settled (stopped_subscribed bus early schedule p w)
        ≡ settled (run_subscribed bus schedule p w)
  unfolding stopped_subscribed run_subscribed
  stopped_subscribed-run schedule p w =
      let (r, src) = run_subscriptions bus p.config p.sub_count 0 p.subscriptions p.source in
      let q = record p { source = src } in
      pick (has_value r) _ _ _ _ (ap settled (run_loop-stop bus early.subscribed schedule q w))
        (ended_stop bus early.subscribed r q w)

  stopped_connected-run :
      (schedule : List Bool) (p : Pipeline S W) (w : W)
      → settled (stopped_connected bus early schedule p w)
        ≡ settled (run_connected bus schedule p w)
  unfolding stopped_connected run_connected
  stopped_connected-run schedule p w =
      settled-ext (run_configs bus p.config_count 0 p.config_ops p.source w) _ _ λ (r, src, w').
        let q = record p { source = src } in
        pick (has_value r) _ _ _ _
          (stopped_subscribed-run schedule (stop_if early.configured q) w'
            ∙ run_subscribed-stop bus early.configured schedule q w')
          (ended_stop bus early.configured r q w')

  stopped_start-run :
      (schedule : List Bool) (p : Pipeline S W) (w : W)
      → settled (stopped_start bus early schedule p w) ≡ settled (run bus schedule p w)
  unfolding stopped_start run
  stopped_start-run schedule p w =
      let (r, src) = bus.connect p.source p.owned_uri.view in
      let q = record p { source = src } in
      pick (is_error p.pending_error) _ _ _ _ refl (
        pick (has_value r) _ _ _ _
          (stopped_connected-run schedule (stop_if early.connected q) w
            ∙ run_connected-stop bus early.connected schedule q w)
          (settled_stop early.connected r q w))

  -- A `stop()` that another thread calls before the loop of `run` begins is lost, wherever it comes:
  -- the run goes the same way and ends with the same result, pipeline and world, but that a run
  -- which fails before the loop may leave `running_` reset.
  pub stopped_run-run :
      (schedule : List Bool) (p : Pipeline S W) (w : W)
      → map_exec at_rest (stopped_run bus early schedule p w)
        ≡ map_exec at_rest (run bus schedule p w)
  unfolding stopped_run
  stopped_run-run schedule p w =
      stopped_start-run schedule (stop_if early.before p) w ∙ run-stop bus early.before schedule p w
