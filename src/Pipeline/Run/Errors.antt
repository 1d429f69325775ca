-- ===== src/Pipeline/Run/Errors.antt =====
-- The error paths and the end of `run` of include/pipepp/core/pipeline.hpp.
use pipepp_core.Prelude.{◌≡◌, refl, inl, inr, Bool, true, false, List, ◌⊎◌}
use pipepp_core.Exec.{done, Gives, done-Gives, >>=-Gives, if-Gives}
use pipepp_core.ErrorCode.{is_error}
use pipepp_core.Expected.{Result, fail, has_value}
use pipepp_core.Source.{BusSource}
use pipepp_core.Stages.{ProcessFn, ConfigFn}
use pipepp_core.Pipeline.{Pipeline, BuildStep, build}
use pipepp_core.Pipeline.Build.Errors.{build-is_error}
use pipepp_core.Pipeline.Emit.Flow.{Holds}
use pipepp_core.Pipeline.Run.{
  run_subscriptions, run_loop, disconnected, run_subscribed, run_connected, run,
}
use pipepp_core.Pipeline.Run.Ends.{Ready, ConfigsReturn, Stops, run-Ends}

module _ {S W : Type 0} (bus : BusSource S) where
  -- How a call that has connected leaves the pipeline: its last call of the source is `disconnect`,
  -- and if it reports success then the pipeline does not run.
  abbrev pub Closed : Result × Pipeline S W × W → Type 0
  Closed (r, q, w) =
      ((s : S) × (q.source ≡ (bus.disconnect s).1)) × (has_value r ≡ true → q.running ≡ false)

  -- How `run` ends: refused with the pending error and nothing touched, refused by `connect` and
  -- nothing else done, or closed.
  abbrev pub RunEnd : Pipeline S W → W → Result × Pipeline S W × W → Type 0
  RunEnd p w a =
      let (res, src) = bus.connect p.source p.owned_uri.view in
      let refused : Result × Pipeline S W × W = (fail p.pending_error, p, w) in
      let unconnected : Result × Pipeline S W × W = (res, record p { source = src }, w) in
      ((is_error p.pending_error ≡ true) × (a ≡ refused))
      ⊎ ((is_error p.pending_error ≡ false)
          × (((has_value res ≡ false) × (a ≡ unconnected)) ⊎ ((has_value res ≡ true) × Closed a)))

  -- An early return behind `connect`.
  failed-Closed :
      (r : Result) (q : Pipeline S W) (w : W)
      → has_value r ≡ false
      → Gives Closed (done (r, disconnected bus q, w))
  failed-Closed r q w e = done-Gives Closed ((q.source, refl), λ k. cc)

  run_loop-Closed :
      (schedule : List Bool) (p : Pipeline S W) (w : W) → Gives Closed (run_loop bus schedule p w)
  unfolding run_loop
  run_loop-Closed schedule p w =
      >>=-Gives Closed _ _ λ (q, w'). done-Gives Closed ((q.source, refl), λ _. refl)

  run_subscribed-Closed :
      (schedule : List Bool) (p : Pipeline S W) (w : W)
      → Gives Closed (run_subscribed bus schedule p w)
  unfolding run_subscribed
  run_subscribed-Closed schedule p w =
      let (r, src) = run_subscriptions bus p.config p.sub_count 0 p.subscriptions p.source in
      let q = record p { source = src } in
      if-Gives Closed (has_value r) _ _ (λ _. run_loop-Closed schedule q w)
        (λ e. failed-Closed r q w e)

  run_connected-Closed :
      (schedule : List Bool) (p : Pipeline S W) (w : W)
      → Gives Closed (run_connected bus schedule p w)
  unfolding run_connected
  run_connected-Closed schedule p w = >>=-Gives Closed _ _ λ (r, src, w').
      if-Gives Closed (has_value r) _ _
        (λ _. run_subscribed-Closed schedule (record p { source = src }) w')
        (λ e. failed-Closed r (record p { source = src }) w' e)

  run-Gives :
      (schedule : List Bool) (p : Pipeline S W) (w : W) → Gives (RunEnd p w) (run bus schedule p w)
  unfolding run
  run-Gives schedule p w =
      let (res, src) = bus.connect p.source p.owned_uri.view in
      if-Gives (RunEnd p w) _ _ _ (λ e. done-Gives (RunEnd p w) (inl (e, refl)))
        λ e.
          if-Gives (RunEnd p w) (has_value res) _ _
            (λ k a h. inr (e, inr (k, run_connected-Closed schedule _ w a h)))
            (λ k. done-Gives (RunEnd p w) (inr (e, inl (k, refl))))

-- If the lock is free, the counted slots hold closures that return, and `stop()` is called by
-- another thread before some test of the loop, then `run` ends in one of three ways: a pending error
-- is returned and nothing is touched; `connect` fails, its error is returned and nothing else is
-- done; or the source's last call is `disconnect`, and after a success the pipeline does not run.
pub run-RunEnd :
    {S W : Type 0} (bus : BusSource S) (fs : List (ProcessFn W)) (gs : List (ConfigFn S W))
    (p : Pipeline S W) (w : W) (schedule : List Bool)
    → Ready p fs
    → Holds p.config_ops p.config_count gs
    → ConfigsReturn gs
    → Stops schedule
    → (a : Result × Pipeline S W × W) × (run bus schedule p w ≡ done a) × RunEnd bus p w a
run-RunEnd bus fs gs p w schedule ready configs returns s =
    let (a, h) = run-Ends bus fs gs p w schedule ready configs returns s in
    (a, h, run-Gives bus schedule p w a h)

-- After a chain of builder calls in which an error came up, whatever calls follow, `run` returns an
-- error, and neither the source nor the world is touched.
pub run-build_error :
    {S W : Type 0} (bus : BusSource S) (p : Pipeline S W) (bs : List (BuildStep S W)) (w : W)
    (schedule : List Bool)
    → is_error p.pending_error ≡ true
    → let q = build p bs in
      (run bus schedule q w ≡ done (fail q.pending_error, q, w)) × (is_error q.pending_error ≡ true)
unfolding run
run-build_error bus p bs w schedule h = let e = build-is_error bs p h in (rw e refl, e)
