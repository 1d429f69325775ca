-- ===== src/Pipeline/Run/Keeps.antt =====
-- What `run` of include/pipepp/core/pipeline.hpp keeps: a property of a pipeline that does not depend
-- on the source, and that the loop keeps.
use pipepp_core.Prelude.{Bool, true, false, List}
use pipepp_core.Exec.{Gives, done-Gives, >>=-Gives, >>=-Gives_of, if-Gives}
use pipepp_core.Expected.{Result, has_value}
use pipepp_core.ErrorCode.{is_error}
use pipepp_core.Source.{BusSource}
use pipepp_core.Pipeline.{Pipeline}
use pipepp_core.Pipeline.Run.{
  run, run_connected, run_subscribed, run_loop, run_configs, run_subscriptions, poll_loop,
  event_loop,
}

module _ {S W : Type 0} (bus : BusSource S) (P : Pipeline S W → Type 0) where
  -- The property holds of the pipeline that a call ends with.
  abbrev pub After : Pipeline S W × W → Type 0
  After end = P end.0

  abbrev pub Ran : Result × Pipeline S W × W → Type 0
  Ran end = P end.1

  -- It holds behind the loop once `running_` is reset.
  abbrev pub Looped : Pipeline S W × W → Type 0
  Looped end = P (record end.0 { running = false })

  pub record RunLaws : Type 0 where
    pub source : (p : Pipeline S W) (s : S) → P p → P (record p { source = s })
    pub loop :
        (schedule : List Bool) (p : Pipeline S W) (w : W)
        → P p
        → Gives Looped (poll_loop bus schedule (record p { running = true }) w)

  module _ (laws : RunLaws) where
    run_loop-Ran :
        (schedule : List Bool) (p : Pipeline S W) (w : W)
        → P p
        → Gives Ran (run_loop bus schedule p w)
    unfolding run_loop event_loop
    run_loop-Ran schedule p w e =
        >>=-Gives_of Looped Ran _ _
          (laws.loop schedule (record p { source = bus.set_message_callback p.source }) w
            (laws.source p (bus.set_message_callback p.source) e))
          λ (q, w') k. done-Gives Ran (laws.source (record q { running = false }) _ k)

    run_subscribed-Ran :
        (schedule : List Bool) (p : Pipeline S W) (w : W)
        → P p
        → Gives Ran (run_subscribed bus schedule p w)
    unfolding run_subscribed
    run_subscribed-Ran schedule p w e =
        let (r, src) = run_subscriptions bus p.config p.sub_count 0 p.subscriptions p.source in
        if-Gives Ran (has_value r) _ _
          (λ _. run_loop-Ran schedule (record p { source = src }) w (laws.source p src e))
          (λ _. done-Gives Ran (laws.source p _ e))

    run_connected-Ran :
        (schedule : List Bool) (p : Pipeline S W) (w : W)
        → P p
        → Gives Ran (run_connected bus schedule p w)
    unfolding run_connected
    run_connected-Ran schedule p w e =
        >>=-Gives Ran (run_configs bus p.config_count 0 p.config_ops p.source w) _ λ (r, src, w').
          if-Gives Ran (has_value r) _ _
            (λ _. run_subscribed-Ran schedule (record p { source = src }) w' (laws.source p src e))
            (λ _. done-Gives Ran (laws.source p _ e))

    pub run-Ran :
        (schedule : List Bool) (p : Pipeline S W) (w : W) → P p → Gives Ran (run bus schedule p w)
    unfolding run
    run-Ran schedule p w e =
        let (res, src) = bus.connect p.source p.owned_uri.view in
        if-Gives Ran (is_error p.pending_error) _ _ (λ _. done-Gives Ran e)
          λ _.
            if-Gives Ran (has_value res) _ _
              (λ _. run_connected-Ran schedule (record p { source = src }) w (laws.source p src e))
              (λ _. done-Gives Ran (laws.source p src e))
