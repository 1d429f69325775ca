-- ===== src/Pipeline/Build/Running.antt =====
-- What a pipeline of include/pipepp/core/pipeline.hpp that was built does when it is run.
use pipepp_core.Prelude.{
  ◌≡◌, refl, ap, ◌∙◌, inl, inr, Bool, false, Bool-cases, Option, none, List, [], ◌∷◌, arith, map,
  take, length-take,
}
use pipepp_core.Config.{Config}
use pipepp_core.ErrorCode.{is_error}
use pipepp_core.Exec.{Exec, map_exec}
use pipepp_core.Expected.{Result, ok}
use pipepp_core.Stages.{SinkFn}
use pipepp_core.Message.{MessageView}
use pipepp_core.Source.{BusSource, Subscription}
use pipepp_core.Pipeline.{
  Pipeline, make, subscribe, configure, add_stage, set_sink, connect_uri, check, BuildStep,
  subscribes, configures, adds_stage, sets_sink, connects_uri, build_step, build,
}
use pipepp_core.Pipeline.Emit.{emit, with_env, env_of}
use pipepp_core.Pipeline.Emit.Flow.{deliver, emit-deliver}
use pipepp_core.Pipeline.Run.{run}
use pipepp_core.Pipeline.Run.Session.{session}
use pipepp_core.Pipeline.Run.Session.Refines.{left_in, run-session}
use pipepp_core.Pipeline.Run.Idle.{build_step-running}
use pipepp_core.Pipeline.Build.{stages_of, configs_of, sink_of, build_step-config}
use pipepp_core.Pipeline.Build.Chains.{build-make}
use pipepp_core.Pipeline.Build.Errors.{check-nothing_lost}
use pipepp_core.Pipeline.Build.Subscriptions.{asked, subs_of, check-held}

module _ {S W : Type 0} where
  build-config : (bs : List (BuildStep S W)) (p : Pipeline S W) → (build p bs).config ≡ p.config
  unfolding build
  build-config [] p = refl
  build-config (b ∷ bs) p = build-config bs (build_step p b) ∙ build_step-config p b

  build_step-stage_lock :
      (p : Pipeline S W) (b : BuildStep S W) → (build_step p b).stage_lock ≡ p.stage_lock
  unfolding build_step subscribe configure add_stage set_sink connect_uri
  build_step-stage_lock p (subscribes topic qos) = ground arith
  build_step-stage_lock p (configures f) = ground arith
  build_step-stage_lock p (adds_stage f) = ground arith
  build_step-stage_lock p (sets_sink f) = refl
  build_step-stage_lock p (connects_uri temp uri_str) = refl

  build-stage_lock :
      (bs : List (BuildStep S W)) (p : Pipeline S W) → (build p bs).stage_lock ≡ p.stage_lock
  unfolding build
  build-stage_lock [] p = refl
  build-stage_lock (b ∷ bs) p = build-stage_lock bs (build_step p b) ∙ build_step-stage_lock p b

  build_step-source : (p : Pipeline S W) (b : BuildStep S W) → (build_step p b).source ≡ p.source
  unfolding build_step subscribe configure add_stage set_sink connect_uri
  build_step-source p (subscribes topic qos) = ground arith
  build_step-source p (configures f) = ground arith
  build_step-source p (adds_stage f) = ground arith
  build_step-source p (sets_sink f) = refl
  build_step-source p (connects_uri temp uri_str) = refl

  build-source : (bs : List (BuildStep S W)) (p : Pipeline S W) → (build p bs).source ≡ p.source
  unfolding build
  build-source [] p = refl
  build-source (b ∷ bs) p = build-source bs (build_step p b) ∙ build_step-source p b

  build-running : (bs : List (BuildStep S W)) (p : Pipeline S W) → (build p bs).running ≡ p.running
  unfolding build
  build-running [] p = refl
  build-running (b ∷ bs) p = build-running bs (build_step p b) ∙ build_step-running p b

  check-clean : (p : Pipeline S W) → check p ≡ ok → is_error p.pending_error ≡ false
  unfolding check
  check-clean p h = elim (Bool-cases (is_error p.pending_error)) [ inl e ↦ cc | inr e ↦ e ]

  -- If `check()` is good after a chain of builder calls on a new pipeline, then `run` is a session
  -- told on the source and the world alone, with the source it was made with, all the stages and
  -- configuration functions of the chain, its last sink, and subscriptions to all its topics: the
  -- source is connected, configured and subscribed to the topics, up to the first failure, which is
  -- returned; then, while nobody has stopped the loop and the source is connected, it is polled,
  -- and each message that fits goes through the stages up to the first that drops it, and then to
  -- the sink; the source is disconnected on every way out behind a connect that succeeded; the
  -- pipeline is left as it was, but for the source.
  pub check-run :
      (bus : BusSource S) (c : Config) (src : S) (bs : List (BuildStep S W)) (schedule : List Bool)
      (w : W)
      → check (build (make c src) bs) ≡ ok
      → let p = build (make c src) bs in
        (subs : List Subscription) × (map asked subs ≡ subs_of bs)
        × (run bus schedule p w
            ≡ map_exec (left_in p) (
                session bus c
                  (stages_of bs)
                  (sink_of none bs)
                  (configs_of bs)
                  subs
                  p.owned_uri.view
                  schedule
                  src
                  w))
  check-run bus c src bs schedule w h =
      let p = build (make c src) bs in
      let v = check-nothing_lost c src bs h in
      let subs = take p.sub_count p.subscriptions in
      (
        subs,
        check-held c src bs h,
        run-session bus (stages_of bs) (configs_of bs) subs p (build-running bs (make c src))
              (build-stage_lock bs (make c src)) v.stage_slots.holds refl
              (omega (arith, length-take p.sub_count p.subscriptions, v.subs.room, v.subs.bounded))
              v.config_slots.holds (check-clean p h) schedule w
            ∙ (ap (λ k. told k p.sink p.source) (build-config bs (make c src))
                ∙ (ap (λ sink. told c sink p.source) ((build-make c src bs).1)
                    ∙ ap (told c (sink_of none bs)) (build-source bs (make c src)))),
      )
    where
      told : Config → Option (SinkFn W) → S → Exec (Result × Pipeline S W × W)
      told k sink s =
          let p = build (make c src) bs in
          map_exec (left_in p) (
            session bus k (stages_of bs) sink (configs_of bs) (take p.sub_count p.subscriptions)
              p.owned_uri.view schedule s w)

  -- If `check()` is good after a chain of builder calls on a new pipeline, then `emit` passes a
  -- message through all the stages of the chain and to its last sink.
  pub check-emit :
      (c : Config) (src : S) (bs : List (BuildStep S W)) (w : W) (mv : MessageView)
      → check (build (make c src) bs) ≡ ok
      → let p = build (make c src) bs in
        emit p w mv
        ≡ map_exec (with_env p) (deliver c (stages_of bs) (sink_of none bs) mv (env_of p w))
  check-emit c src bs w mv h =
      let p = build (make c src) bs in
      let v = check-nothing_lost c src bs h in
      emit-deliver p w mv (stages_of bs) (build-stage_lock bs (make c src)) v.stage_slots.holds
      ∙ (ap (λ k. map_exec (with_env p) (deliver k (stages_of bs) p.sink mv (env_of p w)))
            (build-config bs (make c src))
          ∙ ap (λ s. map_exec (with_env p) (deliver c (stages_of bs) s mv (env_of p w)))
              ((build-make c src bs).1))
