-- ===== src/PipelineOps/Runs.antt =====
-- A pipeline that is made by the pipe syntax of include/pipepp/core/pipeline_ops.hpp and executed.
use pipepp_core.Prelude.{
  ℕ, ℤ, ◌≡◌, refl, sym, ap, ◌∙◌, Bool, Option, none, some, List, [], ◌∷◌, map, arith,
}
use pipepp_core.Config.{Config}
use pipepp_core.Exec.{map_exec}
use pipepp_core.Expected.{ok}
use pipepp_core.FixedString.{as_view}
use pipepp_core.Source.{BusSource, Subscription}
use pipepp_core.Stages.{ProcessFn, SinkFn, ConfigFn}
use pipepp_core.Uri.{no_uri}
use pipepp_core.Pipeline.{
  Pipeline, make, subscribe, configure, add_stage, set_sink, check, BuildStep, build_step, build,
}
use pipepp_core.Pipeline.Build.{stages_of, configs_of, sink_of}
use pipepp_core.Pipeline.Build.Subscriptions.{asked, subs_of}
use pipepp_core.Pipeline.Build.Running.{check-run}
use pipepp_core.Pipeline.Run.{run}
use pipepp_core.Pipeline.Run.Session.{session}
use pipepp_core.Pipeline.Run.Session.Refines.{left_in}
use pipepp_core.PipelineOps.{
  Args, process_args, filter_args, sink_args, configure_args, subscribe_args, pipe_all, execute,
}
use pipepp_core.PipelineOps.Chains.{judged, ignored, step_of, pipe_all-build}

module _ {S W R : Type 0} (static_bool implicit_bool : R → Bool) where
  -- The stages, the configuration functions, the subscriptions and the last sink of a chain.
  abbrev pub stages_in : List (Args S W R) → List (ProcessFn W)
  stages_in [] = []
  stages_in (process_args fn ∷ args) = judged static_bool fn ∷ stages_in args
  stages_in (filter_args fn ∷ args) = judged implicit_bool fn ∷ stages_in args
  stages_in (_ ∷ args) = stages_in args

  abbrev pub configs_in : List (Args S W R) → List (ConfigFn S W)
  configs_in [] = []
  configs_in (configure_args fn ∷ args) = fn ∷ configs_in args
  configs_in (_ ∷ args) = configs_in args

  abbrev pub topics_in : List (Args S W R) → List (List ℕ × ℤ)
  topics_in [] = []
  topics_in (subscribe_args topic qos ∷ args) = (as_view topic, qos) ∷ topics_in args
  topics_in (_ ∷ args) = topics_in args

  abbrev pub last_sink : Option (SinkFn W) → List (Args S W R) → Option (SinkFn W)
  last_sink sink [] = sink
  last_sink sink (sink_args fn ∷ args) = last_sink (some (ignored fn)) args
  last_sink sink (_ ∷ args) = last_sink sink args

  abbrev steps_of : List (Args S W R) → List (BuildStep S W)
  steps_of args = map (step_of static_bool implicit_bool) args

  stages_of-step_of : (args : List (Args S W R)) → stages_of (steps_of args) ≡ stages_in args
  stages_of-step_of [] = refl
  stages_of-step_of (process_args f ∷ args) =
      ap (λ fs. judged static_bool f ∷ fs) (stages_of-step_of args)
  stages_of-step_of (filter_args f ∷ args) =
      ap (λ fs. judged implicit_bool f ∷ fs) (stages_of-step_of args)
  stages_of-step_of (sink_args f ∷ args) = stages_of-step_of args
  stages_of-step_of (configure_args f ∷ args) = stages_of-step_of args
  stages_of-step_of (subscribe_args topic qos ∷ args) = stages_of-step_of args

  configs_of-step_of : (args : List (Args S W R)) → configs_of (steps_of args) ≡ configs_in args
  configs_of-step_of [] = refl
  configs_of-step_of (process_args f ∷ args) = configs_of-step_of args
  configs_of-step_of (filter_args f ∷ args) = configs_of-step_of args
  configs_of-step_of (sink_args f ∷ args) = configs_of-step_of args
  configs_of-step_of (configure_args f ∷ args) = ap (λ gs. f ∷ gs) (configs_of-step_of args)
  configs_of-step_of (subscribe_args topic qos ∷ args) = configs_of-step_of args

  subs_of-step_of : (args : List (Args S W R)) → subs_of (steps_of args) ≡ topics_in args
  subs_of-step_of [] = refl
  subs_of-step_of (process_args f ∷ args) = subs_of-step_of args
  subs_of-step_of (filter_args f ∷ args) = subs_of-step_of args
  subs_of-step_of (sink_args f ∷ args) = subs_of-step_of args
  subs_of-step_of (configure_args f ∷ args) = subs_of-step_of args
  subs_of-step_of (subscribe_args topic qos ∷ args) =
      ap (λ ts. (as_view topic, qos) ∷ ts) (subs_of-step_of args)

  sink_of-step_of :
      (args : List (Args S W R)) (sink : Option (SinkFn W))
      → sink_of sink (steps_of args) ≡ last_sink sink args
  sink_of-step_of [] sink = refl
  sink_of-step_of (process_args f ∷ args) sink = sink_of-step_of args sink
  sink_of-step_of (filter_args f ∷ args) sink = sink_of-step_of args sink
  sink_of-step_of (sink_args f ∷ args) sink = sink_of-step_of args (some (ignored f))
  sink_of-step_of (configure_args f ∷ args) sink = sink_of-step_of args sink
  sink_of-step_of (subscribe_args topic qos ∷ args) sink = sink_of-step_of args sink

  step_of-owned_uri :
      (p : Pipeline S W) (a : Args S W R)
      → (build_step p (step_of static_bool implicit_bool a)).owned_uri ≡ p.owned_uri
  unfolding build_step subscribe configure add_stage set_sink
  step_of-owned_uri p (process_args f) = ground arith
  step_of-owned_uri p (filter_args f) = ground arith
  step_of-owned_uri p (sink_args f) = refl
  step_of-owned_uri p (configure_args f) = ground arith
  step_of-owned_uri p (subscribe_args topic qos) = ground arith

  build-owned_uri :
      (args : List (Args S W R)) (p : Pipeline S W)
      → (build p (steps_of args)).owned_uri ≡ p.owned_uri
  unfolding build
  build-owned_uri [] p = refl
  build-owned_uri (a ∷ args) p =
      build-owned_uri args (build_step p (step_of static_bool implicit_bool a))
      ∙ step_of-owned_uri p a

  -- If `check()` is good after a new pipeline was piped into a chain of arguments, then `execute` is
  -- the session told by `session`: a stage of `process` keeps a message where `static_cast<bool>` of
  -- what its callable returns is true, one of `filter` where the implicit conversion is; the last
  -- sink gets what all stages kept, and what it returns is ignored; the configuration functions are
  -- called and the topics subscribed to in order, on a source connected to the empty URI. The
  -- pipeline is left as it was, but for the source.
  pub execute-pipe_all :
      (bus : BusSource S) (c : Config) (src : S) (args : List (Args S W R)) (schedule : List Bool)
      (w : W)
      → check (pipe_all static_bool implicit_bool (make c src) args) ≡ ok
      → let p = pipe_all static_bool implicit_bool (make c src) args in
        (subs : List Subscription) × (map asked subs ≡ topics_in args)
        × (execute bus schedule p w
            ≡ map_exec (left_in p) (
                session bus c
                  (stages_in args)
                  (last_sink none args)
                  (configs_in args)
                  subs
                  no_uri
                  schedule
                  src
                  w))
  execute-pipe_all bus c src args schedule w h =
      let made =
        pipe_all-build static_bool implicit_bool args (make c src)
          (record { idle = refl; free = refl }) in
      let built = build (make c src) (steps_of args) in
      let (subs, topics, ran) =
        check-run bus c src (steps_of args) schedule w (ap check (sym made) ∙ h) in
      (
        subs,
        topics ∙ subs_of-step_of args,
        ap (λ p. run bus schedule p w) made
            ∙ (ran ∙ (λ i. map_exec (left_in (sym made i)) (
                session bus c (stages_of-step_of args i) (sink_of-step_of args none i)
                  (configs_of-step_of args i) subs ((build-owned_uri args (make c src) i).view)
                  schedule src w))),
      )
