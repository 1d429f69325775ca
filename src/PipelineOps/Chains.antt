-- ===== src/PipelineOps/Chains.antt =====
-- The pipe syntax of include/pipepp/core/pipeline_ops.hpp beside the builder calls.
use pipepp_core.Prelude.{
  ℕ, ℤ, ◌≡◌, refl, sym, ap, ◌∙◌, Bool, false, List, [], ◌∷◌, map, length, arith, take_all,
}
use pipepp_core.Exec.{Exec, map_exec}
use pipepp_core.FixedString.{as_view}
use pipepp_core.FixedString.Contents.{NoNul, from_c_string_lem}
use pipepp_core.Message.{Message, MessageView}
use pipepp_core.Spinlock.{unlocked}
use pipepp_core.Stages.{ProcessFn, SinkFn}
use pipepp_core.Uri.Basic.{moved}
use pipepp_core.Pipeline.{
  Pipeline, subscribe, configure, add_stage, set_sink, connect_uri, move_into, BuildStep,
  subscribes, configures, adds_stage, sets_sink, connects_uri, build_step, build,
}
use pipepp_core.PipelineOps.{
  CallEnd, ViewEnd, Args, process_args, filter_args, sink_args, configure_args, subscribe_args,
  subscribe_literal, process_lambda, filter_lambda, sink_lambda, pipe, pipe_all,
}

module _ {S W : Type 0} where
  -- A pipeline that is at rest: not running, and its lock free.
  pub record AtRest (p : Pipeline S W) : Type 0 where
    pub idle : p.running ≡ false
    pub free : p.stage_lock ≡ unlocked

  move_into_lem : (p : Pipeline S W) → AtRest p → move_into p ≡ p
  unfolding moved
  move_into_lem p h = λ i. record p { running = sym h.idle i; stage_lock = sym h.free i }

  build_step-AtRest : (p : Pipeline S W) (b : BuildStep S W) → AtRest p → AtRest (build_step p b)
  unfolding build_step subscribe configure add_stage set_sink connect_uri
  build_step-AtRest p (subscribes topic qos) h = record {
    idle = ground (arith, h.idle);
    free = ground (arith, h.free);
  }
  build_step-AtRest p (configures f) h = record {
    idle = ground (arith, h.idle);
    free = ground (arith, h.free);
  }
  build_step-AtRest p (adds_stage f) h = record {
    idle = ground (arith, h.idle);
    free = ground (arith, h.free);
  }
  build_step-AtRest p (sets_sink f) h = record { idle = h.idle; free = h.free }
  build_step-AtRest p (connects_uri temp uri_str) h = record { idle = h.idle; free = h.free }

-- A callable as a stage that keeps a message where `keeps` says so of what it returns.
abbrev pub judged : {W R : Type 0} → (R → Bool) → (Message → W → Exec (CallEnd W R)) → ProcessFn W
judged keeps fn msg w =
    map_exec (λ r. record { keep = keeps r.result; msg = r.msg; world = r.world; stops = r.stops })
      (fn msg w)

-- A callable as a sink, whatever it returns.
abbrev pub ignored : {W R : Type 0} → (MessageView → W → Exec (ViewEnd W R)) → SinkFn W
ignored fn mv w = map_exec (λ r. record { world = r.world; stops = r.stops }) (fn mv w)

module _ {S W R : Type 0} (static_bool implicit_bool : R → Bool) where
  -- The builder call that an argument stands for.
  abbrev pub step_of : Args S W R → BuildStep S W
  step_of (process_args f) = adds_stage (judged static_bool f)
  step_of (filter_args f) = adds_stage (judged implicit_bool f)
  step_of (sink_args f) = sets_sink (ignored f)
  step_of (configure_args f) = configures f
  step_of (subscribe_args topic qos) = subscribes (as_view topic) qos

  pipe-build_step :
      (p : Pipeline S W) (a : Args S W R)
      → AtRest p
      → pipe static_bool implicit_bool p a ≡ build_step p (step_of a)
  unfolding pipe build_step process_lambda filter_lambda sink_lambda
  pipe-build_step p (process_args f) h =
      let g = judged static_bool f in
      move_into_lem (add_stage p g) (build_step-AtRest p (adds_stage g) h)
  pipe-build_step p (filter_args f) h =
      let g = judged implicit_bool f in
      move_into_lem (add_stage p g) (build_step-AtRest p (adds_stage g) h)
  pipe-build_step p (sink_args f) h =
      move_into_lem (set_sink p (ignored f)) (build_step-AtRest p (sets_sink (ignored f)) h)
  pipe-build_step p (configure_args f) h =
      move_into_lem (configure p f) (build_step-AtRest p (configures f) h)
  pipe-build_step p (subscribe_args topic qos) h =
      move_into_lem (subscribe p (as_view topic) qos)
        (build_step-AtRest p (subscribes (as_view topic) qos) h)

  -- A pipeline at rest that is piped into a chain of arguments is the pipeline that the builder
  -- calls for them make.
  pub pipe_all-build :
      (args : List (Args S W R)) (p : Pipeline S W)
      → AtRest p
      → pipe_all static_bool implicit_bool p args ≡ build p (map step_of args)
  unfolding pipe_all build
  pipe_all-build [] p h = refl
  pipe_all-build (a ∷ args) p h =
      ap (λ q. pipe_all static_bool implicit_bool q args) (pipe-build_step p a h)
      ∙ pipe_all-build args (build_step p (step_of a)) (build_step-AtRest p (step_of a) h)

  -- A literal without a null character is subscribed to as it is written.
  pub subscribe_literal_lem :
      (topic : List ℕ) (qos : ℤ)
      → NoNul topic
      → step_of (subscribe_literal topic qos) ≡ subscribes topic qos
  subscribe_literal_lem topic qos h =
      ap (λ t. subscribes t qos)
        ((from_c_string_lem (length topic) topic [] h).1
          ∙ take_all topic (length topic) (omega arith))
