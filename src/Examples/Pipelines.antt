-- ===== src/Examples/Pipelines.antt =====
-- Runs of the theorems on a pipeline with one of everything.
use pipepp_core.Prelude.{
  ℕ, pos, suc, ◌≡◌, refl, Bool, true, false, some, List, [], ◌∷◌, map, take, length, ltb,
  if◌then◌else◌,
}
use pipepp_core.ErrorCode.{ErrorCode, is_error}
use pipepp_core.Expected.{Result, ok, fail}
use pipepp_core.Config.{embedded_config}
use pipepp_core.Exec.{done, fault, null_call, Ends, map_exec}
use pipepp_core.FixedString.{checked_from}
use pipepp_core.Message.{MessageView}
use pipepp_core.Source.{BusSource, Subscription}
use pipepp_core.Stages.{ProcessFn, SinkFn, ConfigFn}
use pipepp_core.Pipeline.{
  Pipeline, make, check, BuildStep, subscribes, configures, adds_stage, sets_sink, build,
  build_step, subscribe, configure, add_stage, set_sink,
}
use pipepp_core.Pipeline.Emit.{emit, with_env, env_of}
use pipepp_core.Pipeline.Emit.Flow.{deliver, emit-deliver}
use pipepp_core.Pipeline.{moved_from}
use pipepp_core.Pipeline.Emit.MovedFrom.{emit-moved_from}
use pipepp_core.Pipeline.Build.{Contents}
use pipepp_core.Pipeline.Build.Chains.{build-make}
use pipepp_core.Pipeline.Build.Errors.{check-nothing_lost}
use pipepp_core.Pipeline.Build.Subscriptions.{asked}
use pipepp_core.Pipeline.Build.Running.{check-run, check-emit}
use pipepp_core.Pipeline.Run.{run}
use pipepp_core.Pipeline.Run.Session.{session}
use pipepp_core.Pipeline.Run.Session.Refines.{left_in}
use pipepp_core.Pipeline.Run.Ends.{Ready, run-Ends}
use pipepp_core.Pipeline.Run.Errors.{RunEnd, run-RunEnd}

-- A source that is connected or not, and hands over what is queued.
pub record Toy : Type 0 where
  pub connected : Bool
  pub queue : List MessageView

abbrev pub toy_bus : BusSource Toy
toy_bus = record {
  connect = λ s uri. (ok, record s { connected = true });
  disconnect = λ s. (ok, record s { connected = false });
  is_connected = λ s. s.connected;
  subscribe =
      λ s topic qos. (if ltb 0 (length topic) then ok else fail ErrorCode.invalid_argument, s);
  publish = λ s topic payload qos. (ok, s);
  set_message_callback = λ s. s;
  poll = λ s. (s.queue, record s { queue = [] });
}

-- "hi" with the payload "x"
abbrev pub greeting : MessageView
greeting = record { topic = b'h' ∷ b'i' ∷ []; payload = b'x' ∷ []; qos = 1 }

abbrev pub toy : Toy
toy = record { connected = false; queue = greeting ∷ [] }

-- A stage that keeps every message, a sink that counts, and a configuration that agrees.
abbrev pub keep_all : ProcessFn ℕ
keep_all m w = done (record { keep = true; msg = m; world = w; stops = false })

abbrev pub count : SinkFn ℕ
count mv w = done (record { world = suc w; stops = false })

abbrev pub agree : ConfigFn Toy ℕ
agree s w = done (ok, s, w)

abbrev pub steps : List (BuildStep Toy ℕ)
steps =
    adds_stage keep_all
    ∷ configures agree
    ∷ subscribes (b'h' ∷ b'i' ∷ []) (pos 1)
    ∷ sets_sink count
    ∷ []

abbrev pub pipe : Pipeline Toy ℕ
pipe = build (make embedded_config toy) steps

pipe-check : check pipe ≡ ok
unfolding check build build_step add_stage configure subscribe set_sink checked_from
pipe-check = refl

pipe-Contents : Contents pipe (keep_all ∷ []) (agree ∷ [])
pipe-Contents = check-nothing_lost embedded_config toy steps pipe-check

pub pipe-Ready : Ready pipe (keep_all ∷ [])
unfolding build build_step add_stage configure subscribe set_sink checked_from
pipe-Ready = record {
  free = refl;
  holds = pipe-Contents.stage_slots.holds;
  stages_return = (λ m w. (_, refl), tt);
  sink_returns = λ mv w. (_, refl);
}

-- Two rounds, and then `stop()` from another thread.
abbrev pub schedule : List Bool
schedule = false ∷ false ∷ true ∷ []

emit-deliver_example :
    emit pipe 0 greeting
    ≡ map_exec
        (with_env pipe)
        (deliver pipe.config (keep_all ∷ []) pipe.sink greeting (env_of pipe 0))
emit-deliver_example = emit-deliver pipe 0 greeting (keep_all ∷ []) pipe-Ready.free pipe-Ready.holds

build-make_example :
    Contents pipe (take 4 (keep_all ∷ [])) (take 2 (agree ∷ [])) × (pipe.sink ≡ some count)
build-make_example = build-make embedded_config toy steps

check-run_example :
    (subs : List Subscription) × (map asked subs ≡ (b'h' ∷ b'i' ∷ [], pos 1) ∷ [])
    × (run toy_bus schedule pipe 0
        ≡ map_exec (left_in pipe) (
            session toy_bus embedded_config
              (keep_all ∷ [])
              (some count)
              (agree ∷ [])
              subs
              pipe.owned_uri.view
              schedule
              toy
              0))
check-run_example = check-run toy_bus embedded_config toy steps schedule 0 pipe-check

check-emit_example :
    emit pipe 0 greeting
    ≡ map_exec
        (with_env pipe)
        (deliver embedded_config (keep_all ∷ []) (some count) greeting (env_of pipe 0))
check-emit_example = check-emit embedded_config toy steps 0 greeting pipe-check

run-Ends_example : Ends (run toy_bus schedule pipe 0)
run-Ends_example =
    run-Ends toy_bus (keep_all ∷ []) (agree ∷ []) pipe 0 schedule pipe-Ready
      pipe-Contents.config_slots.holds (λ s w. (_, refl), tt) tt

run-RunEnd_example :
    (a : Result × Pipeline Toy ℕ × ℕ) × (run toy_bus schedule pipe 0 ≡ done a)
    × RunEnd toy_bus pipe 0 a
run-RunEnd_example =
    run-RunEnd toy_bus (keep_all ∷ []) (agree ∷ []) pipe 0 schedule pipe-Ready
      pipe-Contents.config_slots.holds (λ s w. (_, refl), tt) tt

-- A third configuration function is one too many.
abbrev pub too_many : Pipeline Toy ℕ
too_many =
    build (make embedded_config toy) (configures agree ∷ configures agree ∷ configures agree ∷ [])

too_many-is_error : is_error too_many.pending_error ≡ true
unfolding build build_step configure
too_many-is_error = refl

emit-moved_from_example :
    (check (moved_from pipe) ≡ check pipe) × (emit (moved_from pipe) 0 greeting ≡ fault null_call)
unfolding build build_step add_stage configure subscribe set_sink checked_from
emit-moved_from_example =
    emit-moved_from pipe keep_all [] (agree ∷ []) 0 greeting pipe-Contents refl refl
