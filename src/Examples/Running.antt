-- ===== src/Examples/Running.antt =====
-- Runs of the theorems on runs of a pipeline and of connected pipelines.
use pipepp_core.Prelude.{ℕ, ◌≡◌, ◌↔◌, refl, true, false, some, List, [], ◌∷◌, ◌++◌, replicate}
use pipepp_core.Exec.{done, map_exec}
use pipepp_core.Config.{embedded_config}
use pipepp_core.Message.{from_view}
use pipepp_core.Spinlock.{lock, assign_lock}
use pipepp_core.Uri.Basic.{moved}
use pipepp_core.Pipeline.{Pipeline, make, build_step, set_sink}
use pipepp_core.Pipeline.Emit.{emit_all, emit, process_message, run_stages}
use pipepp_core.Pipeline.Run.{
  poll_loop, poll_once, run, run_connected, run_subscribed, run_loop, event_loop, run_configs,
  run_subscriptions,
}
use pipepp_core.Pipeline.Run.Polled.{drive, drive-poll_loop}
use pipepp_core.Pipeline.Run.Calls.{
  builds, emits, runs, stops, changes, PairCall, on_first, on_second, second_takes_first,
  pair_calls,
}
use pipepp_core.Pipeline.Run.Idle.{poll_once-calls}
use pipepp_core.ConnectTo.{with_topic, remapped, pipe_connect, pipe_prefix, with_remap}
use pipepp_core.ConnectTo.Sequence.{passed, connected-emit_all}
use pipepp_core.Examples.Pipelines.{Toy, toy, toy_bus, greeting, pipe, count, schedule}
use pipepp_core.Adapt.{RangeSource, adapt, range_bus}
use pipepp_core.Pipeline.{sets_sink, assign_pipeline}
use pipepp_core.Pipeline.Run.Early.{EarlyStops, stopped_run, at_rest, stopped_run-run}
use pipepp_core.Pipeline.Run.AtRest.{Movable, calls-at_rest}

-- A pipeline in the loop of its run, over two messages.
abbrev replaying : Pipeline RangeSource ℕ
replaying = record (make embedded_config (adapt (greeting ∷ greeting ∷ []))) {
  source = record (adapt (greeting ∷ greeting ∷ [])) { connected = true; installed = true };
  sink = some count;
  running = true;
}

-- The same when the range has been handed over.
abbrev handed_over : Pipeline RangeSource ℕ
handed_over = record replaying {
  source = record (adapt (greeting ∷ greeting ∷ [])) { current = []; installed = true };
}

drive-ends : drive range_bus 2 replaying 0 ≡ done (handed_over, 2)
unfolding drive poll_once emit_all emit process_message run_stages lock from_view
drive-ends = refl

poll_loop-ends : poll_loop range_bus (replicate 2 false) replaying 0 ≡ done (handed_over, 2)
unfolding poll_loop emit_all emit process_message run_stages lock from_view
poll_loop-ends = refl

drive-poll_loop_example :
    ((n : ℕ) × (drive range_bus n replaying 0 ≡ done (handed_over, 2)))
    ↔ ((n : ℕ) × (poll_loop range_bus (replicate n false) replaying 0 ≡ done (handed_over, 2)))
drive-poll_loop_example = drive-poll_loop range_bus (handed_over, 2) replaying 0

-- A sink, a message, a whole run, which the source ends, a stop, and a new queue in the source; then
-- the pipeline is assigned to the other one, which counts one message more.
abbrev day : List (PairCall Toy ℕ)
day =
    on_first (builds (sets_sink count))
    ∷ on_first (emits greeting)
    ∷ on_first (runs (false ∷ true ∷ []))
    ∷ on_first stops
    ∷ on_first (changes toy)
    ∷ second_takes_first
    ∷ on_second (emits greeting)
    ∷ []

abbrev morning : Pipeline Toy ℕ
morning = make embedded_config toy

abbrev evening : Pipeline Toy ℕ
evening = record morning { sink = some count }

day-ends : pair_calls toy_bus morning morning 0 day ≡ done (morning, evening, 3)
unfolding build_step set_sink emit process_message run_stages run run_connected run_subscribed
    run_loop event_loop poll_loop emit_all run_configs run_subscriptions lock from_view
    assign_pipeline assign_lock moved
day-ends = refl

poll_once-calls_example :
    (poll_once toy_bus morning 3 ≡ done (false, morning, 3))
    × (poll_once toy_bus evening 3 ≡ done (false, evening, 3))
poll_once-calls_example =
    poll_once-calls toy_bus embedded_config toy toy 0 day morning evening 3 day-ends

calls-at_rest_example :
    (morning.running ≡ false)
    × (evening.running ≡ false)
    × (morning.stage_lock.locked ≡ false)
    × (evening.stage_lock.locked ≡ false)
    × Movable morning evening
    × Movable evening morning
calls-at_rest_example =
    calls-at_rest toy_bus embedded_config toy toy 0 day morning evening 3 day-ends

abbrev relay : Pipeline Toy (Pipeline Toy ℕ × ℕ)
relay = make embedded_config toy

connected-emit_all_example :
    let mvs = greeting ∷ greeting ∷ [] in
    let by_remap = with_remap relay λ topic w. done ([], w) in
    (emit_all (pipe_connect relay) (pipe, 0) mvs
      ≡ passed (λ mv. mv) mvs (pipe_connect relay) pipe 0)
    × (emit_all (pipe_prefix relay (b'/' ∷ [])) (pipe, 0) mvs
        ≡ passed
            (λ mv. with_topic ((b'/' ∷ []) ++ mv.topic) mv)
            mvs
            (pipe_prefix relay (b'/' ∷ []))
            pipe
            0)
    × (emit_all by_remap (pipe, 0) mvs ≡ passed (λ mv. remapped [] mv) mvs by_remap pipe 0)
connected-emit_all_example =
    connected-emit_all relay (record { front = refl; counted = refl }) (b'/' ∷ []) (λ topic. [])
      (greeting ∷ greeting ∷ []) pipe 0

-- `stop()` is called whenever it can be before the loop.
abbrev all_early : EarlyStops
all_early = record { before = true; connected = true; configured = true; subscribed = true }

stopped_run-run_example :
    map_exec at_rest (stopped_run toy_bus all_early schedule pipe 0)
    ≡ map_exec at_rest (run toy_bus schedule pipe 0)
stopped_run-run_example = stopped_run-run toy_bus all_early schedule pipe 0
