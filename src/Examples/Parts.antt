-- ===== src/Examples/Parts.antt =====
-- Runs of the theorems on the parts around a pipeline.
use pipepp_core.Prelude.{
  ℕ, pos, suc, ◌≡◌, refl, Bool, true, false, length, ltb, Option, none, some, List, [], ◌∷◌, map,
  take, arith,
}
use pipepp_core.ErrorCode.{ErrorCode}
use pipepp_core.Exec.{Exec, done, ◌>>=◌, map_exec}
use pipepp_core.ExpectedObject.{
  copy_expected, move_expected, copy_assign_expected, move_assign_expected, destroy, expected_of,
  no_member, expected_of-lifetimes,
}
use pipepp_core.Expected.{Expected, value, error, ok}
use pipepp_core.Config.{embedded_config}
use pipepp_core.FixedString
use pipepp_core.Stages.{SinkFn}
use pipepp_core.Uri.{StringView, no_uri}
use pipepp_core.Pipeline.{Pipeline, make}
use pipepp_core.Pipeline.Run.{run}
use pipepp_core.Adapt.{RangeSource, adapt, range_bus}
use pipepp_core.Adapt.Replay.{replayed, run-range}
use pipepp_core.Pipeline.Emit.Sequence.{deliver_all}
use pipepp_core.AnySource.{any_bus}
use pipepp_core.AnySource
use pipepp_core.AnySource.Dispatch.{holder, with_holder, dispatch-any_bus}
use pipepp_core.Registry.{Registry, new_registry, register_scheme, has_scheme, find_entry}
use pipepp_core.Registry.Lookup.{new_registry-IsValid, register_scheme-too_long}
use pipepp_core.PipelineOps
use pipepp_core.PipelineOps.{
  CallEnd, ViewEnd, Args, process_args, filter_args, configure_args, sink_args, subscribe_literal,
  pipe_all, execute,
}
use pipepp_core.PipelineOps.Chains.{judged, ignored}
use pipepp_core.PipelineOps.Runs.{topics_in, execute-pipe_all}
use pipepp_core.Pipeline.Run.Session.{session}
use pipepp_core.Pipeline.Run.Session.Refines.{left_in}
use pipepp_core.Pipeline.Build.Subscriptions.{asked}
use pipepp_core.Source.{Subscription}
use pipepp_core.Message.{Message, MessageView, as_view}
use pipepp_core.Uri.Basic.{moved}
use pipepp_core.FixedString.{checked_from}
use pipepp_core.Pipeline.{check, add_stage, configure, subscribe, set_sink}
use pipepp_core.SinkBuffer.{new_buffer, push_all}
use pipepp_core.SinkBuffer.Collect.{contents, fitting, push_all-new_buffer}
use pipepp_core.SmallFunction.{Op, sets, moves, resets}
use pipepp_core.Examples.Pipelines.{Toy, toy, toy_bus, greeting, count, agree}

-- A pipeline over a range of two messages, with a sink that counts.
abbrev ranged : Pipeline RangeSource ℕ
ranged = record (make embedded_config (adapt (greeting ∷ greeting ∷ []))) { sink = some count }

run-range_example : run range_bus (false ∷ false ∷ []) ranged 0 ≡ (
    deliver_all embedded_config []
      (some count)
      (greeting ∷ greeting ∷ [])
      (record { world = 0; running = true })
    >>= λ env.
        done (ok, record ranged { source = replayed ranged.source; running = false }, env.world))
run-range_example =
    run-range [] ranged 0 false [] refl refl (record { front = refl; counted = refl })
      (record { front = refl; counted = refl }) (omega arith)

abbrev held_by_toy : {A : Type 0} → A × Option Toy → Exec (A × AnySource.AnySource Toy)
held_by_toy r = done (with_holder toy_bus r)

dispatch-any_bus_example :
    let a = holder toy_bus (some toy) in
    let bus = any_bus toy_bus in
    (AnySource.connect a no_uri ≡ held_by_toy (bus.connect (some toy) no_uri))
    × (AnySource.disconnect a ≡ held_by_toy (bus.disconnect (some toy)))
    × (AnySource.is_connected a ≡ done (bus.is_connected (some toy)))
    × (AnySource.subscribe a (b'h' ∷ []) (pos 1)
        ≡ held_by_toy (bus.subscribe (some toy) (b'h' ∷ []) (pos 1)))
    × (AnySource.publish a (b'h' ∷ []) [] (pos 1)
        ≡ held_by_toy (bus.publish (some toy) (b'h' ∷ []) [] (pos 1)))
    × (AnySource.set_message_callback a
        ≡ done (holder toy_bus (bus.set_message_callback (some toy))))
    × (AnySource.poll a ≡ held_by_toy (bus.poll (some toy)))
dispatch-any_bus_example = dispatch-any_bus toy_bus (some toy) no_uri (b'h' ∷ []) [] (pos 1)

abbrev sourceless : Pipeline (Option Toy) ℕ
sourceless = make embedded_config none

-- A registry of counters: the source that a factory makes is the number of those made before.
abbrev counters : Registry ℕ ℕ
counters = new_registry embedded_config

abbrev mqtt : StringView
mqtt = record { home = 1; start = 0; text = b'm' ∷ b'q' ∷ [] }

abbrev long_scheme : List ℕ
long_scheme = b'a' ∷ b'b' ∷ b'c' ∷ b'd' ∷ b'e' ∷ b'f' ∷ b'g' ∷ b'h' ∷ b'i' ∷ []

register_scheme-too_long_example :
    let (res, r') =
      register_scheme counters (FixedString.from_view 8 long_scheme) (λ uri w. done (w, suc w)) in
    (res ≡ true) × (has_scheme r' long_scheme ≡ false)
unfolding has_scheme find_entry
register_scheme-too_long_example =
    register_scheme-too_long counters (λ uri w. done (w, suc w)) long_scheme
      (new_registry-IsValid embedded_config) (omega arith) (omega arith) refl

-- Callables that return a number: the length of the payload, the length of the topic, and how often
-- the sink was called before. A number is true unless it is zero.
abbrev payload_len : Message → ℕ → Exec (CallEnd ℕ ℕ)
payload_len m w =
    done (record { result = length (as_view m).payload; msg = m; world = w; stops = false })

abbrev topic_len : Message → ℕ → Exec (CallEnd ℕ ℕ)
topic_len m w =
    done (record { result = length (as_view m).topic; msg = m; world = w; stops = false })

abbrev counting : MessageView → ℕ → Exec (ViewEnd ℕ ℕ)
counting mv w = done (record { result = w; world = suc w; stops = false })

abbrev is_true : ℕ → Bool
is_true n = ltb 0 n

abbrev piped : List (Args Toy ℕ ℕ)
piped =
    process_args payload_len
    ∷ configure_args agree
    ∷ subscribe_literal (b'h' ∷ b'i' ∷ []) (pos 1)
    ∷ filter_args topic_len
    ∷ sink_args counting
    ∷ []

abbrev piped_pipe : Pipeline Toy ℕ
piped_pipe = pipe_all is_true is_true (make embedded_config toy) piped

piped-check : check piped_pipe ≡ ok
unfolding check pipe_all PipelineOps.pipe add_stage configure subscribe set_sink checked_from moved
    FixedString.from_c_string
piped-check = refl

execute-pipe_all_example :
    (subs : List Subscription) × (map asked subs ≡ topics_in is_true is_true piped)
    × (execute toy_bus (false ∷ true ∷ []) piped_pipe 0
        ≡ map_exec (left_in piped_pipe) (
            session toy_bus embedded_config
              (judged is_true payload_len ∷ judged is_true topic_len ∷ [])
              (some (ignored counting))
              (agree ∷ [])
              subs
              no_uri
              (false ∷ true ∷ [])
              toy
              0))
execute-pipe_all_example =
    execute-pipe_all is_true is_true toy_bus embedded_config toy piped (false ∷ true ∷ []) 0
      piped-check

abbrev relay : Pipeline Toy (Pipeline Toy ℕ × ℕ)
relay = make embedded_config toy

push_all-new_buffer_example :
    contents (push_all (new_buffer embedded_config) (greeting ∷ greeting ∷ []))
    ≡ take 8 (fitting embedded_config (greeting ∷ greeting ∷ []))
push_all-new_buffer_example = push_all-new_buffer embedded_config (greeting ∷ greeting ∷ [])

abbrev lifetimes : List (Op (SinkFn ℕ))
lifetimes = sets 0 count ∷ moves 1 0 ∷ sets 1 count ∷ moves 1 1 ∷ resets 1 ∷ []

abbrev buffer : ℕ
buffer = 16

expected_of-lifetimes_example :
    let x : Expected ℕ ErrorCode = value 3 in
    let y : Expected ℕ ErrorCode = error ErrorCode.timeout in
    (copy_expected (expected_of x) ≡ done (expected_of x))
    × (move_expected (λ t. 0) (λ e. e) (expected_of x)
        ≡ done (expected_of x, expected_of (value 0)))
    × (copy_assign_expected (expected_of x) (expected_of y) ≡ done (expected_of y))
    × (move_assign_expected (λ t. 0) (λ e. e) (expected_of x) (expected_of y)
        ≡ done (expected_of y, expected_of y))
    × (destroy (expected_of x) ≡ done no_member)
expected_of-lifetimes_example =
    expected_of-lifetimes (λ t. 0) (λ e. e) (value 3) (error ErrorCode.timeout)
