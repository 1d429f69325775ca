-- ===== src/ConnectTo.antt =====
-- include/pipepp/core/connect_to.hpp: sinks that emit into another pipeline. The target is part of
-- the world of the pipeline that holds the sink, beside the world `W` of the target's closures.
pub mod Relay
pub mod Sequence
use pipepp_core.Prelude.{ℕ, Bool, true, false, List, [], ◌∷◌, ◌++◌}
use pipepp_core.Exec.{Exec, done, ◌>>=◌, map_exec}
use pipepp_core.Message.{MessageView}
use pipepp_core.Stages.{SinkEnd, SinkFn}
use pipepp_core.Pipeline.{Pipeline, set_sink, move_into}
use pipepp_core.Pipeline.Emit.{emit}

-- `remapped_mv`
abbrev pub with_topic : List ℕ → MessageView → MessageView
with_topic topic mv = record mv { topic = topic }

-- The branch of `with_remap` on an empty topic.
abbrev pub remapped : List ℕ → MessageView → MessageView
remapped [] mv = mv
remapped (x ∷ xs) mv = with_topic (x ∷ xs) mv

module _ {S' W : Type 0} where
  -- The sinks' last act, `target->emit(…)`
  abbrev pub emit_into : MessageView → Pipeline S' W × W → Exec (SinkEnd (Pipeline S' W × W))
  emit_into mv (target, w) =
      map_exec (λ world. record { world = world; stops = false }) (emit target w mv)

module _ {S S' W : Type 0} where
  -- `operator|` with `connect_args`
  unfoldable pub pipe_connect : Pipeline S (Pipeline S' W × W) → Pipeline S (Pipeline S' W × W)
  pipe_connect p = move_into (set_sink p emit_into)

  -- `operator|` with `connect_args_with_prefix`
  unfoldable pub pipe_prefix :
      Pipeline S (Pipeline S' W × W) → List ℕ → Pipeline S (Pipeline S' W × W)
  pipe_prefix p prefix =
      move_into (set_sink p λ mv world. emit_into (with_topic (prefix ++ mv.topic) mv) world)

  -- `with_remap`, for a `remap` that keeps its state in the world of the target's closures
  unfoldable pub with_remap :
      Pipeline S (Pipeline S' W × W)
      → (List ℕ → W → Exec (List ℕ × W))
      → Pipeline S (Pipeline S' W × W)
  with_remap p remap = move_into (
      set_sink p λ mv (target, w). do
        (topic, w') ← remap mv.topic w
        emit_into (remapped topic mv) (target, w'))
