-- ===== src/Stages.antt =====
-- include/pipepp/core/stages.hpp: the closures that a pipeline holds. What closures share outside
-- of the pipeline is the world `W`, and what a closure captured by value is part of it too.
use pipepp_core.Prelude.{Bool, Option, none, some}
use pipepp_core.Exec.{Exec, done, fault, null_call, out_of_bounds}
use pipepp_core.Expected.{Result}
use pipepp_core.Message.{Message, MessageView}

-- The end of a stage: its verdict, the message as it leaves it, the world, and whether it called
-- `stop()` on the pipeline.
pub record StageEnd (W : Type 0) : Type 0 where
  pub keep : Bool
  pub msg : Message
  pub world : W
  pub stops : Bool

pub record SinkEnd (W : Type 0) : Type 0 where
  pub world : W
  pub stops : Bool

-- What a `process_fn`, a `sink_fn` and a `config_fn` hold, once made from a callable.
abbrev pub ProcessFn : Type 0 → Type 0
ProcessFn W = Message → W → Exec (StageEnd W)

abbrev pub SinkFn : Type 0 → Type 0
SinkFn W = MessageView → W → Exec (SinkEnd W)

abbrev pub ConfigFn : Type 0 → Type 0 → Type 0
ConfigFn S W = S → W → Exec (Result × S × W)

-- `fns[i]` before it is called: an empty one has a null `invoke_fn_`.
unfoldable pub callee {ℓ} : {F : Type ℓ} → Option (Option F) → Exec F
callee none = fault out_of_bounds
callee (some none) = fault null_call
callee (some (some f)) = done f
