-- ===== src/PipelineOps.antt =====
-- include/pipepp/core/pipeline_ops.hpp: what is piped into a pipeline. A callable answers with an `R`
-- of its own; how C++ converts that to `bool` is a parameter.
pub mod Chains
pub mod Runs
use pipepp_core.Prelude.{ℕ, ℤ, List, [], ◌∷◌, ◌++◌, Bool, length}
use pipepp_core.Exec.{Exec, done, ◌>>=◌}
use pipepp_core.Expected.{Result}
use pipepp_core.FixedString.{FixedString, from_c_string, as_view}
use pipepp_core.Message.{Message, MessageView}
use pipepp_core.Source.{BusSource}
use pipepp_core.Stages.{ConfigFn, ProcessFn, SinkFn}
use pipepp_core.Pipeline.{Pipeline, subscribe, configure, add_stage, set_sink, move_into}
use pipepp_core.Pipeline.Run.{run}

-- The end of a call of a callable on a message: what it returns, the message as it leaves it, the
-- world, and whether it called `stop()` on the pipeline.
pub record CallEnd (W R : Type 0) : Type 0 where
  pub result : R
  pub msg : Message
  pub world : W
  pub stops : Bool

-- The end of a call on a view.
pub record ViewEnd (W R : Type 0) : Type 0 where
  pub result : R
  pub world : W
  pub stops : Bool

-- `process_args`, which `transform` makes too, `filter_args`, `sink_args`, `configure_args` and
-- `subscribe_args`
pub data Args (S W R : Type 0) : Type 0 where
  process_args : (Message → W → Exec (CallEnd W R)) → Args S W R
  filter_args : (Message → W → Exec (CallEnd W R)) → Args S W R
  sink_args : (MessageView → W → Exec (ViewEnd W R)) → Args S W R
  configure_args : ConfigFn S W → Args S W R
  subscribe_args : FixedString → ℤ → Args S W R

module _ {S W R : Type 0} where
  -- `subscribe(const char (&topic)[N], int qos)`, for the literal with these characters
  abbrev pub subscribe_literal : List ℕ → ℤ → Args S W R
  subscribe_literal topic qos = subscribe_args (from_c_string (length topic) (topic ++ 0 ∷ [])) qos

module _ {W R : Type 0} where
  -- The lambda of `operator|` for `process_args`; `to_bool` is its `static_cast<bool>`.
  unfoldable pub process_lambda : (R → Bool) → (Message → W → Exec (CallEnd W R)) → ProcessFn W
  process_lambda to_bool fn msg w = do
    r ← fn msg w
    done (record { keep = to_bool r.result; msg = r.msg; world = r.world; stops = r.stops })

  -- The lambda of `operator|` for `filter_args`; `to_bool` is the implicit conversion.
  unfoldable pub filter_lambda : (R → Bool) → (Message → W → Exec (CallEnd W R)) → ProcessFn W
  filter_lambda to_bool fn msg w = do
    r ← fn msg w
    done (record { keep = to_bool r.result; msg = r.msg; world = r.world; stops = r.stops })

  -- The lambda of `operator|` for `sink_args`, which does not look at what the callable returns
  unfoldable pub sink_lambda : (MessageView → W → Exec (ViewEnd W R)) → SinkFn W
  sink_lambda fn mv w = do r ← fn mv w; done (record { world = r.world; stops = r.stops })

-- `static_bool` is `static_cast<bool>` on what a callable returns, and `implicit_bool` the implicit
-- conversion to `bool`.
module _ {S W R : Type 0} (static_bool implicit_bool : R → Bool) where
  -- `operator|`: the pipeline is changed, and moved out by `return pipe`.
  unfoldable pub pipe : Pipeline S W → Args S W R → Pipeline S W
  unfolding process_lambda filter_lambda sink_lambda
  pipe p (process_args fn) = move_into (add_stage p (process_lambda static_bool fn))
  pipe p (filter_args fn) = move_into (add_stage p (filter_lambda implicit_bool fn))
  pipe p (sink_args fn) = move_into (set_sink p (sink_lambda fn))
  pipe p (configure_args fn) = move_into (configure p fn)
  pipe p (subscribe_args topic qos) = move_into (subscribe p (as_view topic) qos)

  -- `pipe | a | b | …`
  unfoldable pub pipe_all : Pipeline S W → List (Args S W R) → Pipeline S W
  pipe_all p [] = p
  pipe_all p (a ∷ args) = pipe_all (pipe p a) args

module _ {S W : Type 0} where
  -- `execute`
  abbrev pub execute : BusSource S → List Bool → Pipeline S W → W → Exec (Result × Pipeline S W × W)
  execute bus schedule p w = run bus schedule p w
