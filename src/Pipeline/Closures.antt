-- ===== src/Pipeline/Closures.antt =====
-- include/pipepp/core/stages.hpp, and the arrays of include/pipepp/core/pipeline.hpp as they stand in
-- memory: the closures of a pipeline as `small_function` objects.
pub mod Arrays
pub mod Refine
use pipepp_core.Prelude.{
  ℕ, zero, suc, Bool, true, false, Option, none, some, List, [], ◌∷◌, ltb, if◌then◌else◌, get_elem?,
  map,
}
use pipepp_core.Exec.{Exec, done, fault, out_of_bounds, ◌>>=◌}
use pipepp_core.Expected.{Result, ok, has_value}
use pipepp_core.Message.{Message, MessageView, default_message, from_view, as_view}
use pipepp_core.Stages.{ProcessFn, SinkFn, ConfigFn, StageEnd, SinkEnd}
use pipepp_core.SmallFunction.{
  SmallFunction, function_of, reset, move_construct, move_assign, invoke, sets, element, op,
}
use pipepp_core.SmallFunction.Lifetime.{object}
use pipepp_core.Pipeline.{
  Pipeline, BuildStep, subscribes, configures, adds_stage, sets_sink, connects_uri, build_step,
}
use pipepp_core.Pipeline.Emit.{Env, env_after, env_of, with_env}

module _ {S W : Type 0} where
  -- `config_fn::create`: the wrapper hands the source on.
  abbrev pub create : (S → W → Exec (Result × S × W)) → SmallFunction (ConfigFn S W)
  create f = function_of (λ src w. f src w)

  -- `config_fn::apply`
  unfoldable pub apply : SmallFunction (ConfigFn S W) → S → W → Exec (Result × S × W)
  apply fn source w = invoke fn >>= λ f. f source w

module _ {W : Type 0} where
  -- `process_fn::operator()`
  unfoldable pub call_process : SmallFunction (ProcessFn W) → Message → W → Exec (StageEnd W)
  call_process fn msg w = invoke fn >>= λ f. f msg w

  -- `sink_fn::operator()`
  unfoldable pub call_sink : SmallFunction (SinkFn W) → MessageView → W → Exec (SinkEnd W)
  call_sink fn msg w = invoke fn >>= λ f. f msg w

-- `operator bool` of each of them, and of `small_function`
abbrev pub is_set : {F : Type 0} → SmallFunction F → Bool
is_set fn = fn.invoke_fn

-- `config_ops_`, `stages_` and `sink_`
pub record Closures (S W : Type 0) : Type 0 where
  pub config_ops : List (SmallFunction (ConfigFn S W))
  pub stages : List (SmallFunction (ProcessFn W))
  pub sink : SmallFunction (SinkFn W)

module _ {F : Type 0} where
  -- `fn = F(f)`: a temporary, the move assignment, and the end of the temporary.
  unfoldable pub assign_new : SmallFunction F → F → Exec (SmallFunction F)
  unfolding move_assign reset
  assign_new fn f = do (fn', temp) ← move_assign fn (function_of f); gone ← reset temp; done fn'

  -- `fns[count] = F(f)`, if there is room
  unfoldable pub push_new : ℕ → ℕ → List (SmallFunction F) → F → Exec (List (SmallFunction F))
  unfolding op
  push_new count max fns f = if ltb count max then op fns (sets count f) else done fns

  -- The move constructor of a `std::array`: element by element.
  unfoldable pub move_array :
      List (SmallFunction F) → Exec (List (SmallFunction F) × List (SmallFunction F))
  unfolding move_construct
  move_array [] = done ([], [])
  move_array (fn ∷ fns) = do
    (new, old) ← move_construct fn
    (news, olds) ← move_array fns
    done (new ∷ news, old ∷ olds)

  -- The move assignment of a `std::array`, and of the elements behind one of two that are longer
  -- than the other, which there are none of.
  unfoldable pub assign_array :
      List (SmallFunction F)
      → List (SmallFunction F)
      → Exec (List (SmallFunction F) × List (SmallFunction F))
  unfolding move_assign
  assign_array [] [] = done ([], [])
  assign_array (fn ∷ fns) (other ∷ others) = do
    (new, old) ← move_assign fn other
    (news, olds) ← assign_array fns others
    done (new ∷ news, old ∷ olds)
  assign_array fns others = fault out_of_bounds

  -- The destructor of a `std::array`
  unfoldable pub reset_array : List (SmallFunction F) → Exec (List (SmallFunction F))
  unfolding reset
  reset_array [] = done []
  reset_array (fn ∷ fns) = do old ← reset fn; olds ← reset_array fns; done (old ∷ olds)

module _ {S W : Type 0} where
  -- `configure`, `add_stage` and `set_sink`; the other calls leave the closures alone. `p` has the
  -- counts and the configuration.
  unfoldable pub build_closures : Pipeline S W → Closures S W → BuildStep S W → Exec (Closures S W)
  unfolding push_new assign_new
  build_closures p o (configures f) =
      push_new p.config_count p.config.max_config_ops o.config_ops f >>= λ fns.
      done (record o { config_ops = fns })
  build_closures p o (adds_stage f) =
      push_new p.stage_count p.config.max_stages o.stages f >>= λ fns.
      done (record o { stages = fns })
  build_closures p o (sets_sink f) = assign_new o.sink f >>= λ fn. done (record o { sink = fn })
  build_closures p o (subscribes topic qos) = done o
  build_closures p o (connects_uri temp uri_str) = done o

  -- A chain of calls
  unfoldable pub chain_closures :
      Pipeline S W → Closures S W → List (BuildStep S W) → Exec (Closures S W)
  unfolding build_closures
  chain_closures p o [] = done o
  chain_closures p o (b ∷ bs) = do o' ← build_closures p o b; chain_closures (build_step p b) o' bs

  -- The moves of a pipeline, and its destructor
  unfoldable pub move_closures : Closures S W → Exec (Closures S W × Closures S W)
  unfolding move_array move_construct
  move_closures other = do
    (config_ops, old_ops) ← move_array other.config_ops
    (stages, old_stages) ← move_array other.stages
    (sink, old_sink) ← move_construct other.sink
    done (
      record { config_ops = config_ops; stages = stages; sink = sink },
      record { config_ops = old_ops; stages = old_stages; sink = old_sink },
    )

  unfoldable pub assign_closures : Closures S W → Closures S W → Exec (Closures S W × Closures S W)
  unfolding assign_array move_assign
  assign_closures o other = do
    (config_ops, old_ops) ← assign_array o.config_ops other.config_ops
    (stages, old_stages) ← assign_array o.stages other.stages
    (sink, old_sink) ← move_assign o.sink other.sink
    done (
      record { config_ops = config_ops; stages = stages; sink = sink },
      record { config_ops = old_ops; stages = old_stages; sink = old_sink },
    )

  unfoldable pub destroy_closures : Closures S W → Exec (Closures S W)
  unfolding reset_array reset
  destroy_closures o = do
    sink ← reset o.sink
    stages ← reset_array o.stages
    config_ops ← reset_array o.config_ops
    done (record { config_ops = config_ops; stages = stages; sink = sink })

module _ {W : Type 0} where
  -- The loop over `stages_`, with `rounds` for `stage_count_ - i`.
  unfoldable pub call_stages :
      ℕ → ℕ → List (SmallFunction (ProcessFn W)) → Message → Env W → Exec (Option Message × Env W)
  unfolding call_process
  call_stages zero i stages msg env = done (some msg, env)
  call_stages (suc rounds) i stages msg env = do
    fn ← element (get_elem? stages i)
    r ← call_process fn msg env.world
    let env' = env_after env r.world r.stops
    if r.keep then call_stages rounds (suc i) stages r.msg env' else done (none, env')

  -- What follows the stages: `if (sink_) sink_(owned.as_view())`.
  abbrev pub call_finish : SmallFunction (SinkFn W) → Option Message × Env W → Exec (Env W)
  call_finish sink (none, env) = done env
  call_finish sink (some msg, env) =
      if is_set sink
      then (call_sink sink (as_view msg) env.world >>= λ r. done (env_after env r.world r.stops))
      else done env

module _ {S W : Type 0} where
  -- `process_message`
  unfoldable pub process_closures :
      Closures S W → Pipeline S W → W → MessageView → Exec (Pipeline S W × W)
  unfolding call_stages
  process_closures o p w mv =
      let r = from_view p.config (default_message p.config) mv in
      if has_value r.0
      then (do
        end ← call_stages p.stage_count 0 o.stages r.1 (env_of p w)
        env ← call_finish o.sink end
        done (with_env p env))
      else done (p, w)

  -- The loop over `config_ops_` in `run`, with `rounds` for `config_count_ - i`.
  unfoldable pub apply_configs :
      ℕ → ℕ → List (SmallFunction (ConfigFn S W)) → S → W → Exec (Result × S × W)
  unfolding apply
  apply_configs zero i ops src w = done (ok, src, w)
  apply_configs (suc rounds) i ops src w = do
    fn ← element (get_elem? ops i)
    (r, src', w') ← apply fn src w
    if has_value r then apply_configs rounds (suc i) ops src' w' else done (r, src', w')

  -- The objects in the arrays of a pipeline.
  abbrev pub objects_of : Pipeline S W → Closures S W
  objects_of p = record {
    config_ops = map object p.config_ops;
    stages = map object p.stages;
    sink = object p.sink;
  }
