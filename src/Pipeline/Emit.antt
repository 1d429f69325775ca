-- ===== src/Pipeline/Emit.antt =====
-- include/pipepp/core/pipeline.hpp: `emit` and `process_message`.
pub mod Flow
pub mod Sequence
pub mod Threads
pub mod MovedFrom
use pipepp_core.Prelude.{
  ℕ, zero, suc, Bool, true, false, not, ◌&&◌, Option, none, some, List, [], ◌∷◌, get_elem?,
  if◌then◌else◌,
}
use pipepp_core.Exec.{Exec, done, ◌>>=◌}
use pipepp_core.Expected.{has_value}
use pipepp_core.Message.{Message, MessageView, default_message, from_view, as_view}
use pipepp_core.Spinlock.{lock, unlock}
use pipepp_core.Stages.{ProcessFn, SinkFn, callee}
use pipepp_core.Pipeline.{Pipeline}

-- What closures change while a message is processed: their world, and `running_` by `stop()`.
pub record Env (W : Type 0) : Type 0 where
  pub world : W
  pub running : Bool

abbrev pub env_after : {W : Type 0} → Env W → W → Bool → Env W
env_after env world stops = record { world = world; running = env.running && not stops }

module _ {W : Type 0} where
  -- The loop over `stages_`, with `rounds` for `stage_count_ - i`: `none` where a stage drops the
  -- message.
  unfoldable pub run_stages :
      ℕ → ℕ → List (Option (ProcessFn W)) → Message → Env W → Exec (Option Message × Env W)
  run_stages zero i stages msg env = done (some msg, env)
  run_stages (suc rounds) i stages msg env = do
    f ← callee (get_elem? stages i)
    r ← f msg env.world
    let env' = env_after env r.world r.stops
    if r.keep then run_stages rounds (suc i) stages r.msg env' else done (none, env')

  -- `if (sink_) sink_(owned.as_view())`
  abbrev pub run_sink : Option (SinkFn W) → Message → Env W → Exec (Env W)
  run_sink none msg env = done env
  run_sink (some f) msg env =
      f (as_view msg) env.world >>= λ r. done (env_after env r.world r.stops)

  -- What follows the stages.
  abbrev pub finish : Option (SinkFn W) → Option Message × Env W → Exec (Env W)
  finish sink (none, env) = done env
  finish sink (some msg, env) = run_sink sink msg env

module _ {S W : Type 0} where
  abbrev pub env_of : Pipeline S W → W → Env W
  env_of p w = record { world = w; running = p.running }

  abbrev pub with_env : Pipeline S W → Env W → Pipeline S W × W
  with_env p env = (record p { running = env.running }, env.world)

  -- `process_message`
  unfoldable pub process_message : Pipeline S W → W → MessageView → Exec (Pipeline S W × W)
  process_message p w mv =
      let r = from_view p.config (default_message p.config) mv in
      if has_value r.0
      then (do
        end ← run_stages p.stage_count 0 p.stages r.1 (env_of p w)
        env ← finish p.sink end
        done (with_env p env))
      else done (p, w)

  -- `emit`: the guard takes the lock, and its destructor releases it.
  unfoldable pub emit : Pipeline S W → W → MessageView → Exec (Pipeline S W × W)
  unfolding process_message
  emit p w mv = do
    held ← lock p.stage_lock
    (q, w') ← process_message (record p { stage_lock = held }) w mv
    done (record q { stage_lock = unlock q.stage_lock }, w')

  -- The messages that a source hands to the callback, one after the other.
  unfoldable pub emit_all : Pipeline S W → W → List MessageView → Exec (Pipeline S W × W)
  emit_all p w [] = done (p, w)
  emit_all p w (mv ∷ mvs) = do (q, w') ← emit p w mv; emit_all q w' mvs
