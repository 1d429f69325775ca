-- ===== src/Network.antt =====
-- include/pipepp/core/connect_to.hpp: pipelines that stand at addresses, and whose sinks emit into
-- one another by the pointers that they captured, in whatever way they are connected.
pub mod Links
pub mod Steps
pub mod Threads
pub mod Single
pub mod Circles
pub mod Depth
pub mod Relays
pub mod Flood
pub mod Routes
pub mod Ranked
use pipepp_core.Prelude.{
  ℕ, zero, suc, Option, none, some, List, [], ◌∷◌, ◌++◌, get_elem?, set, if◌then◌else◌,
}
use pipepp_core.Exec.{Exec, done, fault, ◌>>=◌, map_exec, dead_object, unfinished}
use pipepp_core.Expected.{has_value}
use pipepp_core.Message.{Message, MessageView, default_message, from_view, as_view}
use pipepp_core.Spinlock.{Spinlock, lock, unlock}
use pipepp_core.Stages.{SinkFn}
use pipepp_core.Pipeline.{Pipeline, set_sink, move_into}
use pipepp_core.Pipeline.Emit.{Env, run_stages, run_sink}
use pipepp_core.ConnectTo.{with_topic, remapped}

-- `connect_args` and `connect_args_with_prefix`; a `target` is the address of a pipeline.
pub record ConnectArgs : Type 0 where
  pub target : ℕ

pub record ConnectArgsWithPrefix : Type 0 where
  pub target : ℕ
  pub prefix : List ℕ

-- The two overloads of `connect_to`
abbrev pub connect_to : ℕ → ConnectArgs
connect_to target = record { target = target }

abbrev pub connect_to_prefix : ℕ → List ℕ → ConnectArgsWithPrefix
connect_to_prefix target prefix = record { target = target; prefix = prefix }

-- What the sinks that emit into another pipeline have captured.
pub data Link (W : Type 0) : Type 0 where
  connects : ℕ → Link W
  prefixes : ℕ → List ℕ → Link W
  remaps : ℕ → (List ℕ → W → Exec (List ℕ × W)) → Link W

-- A pipeline in a network. Where it has a link, this is its `sink_`, and else its own sink is.
pub record Node (S W : Type 0) : Type 0 where
  pub own : Pipeline S W
  pub link : Option (Link W)

abbrev pub Network : Type 0 → Type 0 → Type 0
Network S W = List (Node S W)

module _ {W : Type 0} where
  abbrev pub target_of : Link W → ℕ
  target_of (connects target) = target
  target_of (prefixes target prefix) = target
  target_of (remaps target remap) = target

  -- The message that a link emits.
  abbrev pub outgoing : Link W → MessageView → W → Exec (MessageView × W)
  outgoing (connects target) mv w = done (mv, w)
  outgoing (prefixes target prefix) mv w = done (with_topic (prefix ++ mv.topic) mv, w)
  outgoing (remaps target remap) mv w = do
    (topic, w') ← remap mv.topic w
    done (remapped topic mv, w')

  -- What a sink does with a message: where it goes next, if anywhere.
  abbrev pub depart_by :
      Option (Link W)
      → Option (SinkFn W)
      → Message
      → Env W
      → Exec (Option (ℕ × MessageView) × Env W)
  depart_by none sink msg env = map_exec (λ e. (none, e)) (run_sink sink msg env)
  depart_by (some l) sink msg env = do
    (mv, w) ← outgoing l (as_view msg) env.world
    done (some (target_of l, mv), record env { world = w })

module _ {S W : Type 0} where
  -- `set_sink` with a callable that emits into no pipeline of the network
  abbrev pub sink_into : Node S W → SinkFn W → Node S W
  sink_into n f = record { own = set_sink n.own f; link = none }

  -- `set_sink` with one of the three that do, and the move out of the operator
  abbrev pub linked : Node S W → Link W → Node S W
  linked n l = record { own = move_into n.own; link = some l }

  -- `operator|` with `connect_args`, and with `connect_args_with_prefix`
  unfoldable pub pipe_args : Node S W → ConnectArgs → Node S W
  pipe_args n args = linked n (connects args.target)

  unfoldable pub pipe_prefix_args : Node S W → ConnectArgsWithPrefix → Node S W
  pipe_prefix_args n args = linked n (prefixes args.target args.prefix)

  -- `with_remap`
  unfoldable pub remap_into : Node S W → ℕ → (List ℕ → W → Exec (List ℕ × W)) → Node S W
  remap_into n target remap = linked n (remaps target remap)

  abbrev pub with_lock : Node S W → Spinlock → Node S W
  with_lock n l = record n { own = record n.own { stage_lock = l } }

  abbrev pub with_running : Node S W → Env W → Node S W
  with_running n env = record n { own = record n.own { running = env.running } }

  -- A pipeline by its address, which is one of a pipeline that is no more, or never was, if there
  -- is none.
  unfoldable pub node_at : Network S W → ℕ → Exec (Node S W)
  node_at net i = elim (get_elem? net i) [ none ↦ fault dead_object | some n ↦ done n ]

  -- The pipeline at `i` releases its lock.
  abbrev pub unlock_at : Network S W → ℕ → Exec (Network S W)
  unlock_at net i =
      map_exec (λ n. set net i (with_lock n (unlock n.own.stage_lock))) (node_at net i)

  abbrev pub depart : Node S W → Option Message × Env W → Exec (Option (ℕ × MessageView) × Env W)
  depart n (none, env) = done (none, env)
  depart n (some msg, env) = depart_by n.link n.own.sink msg env

  -- `process_message` up to the call of `emit` on the target, if it comes to that
  unfoldable pub pass : Node S W → Env W → MessageView → Exec (Option (ℕ × MessageView) × Env W)
  pass n env mv =
      let r = from_view n.own.config (default_message n.own.config) mv in
      if has_value r.0
      then (run_stages n.own.stage_count 0 n.own.stages r.1 env >>= depart n)
      else done (none, env)

  abbrev pub world_env : Node S W → W → Env W
  world_env n w = record { world = w; running = n.own.running }

  -- `emit` on the pipeline at `i`, with `depth` for the calls that may be nested.
  unfoldable pub emit_at : ℕ → Network S W → ℕ → W → MessageView → Exec (Network S W × W)
  emit_at zero net i w mv = fault unfinished
  emit_at (suc depth) net i w mv = do
    n ← node_at net i
    held ← lock n.own.stage_lock
    (onward, env) ← pass n (world_env n w) mv
    let net' = set net i (with_running (with_lock n held) env)
    (after, w') ← elim onward [
      | none ↦ done (net', env.world)
      | some (j, mv') ↦ emit_at depth net' j env.world mv'
    ]
    released ← unlock_at after i
    done (released, w')

  -- The same without locks: the message goes from one pipeline to the next.
  unfoldable pub flood : ℕ → Network S W → ℕ → W → MessageView → Exec (Network S W × W)
  flood zero net i w mv = fault unfinished
  flood (suc depth) net i w mv = do
    n ← node_at net i
    (onward, env) ← pass n (world_env n w) mv
    let net' = set net i (with_running n env)
    elim onward [ none ↦ done (net', env.world) | some (j, mv') ↦ flood depth net' j env.world mv' ]
