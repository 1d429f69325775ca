-- ===== src/Pipeline/Emit/Threads.antt =====
-- `emit` of include/pipepp/core/pipeline.hpp, called by several threads on one pipeline whose stages
-- and sink return.
use pipepp_core.Prelude.{
  ◌≡◌, refl, sym, ap, ◌∙◌, inl, inr, Bool, true, false, Option, none, some, List, [], ◌∷◌, ◌++◌,
  map, if◌then◌else◌, Bool-cases, replicate, length,
}
use pipepp_core.Config.{Config}
use pipepp_core.Exec.{Exec, done, map_exec, ◌>>=◌}
use pipepp_core.Message.{Message, MessageView, default_message, from_view, as_view}
use pipepp_core.Spinlock.{unlocked}
use pipepp_core.Spinlock.Threads.{Action, Section, System, Reach, run_actions, run_sections}
use pipepp_core.Spinlock.Threads.Serial.{start, serialised}
use pipepp_core.Spinlock.Threads.Taken.{Takes, Finished}
use pipepp_core.Spinlock.Threads.Finish.{all_served}
use pipepp_core.Stages.{StageEnd, SinkEnd, ProcessFn, SinkFn}
use pipepp_core.Pipeline.{Pipeline}
use pipepp_core.Pipeline.Emit.{Env, env_after, env_of, with_env, emit_all}
use pipepp_core.Pipeline.Emit.Flow.{Holds, fits, flow, deliver, emit-deliver}

-- A stage's verdict, read by the loop over the stages and by the section of a thread.
kept_cases :
    {A B : Type 0} (b : Bool) (x : A) (v : B) (f : A → B) (m : Exec B)
    → m ≡ done (f x)
    → (if b then m else done v)
      ≡ done (elim (if b then some x else none) [ none ↦ v | some y ↦ f y ])
kept_cases true x v f m h = h
kept_cases false x v f m h = refl

-- Stages and a sink that return, and the closures that a pipeline holds for them.
module _ {W : Type 0} where
  abbrev pub stages_for : List (Message → W → StageEnd W) → List (ProcessFn W)
  stages_for gs = map (λ g m w. done (g m w)) gs

  abbrev pub sink_for : Option (MessageView → W → SinkEnd W) → Option (SinkFn W)
  sink_for none = none
  sink_for (some k) = some (λ mv w. done (k mv w))

  -- What one stage does in the section of a thread.
  abbrev pub stage_action : (Message → W → StageEnd W) → Action Message (Env W)
  stage_action g m env =
      let r = g m env.world in (if r.keep then some r.msg else none, env_after env r.world r.stops)

  abbrev pub sink_actions : Option (MessageView → W → SinkEnd W) → List (Action Message (Env W))
  sink_actions none = []
  sink_actions (some k) =
      (λ m env. let r = k (as_view m) env.world in (none, env_after env r.world r.stops)) ∷ []

  -- The section of `emit`: the copy of the message, the stages, and the sink; a message that does
  -- not fit passes nothing.
  abbrev pub emit_section :
      Config
      → List (Message → W → StageEnd W)
      → Option (MessageView → W → SinkEnd W)
      → MessageView
      → Section Message (Env W)
  emit_section c gs k mv = record {
    msg = (from_view c (default_message c) mv).1;
    actions = if fits c mv then map stage_action gs ++ sink_actions k else [];
  }

  flow-run_actions :
      (gs : List (Message → W → StageEnd W)) (k : Option (MessageView → W → SinkEnd W))
      (msg : Message) (env : Env W)
      → flow (stages_for gs) (sink_for k) msg env
        ≡ done (run_actions (map stage_action gs ++ sink_actions k) msg env)
  flow-run_actions [] none msg env = refl
  flow-run_actions [] (some k) msg env = refl
  flow-run_actions (g ∷ gs) k msg env =
      let r = g msg env.world in
      let env' = env_after env r.world r.stops in
      kept_cases r.keep r.msg env' (λ m. run_actions (map stage_action gs ++ sink_actions k) m env')
        _ (flow-run_actions gs k r.msg env')

  deliver-run_actions :
      (c : Config) (gs : List (Message → W → StageEnd W)) (k : Option (MessageView → W → SinkEnd W))
      (mv : MessageView) (env : Env W)
      → let sec = emit_section c gs k mv in
        deliver c (stages_for gs) (sink_for k) mv env ≡ done (run_actions sec.actions sec.msg env)
  deliver-run_actions c gs k mv env = elim (Bool-cases (fits c mv)) [
    | inl e ↦ rw e (flow-run_actions gs k _ env)
    | inr e ↦ rw e refl
  ]

module _ {S W : Type 0} (gs : List (Message → W → StageEnd W))
    (k : Option (MessageView → W → SinkEnd W)) where
  emit_all-run_sections :
      (mvs : List MessageView) (p : Pipeline S W) (w : W)
      → p.stage_lock ≡ unlocked
      → Holds p.stages p.stage_count (stages_for gs)
      → p.sink ≡ sink_for k
      → emit_all p w mvs
        ≡ done (with_env p (run_sections (emit_section p.config gs k) mvs (env_of p w)))
  unfolding emit_all
  emit_all-run_sections [] p w free holds sink = refl
  emit_all-run_sections (mv ∷ mvs) p w free holds sink =
      let sec = emit_section p.config gs k mv in
      let env = run_actions sec.actions sec.msg (env_of p w) in
      ap (λ m. m >>= λ (q, w'). emit_all q w' mvs)
        (emit-deliver p w mv (stages_for gs) free holds
          ∙ (ap (λ s. map_exec (with_env p) (deliver p.config (stages_for gs) s mv (env_of p w)))
                sink
              ∙ ap (map_exec (with_env p)) (deliver-run_actions p.config gs k mv (env_of p w))))
      ∙ emit_all-run_sections mvs (with_env p env).0 env.world free holds sink

-- Several threads that emit messages into one pipeline: in every state that they reach and in which
-- the lock is free, the world and `running` are what one thread makes of them that emits the
-- messages one after the other, in the order in which the lock was taken.
pub threads-emit_all :
    {S W : Type 0} (gs : List (Message → W → StageEnd W)) (k : Option (MessageView → W → SinkEnd W))
    (p : Pipeline S W) (w : W) (jobs : List (List MessageView))
    (s : System MessageView Message (Env W))
    → p.stage_lock ≡ unlocked
    → Holds p.stages p.stage_count (stages_for gs)
    → p.sink ≡ sink_for k
    → Reach (emit_section p.config gs k) (start (emit_section p.config gs k) jobs (env_of p w)) s
    → s.lock.locked ≡ false
    → emit_all p w s.started ≡ done (with_env p s.shared)
threads-emit_all gs k p w jobs s free holds sink r unlocked_now =
    emit_all-run_sections gs k s.started p w free holds sink
    ∙ ap (λ env. done (with_env p env))
        (sym (serialised (emit_section p.config gs k) jobs (env_of p w) s r unlocked_now))

-- When several threads that each emit messages into one pipeline are through, the world and `running`
-- are what one thread makes of them that emits all the messages, each once, those of one thread in
-- its order.
pub threads-emitted :
    {S W : Type 0} (gs : List (Message → W → StageEnd W)) (k : Option (MessageView → W → SinkEnd W))
    (p : Pipeline S W) (w : W) (jobs : List (List MessageView))
    (s : System MessageView Message (Env W))
    → p.stage_lock ≡ unlocked
    → Holds p.stages p.stage_count (stages_for gs)
    → p.sink ≡ sink_for k
    → Reach (emit_section p.config gs k) (start (emit_section p.config gs k) jobs (env_of p w)) s
    → Finished s.threads
    → Takes jobs s.started (replicate (length jobs) [])
      × (emit_all p w s.started ≡ done (with_env p s.shared))
threads-emitted gs k p w jobs s free holds sink r f =
    let (open_now, all, _) = all_served (emit_section p.config gs k) jobs (env_of p w) s r f in
    (all, threads-emit_all gs k p w jobs s free holds sink r open_now)
