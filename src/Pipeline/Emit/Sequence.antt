-- ===== src/Pipeline/Emit/Sequence.antt =====
-- A sequence of messages that `emit` of include/pipepp/core/pipeline.hpp is called with.
use pipepp_core.Prelude.{◌≡◌, refl, sym, ap, ◌∙◌, Option, List, [], ◌∷◌}
use pipepp_core.Config.{Config}
use pipepp_core.Exec.{Exec, done, ◌>>=◌, map_exec, >>=_assoc, >>=-ext}
use pipepp_core.Message.{MessageView}
use pipepp_core.Spinlock.{unlocked}
use pipepp_core.Stages.{ProcessFn, SinkFn}
use pipepp_core.Pipeline.{Pipeline}
use pipepp_core.Pipeline.Emit.{Env, emit_all, env_of, with_env}
use pipepp_core.Pipeline.Emit.Flow.{Holds, deliver, emit-deliver}

module _ {W : Type 0} where
  -- The messages one after the other.
  abbrev pub deliver_all :
      Config → List (ProcessFn W) → Option (SinkFn W) → List MessageView → Env W → Exec (Env W)
  deliver_all c fs sink [] env = done env
  deliver_all c fs sink (mv ∷ mvs) env =
      deliver c fs sink mv env >>= λ env'. deliver_all c fs sink mvs env'

pub emit_all-deliver_all :
    {S W : Type 0} (fs : List (ProcessFn W)) (mvs : List MessageView) (p : Pipeline S W) (w : W)
    → p.stage_lock ≡ unlocked
    → Holds p.stages p.stage_count fs
    → emit_all p w mvs ≡ map_exec (with_env p) (deliver_all p.config fs p.sink mvs (env_of p w))
unfolding emit_all
emit_all-deliver_all fs [] p w free holds = refl
emit_all-deliver_all fs (mv ∷ mvs) p w free holds =
    ap (λ m. m >>= λ (q, w'). emit_all q w' mvs) (emit-deliver p w mv fs free holds)
    ∙ (>>=_assoc (deliver p.config fs p.sink mv (env_of p w)) _ _
        ∙ (>>=-ext (deliver p.config fs p.sink mv (env_of p w)) _ _
              (λ env. emit_all-deliver_all fs mvs (with_env p env).0 env.world free holds)
            ∙ sym (>>=_assoc (deliver p.config fs p.sink mv (env_of p w)) _ _)))
