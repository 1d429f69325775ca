-- ===== src/Pipeline/Emit/MovedFrom.antt =====
-- What is left of a pipeline of include/pipepp/core/pipeline.hpp that was moved from: the arrays of
-- closures are empty, and the counts are as they were.
use pipepp_core.Prelude.{
  ℕ, zero, suc, ◌≤◌, ◌≡◌, refl, ap, ◌∙◌, true, none, List, ◌∷◌, arith, replicate,
}
use pipepp_core.Exec.{done, fault, null_call, ◌>>=◌, if_of_true}
use pipepp_core.Message.{Message, MessageView, default_message}
use pipepp_core.Spinlock.{Spinlock, unlocked, lock, unlock}
use pipepp_core.Stages.{ProcessFn, ConfigFn, callee}
use pipepp_core.Pipeline.{Pipeline, moved_from, check}
use pipepp_core.Pipeline.Build.{Contents}
use pipepp_core.Pipeline.Emit.{Env, run_stages, finish, emit, process_message, with_env}
use pipepp_core.Pipeline.Emit.Flow.{fits, has_value-from_view}

module _ {W : Type 0} where
  no_stage :
      (n max : ℕ) (msg : Message) (env : Env W)
      → 1 ≤ n
      → n ≤ max
      → run_stages n 0 (replicate max none) msg env ≡ fault null_call
  unfolding run_stages callee
  no_stage zero max msg env h k = absurd (omega arith)
  no_stage (suc n) zero msg env h k = absurd (omega arith)
  no_stage (suc n) (suc max) msg env h k = refl

module _ {S W : Type 0} where
  process_moved_from :
      (p : Pipeline S W) (l : Spinlock) (w : W) (mv : MessageView)
      → 1 ≤ p.stage_count
      → p.stage_count ≤ p.config.max_stages
      → fits p.config mv ≡ true
      → process_message (record (moved_from p) { stage_lock = l }) w mv ≡ fault null_call
  unfolding process_message
  process_moved_from p l w mv h k good =
      let q : Pipeline S W = record (moved_from p) { stage_lock = l } in
      if_of_true _ _ (has_value-from_view p.config (default_message p.config) mv ∙ good)
      ∙ ap (λ m. m >>= λ end. finish q.sink end >>= λ env. done (with_env q env))
          (no_stage p.stage_count p.config.max_stages _ _ h k)

  -- A pipeline with a stage at rest that is moved from reports the same to `check()`, but the next
  -- message that fits makes it call a null function.
  pub emit-moved_from :
      (p : Pipeline S W) (f : ProcessFn W) (fs : List (ProcessFn W)) (gs : List (ConfigFn S W))
      (w : W) (mv : MessageView)
      → Contents p (f ∷ fs) gs
      → p.stage_lock ≡ unlocked
      → fits p.config mv ≡ true
      → (check (moved_from p) ≡ check p) × (emit (moved_from p) w mv ≡ fault null_call)
  unfolding check emit lock
  emit-moved_from p f fs gs w mv v free good =
      let slots = v.stage_slots in
      (
        refl,
        ap
              (λ l. lock l >>= λ held.
                process_message (record (moved_from p) { stage_lock = held }) w mv >>= λ (q, w').
                done (record q { stage_lock = unlock q.stage_lock }, w'))
              free
            ∙ ap (λ m. m >>= λ (q, w'). done (record q { stage_lock = unlock q.stage_lock }, w'))
                (process_moved_from p (record { locked = true }) w mv
                  (omega (arith, slots.holds.counted)) slots.bounded good),
      )
