-- ===== src/Pipeline/Emit/Flow.antt =====
-- What `emit` of include/pipepp/core/pipeline.hpp promises, told without arrays, counters or locks.
use pipepp_core.Prelude.{
  ℕ, zero, suc, ◌≡◌, refl, sym, ap, ◌∙◌, inl, inr, Bool, true, ◌&&◌, Option, none, some, List, [],
  ◌∷◌, map, leb, take, drop, length, take-drop_cons, Bool-cases, arith, if◌then◌else◌,
}
use pipepp_core.Exec.{Exec, done, ◌>>=◌, map_exec, >>=_assoc, >>=-ext}
use pipepp_core.Expected.{has_value}
use pipepp_core.Config.{Config}
use pipepp_core.Message.{Message, MessageView, default_message, from_view}
use pipepp_core.Spinlock.{unlocked, lock}
use pipepp_core.Stages.{StageEnd, ProcessFn, SinkFn, callee}
use pipepp_core.Pipeline.{Pipeline}
use pipepp_core.Pipeline.Emit.{
  Env, env_after, run_stages, run_sink, finish, env_of, with_env, process_message, emit,
}

-- Whether a view is within the limits.
abbrev pub fits : Config → MessageView → Bool
fits c mv = leb (length mv.topic) c.max_topic_len && leb (length mv.payload) c.max_payload_len

-- The first `n` slots hold the functions `fs`.
pub record Holds {F : Type 0} (slots : List (Option F)) (n : ℕ) (fs : List F) : Type 0 where
  pub front : take n slots ≡ map some fs
  pub counted : length fs ≡ n

module _ {W : Type 0} where
  -- The stages one after the other, each on what the one before it left, up to the first that drops
  -- the message; then the sink.
  abbrev pub flow : List (ProcessFn W) → Option (SinkFn W) → Message → Env W → Exec (Env W)
  flow [] sink msg env = run_sink sink msg env
  flow (f ∷ fs) sink msg env = do
    r ← f msg env.world
    let env' = env_after env r.world r.stops
    if r.keep then flow fs sink r.msg env' else done env'

  -- A message that does not fit is dropped, and nobody is told.
  abbrev pub deliver :
      Config → List (ProcessFn W) → Option (SinkFn W) → MessageView → Env W → Exec (Env W)
  deliver c fs sink mv env =
      if fits c mv then flow fs sink (from_view c (default_message c) mv).1 env else done env

  stage_step :
      (rounds i : ℕ) (stages : List (Option (ProcessFn W))) (sink : Option (SinkFn W))
      (fs : List (ProcessFn W)) (env : Env W) (r : StageEnd W)
      → ((msg : Message) (e : Env W)
          → (run_stages rounds (suc i) stages msg e >>= finish sink) ≡ flow fs sink msg e)
      → let env' = env_after env r.world r.stops in
        ((if r.keep then run_stages rounds (suc i) stages r.msg env' else done (none, env'))
          >>= finish sink)
        ≡ (if r.keep then flow fs sink r.msg env' else done env')
  stage_step rounds i stages sink fs env r ih = elim (Bool-cases r.keep) [
    | inl e ↦ rw e (ih r.msg (env_after env r.world r.stops))
    | inr e ↦ rw e
  ]

  run_stages_lem :
      (fs : List (ProcessFn W)) (n i : ℕ) (stages : List (Option (ProcessFn W)))
      (sink : Option (SinkFn W))
      → take n (drop i stages) ≡ map some fs
      → length fs ≡ n
      → (msg : Message) (env : Env W)
      → (run_stages n i stages msg env >>= finish sink) ≡ flow fs sink msg env
  unfolding run_stages callee
  run_stages_lem [] zero i stages sink h k msg env = refl
  run_stages_lem [] (suc n) i stages sink h k msg env = absurd (omega arith)
  run_stages_lem (f ∷ fs) zero i stages sink h k msg env = absurd (omega arith)
  run_stages_lem (f ∷ fs) (suc n) i stages sink h k msg env =
      let (here, later) = take-drop_cons stages n i (some f) (map some fs) h in
      rw here (
        >>=_assoc (f msg env.world) _ (finish sink)
        ∙ >>=-ext (f msg env.world) _ _ λ r.
          stage_step n i stages sink fs env r
            (run_stages_lem fs n (suc i) stages sink later (omega arith)))

pub has_value-from_view :
    (c : Config) (m : Message) (mv : MessageView) → has_value (from_view c m mv).0 ≡ fits c mv
unfolding from_view
has_value-from_view c m mv = ground arith

module _ {S W : Type 0} (p : Pipeline S W) (w : W) (mv : MessageView) (fs : List (ProcessFn W))
    (holds : Holds p.stages p.stage_count fs) where
  process_message_lem :
      process_message p w mv ≡ map_exec (with_env p) (deliver p.config fs p.sink mv (env_of p w))
  unfolding process_message
  process_message_lem =
      rw (has_value-from_view p.config (default_message p.config) mv)
        (elim (Bool-cases (fits p.config mv)) [
          | inl fitting ↦ rw fitting (
              sym (>>=_assoc (run_stages p.stage_count 0 p.stages _ (env_of p w)) (finish p.sink) _)
              ∙ ap (map_exec (with_env p)) (
                  run_stages_lem fs p.stage_count 0 p.stages p.sink holds.front holds.counted _
                    (env_of p w)))
          | inr too_long ↦ rw too_long
        ])

-- `emit` on a pipeline whose lock is free and whose first `stage_count` slots hold the stages `fs`
-- delivers the message to `fs` and the sink as told by `deliver`, and changes nothing of the
-- pipeline but `running`.
pub emit-deliver :
    {S W : Type 0} (p : Pipeline S W) (w : W) (mv : MessageView) (fs : List (ProcessFn W))
    → p.stage_lock ≡ unlocked
    → Holds p.stages p.stage_count fs
    → emit p w mv ≡ map_exec (with_env p) (deliver p.config fs p.sink mv (env_of p w))
unfolding emit lock
emit-deliver {S} {W} p w mv fs free holds = rw (ap lock free) (
    ap (λ m. m >>= release) (process_message_lem held w mv fs holds)
    ∙ (>>=_assoc (deliver p.config fs p.sink mv (env_of p w)) _ release
        ∙ >>=-ext (deliver p.config fs p.sink mv (env_of p w)) _ _
            λ env. λ i. done (record (with_env p env).0 { stage_lock = sym free i }, env.world)))
  where
    held : Pipeline S W
    held = record p { stage_lock = record { locked = true } }

    release : Pipeline S W × W → Exec (Pipeline S W × W)
    release (q, w') = done (record q { stage_lock = unlocked }, w')
