-- ===== src/Examples/Threads.antt =====
-- Runs of the theorems on threads that emit into one pipeline.
use pipepp_core.Prelude.{ℕ, suc, true, false, ◌≡◌, refl, some, [], ◌∷◌}
use pipepp_core.Exec.{done}
use pipepp_core.Message.{Message, MessageView}
use pipepp_core.Config.{embedded_config}
use pipepp_core.FixedString.{checked_from}
use pipepp_core.Stages.{StageEnd, SinkEnd}
use pipepp_core.Pipeline.{build, build_step, subscribe, configure, add_stage, set_sink}
use pipepp_core.Pipeline.Emit.{Env, emit_all, with_env}
use pipepp_core.Pipeline.Emit.Threads.{emit_section, threads-emit_all, threads-emitted}
use pipepp_core.Spinlock.Threads.{
  Section, waiting, inside, System, acquires, acts, releases, Reach, here, next, moves,
}
use pipepp_core.Spinlock.Threads.Serial.{start}
use pipepp_core.Spinlock.Threads.Taken.{Takes, Finished}
use pipepp_core.Examples.Pipelines.{greeting, pipe, pipe-Ready}

abbrev keep : Message → ℕ → StageEnd ℕ
keep m w = record { keep = true; msg = m; world = w; stops = false }

abbrev count : MessageView → ℕ → SinkEnd ℕ
count mv w = record { world = suc w; stops = false }

abbrev emitting : MessageView → Section Message (Env ℕ)
emitting = emit_section embedded_config (keep ∷ []) (some count)

-- Two threads with a message each.
abbrev begun : System MessageView Message (Env ℕ)
begun =
    start emitting ((greeting ∷ []) ∷ (greeting ∷ []) ∷ []) (record { world = 0; running = false })

-- The first has taken the lock.
abbrev taken : System MessageView Message (Env ℕ)
taken = record begun {
  lock = record { locked = true };
  threads =
      inside (emitting greeting).msg (emitting greeting).actions [] ∷ waiting (greeting ∷ []) ∷ [];
  started = greeting ∷ [];
}

taken-Reach : Reach emitting begun taken
taken-Reach = next here (moves (acquires 0 greeting [] refl refl))

-- The first has emitted its message, and the lock is free again.
abbrev emitted :
    (s : System MessageView Message (Env ℕ)) × Reach emitting begun s × (s.lock.locked ≡ false)
emitted = (
  _,
  next
      (next (next taken-Reach (moves (acts 0 (emitting greeting).msg _ _ [] refl)))
        (moves (acts 0 _ _ _ [] refl)))
      (moves (releases 0 _ [] refl)),
  refl,
)

threads-emit_all_example : emit_all pipe 0 emitted.0.started ≡ done (with_env pipe emitted.0.shared)
unfolding build build_step add_stage configure subscribe set_sink checked_from
threads-emit_all_example =
    threads-emit_all (keep ∷ []) (some count) pipe 0 ((greeting ∷ []) ∷ (greeting ∷ []) ∷ [])
      emitted.0 pipe-Ready.free pipe-Ready.holds refl emitted.1 emitted.2

-- One thread that has emitted its only message.
abbrev served :
    (s : System MessageView Message (Env ℕ)) × Reach emitting
      (start emitting ((greeting ∷ []) ∷ []) (record { world = 0; running = false }))
      s
    × Finished s.threads
served = (
  _,
  next
      (next
        (next (next here (moves (acquires 0 greeting [] refl refl)))
          (moves (acts 0 (emitting greeting).msg _ _ [] refl)))
        (moves (acts 0 _ _ _ [] refl)))
      (moves (releases 0 _ [] refl)),
  tt,
)

threads-emitted_example :
    Takes ((greeting ∷ []) ∷ []) served.0.started ([] ∷ [])
    × (emit_all pipe 0 served.0.started ≡ done (with_env pipe served.0.shared))
unfolding build build_step add_stage configure subscribe set_sink checked_from
threads-emitted_example =
    threads-emitted (keep ∷ []) (some count) pipe 0 ((greeting ∷ []) ∷ []) served.0 pipe-Ready.free
      pipe-Ready.holds refl served.1 served.2
