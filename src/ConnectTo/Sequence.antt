-- ===== src/ConnectTo/Sequence.antt =====
-- A sequence of messages into the connected pipelines of include/pipepp/core/connect_to.hpp.
use pipepp_core.Prelude.{
  ℕ, ◌≡◌, refl, sym, ap, ◌∙◌, inl, inr, Bool-cases, List, [], ◌∷◌, ◌++◌, map, if◌then◌else◌,
}
use pipepp_core.Exec.{Exec, done, ◌>>=◌, map_exec, >>=_assoc, >>=-ext}
use pipepp_core.Message.{MessageView}
use pipepp_core.Uri.Basic.{moved}
use pipepp_core.Pipeline.{Pipeline, set_sink, move_into}
use pipepp_core.Pipeline.Emit.{emit, emit_all}
use pipepp_core.Pipeline.Emit.Flow.{Holds, fits}
use pipepp_core.SinkBuffer.Collect.{fitting}
use pipepp_core.ConnectTo.{with_topic, remapped, emit_into, pipe_connect, pipe_prefix, with_remap}
use pipepp_core.ConnectTo.Relay.{emit-sink}

-- What passes a connected pipeline `q`: of each message that fits, what `g` makes of it.
abbrev pub passed :
    {S S' W : Type 0}
    → (MessageView → MessageView)
    → List MessageView
    → Pipeline S (Pipeline S' W × W)
    → Pipeline S' W
    → W
    → Exec (Pipeline S (Pipeline S' W × W) × (Pipeline S' W × W))
passed g mvs q target w =
    map_exec (λ world. (q, world)) (emit_all target w (map g (fitting q.config mvs)))

module _ {S S' W : Type 0} (p : Pipeline S (Pipeline S' W × W))
    (plain : Holds p.stages p.stage_count []) where
  -- The pipeline with a sink that emits what `g` makes of a message.
  abbrev relays : (MessageView → MessageView) → Pipeline S (Pipeline S' W × W)
  relays g = move_into (set_sink p λ mv world. emit_into (g mv) world)

  relays-emit :
      (g : MessageView → MessageView) (mv : MessageView) (target : Pipeline S' W) (w : W)
      → emit (relays g) (target, w) mv ≡ (
          if fits p.config mv
          then (emit target w (g mv) >>= λ world. done (relays g, world))
          else done (relays g, (target, w)))
  unfolding set_sink moved
  relays-emit g mv target w =
      emit-sink (relays g) (target, w) mv (λ v world. emit_into (g v) world) refl plain refl
      ∙ ap (λ m. if fits p.config mv then m else done (relays g, (target, w)))
          (>>=_assoc (emit target w (g mv)) _ _)

  relays-emit_all :
      (g : MessageView → MessageView) (mvs : List MessageView) (target : Pipeline S' W) (w : W)
      → emit_all (relays g) (target, w) mvs
        ≡ map_exec (λ world. (relays g, world)) (emit_all target w (map g (fitting p.config mvs)))
  unfolding emit_all
  relays-emit_all g [] target w = refl
  relays-emit_all g (mv ∷ mvs) target w =
      ap (λ m. m >>= λ (q', w'). emit_all q' w' mvs) (relays-emit g mv target w)
      ∙ elim (Bool-cases (fits p.config mv)) [
        | inl e ↦ rw e (
            >>=_assoc (emit target w (g mv)) _ _
            ∙ (>>=-ext (emit target w (g mv)) _ _ (λ (t', w'). relays-emit_all g mvs t' w')
                ∙ sym (>>=_assoc (emit target w (g mv)) _ _)))
        | inr e ↦ rw e (relays-emit_all g mvs target w)
      ]

  -- A pipeline without stages that is connected is, for a sequence of messages, the target into which
  -- those that fit are emitted, in order: as they are by `connect_to`, under the prefixed topics with
  -- a prefix, and by `with_remap` under the topics that the function gives, or as they are where it
  -- gives none.
  pub connected-emit_all :
      (prefix : List ℕ) (remap : List ℕ → List ℕ) (mvs : List MessageView) (target : Pipeline S' W)
      (w : W)
      → let by_remap = with_remap p λ topic w. done (remap topic, w) in
        (emit_all (pipe_connect p) (target, w) mvs
          ≡ passed (λ mv. mv) mvs (pipe_connect p) target w)
        × (emit_all (pipe_prefix p prefix) (target, w) mvs
            ≡ passed (λ mv. with_topic (prefix ++ mv.topic) mv) mvs (pipe_prefix p prefix) target w)
        × (emit_all by_remap (target, w) mvs
            ≡ passed (λ mv. remapped (remap mv.topic) mv) mvs by_remap target w)
  unfolding pipe_connect pipe_prefix with_remap set_sink moved
  connected-emit_all prefix remap mvs target w = (
    relays-emit_all (λ mv. mv) mvs target w,
    relays-emit_all (λ mv. with_topic (prefix ++ mv.topic) mv) mvs target w,
    relays-emit_all (λ mv. remapped (remap mv.topic) mv) mvs target w,
  )
