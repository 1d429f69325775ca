-- ===== src/ConnectTo/Relay.antt =====
-- What a connected pipeline of include/pipepp/core/connect_to.hpp passes on.
use pipepp_core.Prelude.{
  ℕ, ◌≡◌, ◌<◌, refl, sym, ap, ◌∙◌, inl, inr, Bool, true, false, some, List, [], ◌++◌, length,
  if◌then◌else◌, Bool-cases, arith,
}
use pipepp_core.Exec.{Exec, done, ◌>>=◌, map_exec, >>=_assoc}
use pipepp_core.Expected.{has_value}
use pipepp_core.Message.{MessageView, default_message, from_view, as_view}
use pipepp_core.Message.RoundTrip.{as_view-from_view, default_message-IsValid}
use pipepp_core.Spinlock.{unlocked, lock}
use pipepp_core.Stages.{SinkFn}
use pipepp_core.Pipeline.{Pipeline, set_sink}
use pipepp_core.Pipeline.Emit.{emit, process_message, env_of, env_after, with_env}
use pipepp_core.Pipeline.Emit.Flow.{Holds, fits, deliver, emit-deliver, has_value-from_view}
use pipepp_core.Uri.Basic.{moved}
use pipepp_core.ConnectTo.{emit_into, with_topic, pipe_prefix}

-- A pipeline without stages hands its sink the message as it came.
pub emit-sink :
    {S W : Type 0} (p : Pipeline S W) (w : W) (mv : MessageView) (k : SinkFn W)
    → p.stage_lock ≡ unlocked
    → Holds p.stages p.stage_count []
    → p.sink ≡ some k
    → emit p w mv ≡ (
        if fits p.config mv
        then (k mv w >>= λ r. done (with_env p (env_after (env_of p w) r.world r.stops)))
        else done (p, w))
emit-sink p w mv k free holds sink =
    let env = env_of p w in
    let stored = from_view p.config (default_message p.config) mv in
    let told =
      emit-deliver p w mv [] free holds
      ∙ ap (λ s. map_exec (with_env p) (deliver p.config [] s mv env)) sink in
    elim (Bool-cases (fits p.config mv)) [
      | inl e ↦
          elim (as_view-from_view p.config (default_message p.config) mv
            (default_message-IsValid p.config)) [
              | inl (_, _, same, _) ↦
                  told
                  ∙ rw e (
                      >>=_assoc (k (as_view stored.1) w) _ _
                      ∙ ap (λ v. k v w >>= λ r. done (with_env p (env_after env r.world r.stops)))
                          same)
              | inr (_, refused) ↦
                  let bad : has_value stored.0 ≡ false = ap (λ r. has_value r.0) refused in
                  let good = has_value-from_view p.config (default_message p.config) mv in cc
            ]
      | inr e ↦ told ∙ rw e refl
    ]

-- `emit` drops a message whose topic is too long, and tells nobody.
too_long :
    {S W : Type 0} (p : Pipeline S W) (w : W) (mv : MessageView)
    → p.stage_lock ≡ unlocked
    → p.config.max_topic_len < length mv.topic
    → emit p w mv ≡ done (p, w)
unfolding emit process_message lock
too_long {S} {W} p w mv free long =
    rw (ap lock free)
      (ap (λ m. m >>= release) dropped ∙ (λ i. done (record p { stage_lock = sym free i }, w)))
  where
    held : Pipeline S W
    held = record p { stage_lock = record { locked = true } }

    release : Pipeline S W × W → Exec (Pipeline S W × W)
    release (q, w') = done (record q { stage_lock = unlocked }, w')

    dropped : process_message held w mv ≡ done (held, w)
    dropped =
        let unfit : fits p.config mv ≡ false = ground arith in
        rw (has_value-from_view p.config (default_message p.config) mv, unfit) refl

if-same : {A : Type 0} (b : Bool) (x : A) → (if b then x else x) ≡ x
if-same true x = refl
if-same false x = refl

module _ {S S' W : Type 0} (p : Pipeline S (Pipeline S' W × W)) (prefix : List ℕ)
    (target : Pipeline S' W) (w : W) (mv : MessageView) where
  -- A pipeline without stages that is connected with a prefix hands each message that fits to the
  -- target, under the prefixed topic, and drops any other.
  pub pipe_prefix-emit :
      Holds p.stages p.stage_count []
      → let q = pipe_prefix p prefix in
        emit q (target, w) mv ≡ (
          if fits p.config mv
          then (emit target w (with_topic (prefix ++ mv.topic) mv) >>= λ world. done (q, world))
          else done (q, (target, w)))
  unfolding pipe_prefix set_sink moved
  pipe_prefix-emit holds =
      let q = pipe_prefix p prefix in
      emit-sink q (target, w) mv (λ v world. emit_into (with_topic (prefix ++ v.topic) v) world)
        refl holds refl
      ∙ ap (λ m. if fits p.config mv then m else done (q, (target, w)))
          (>>=_assoc (emit target w (with_topic (prefix ++ mv.topic) mv)) _ _)

  -- If the prefix makes the topic too long for a target whose lock is free, then the message is
  -- lost, and both pipelines stay as they were.
  pub pipe_prefix-too_long :
      Holds p.stages p.stage_count []
      → target.stage_lock ≡ unlocked
      → target.config.max_topic_len < length (prefix ++ mv.topic)
      → let q = pipe_prefix p prefix in emit q (target, w) mv ≡ done (q, (target, w))
  pipe_prefix-too_long holds free long =
      let q = pipe_prefix p prefix in
      pipe_prefix-emit holds
      ∙ (ap
            (λ m.
              if fits p.config mv then (m >>= λ world. done (q, world)) else done (q, (target, w)))
            (too_long target w (with_topic (prefix ++ mv.topic) mv) free long)
          ∙ if-same (fits p.config mv) (done (q, (target, w))))
