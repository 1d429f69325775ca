-- ===== src/Adapt/Replay.antt =====
-- A run of include/pipepp/core/pipeline.hpp over a source of include/pipepp/core/adapt.hpp.
use pipepp_core.Prelude.{
  ◌≡◌, refl, ap, ◌∙◌, inl, inr, Bool, true, false, List, [], ◌∷◌, take, length, ◌≤◌, arith,
  length-take, Bool-cases, if◌then◌else◌,
}
use pipepp_core.ErrorCode.{is_error}
use pipepp_core.Exec.{Exec, done, ◌>>=◌, >>=_assoc, >>=-ext, if_of_false}
use pipepp_core.Expected.{Result, ok, has_value}
use pipepp_core.Source.{Subscription}
use pipepp_core.Spinlock.{unlocked}
use pipepp_core.Stages.{ProcessFn}
use pipepp_core.Pipeline.{Pipeline}
use pipepp_core.Pipeline.Emit.{emit_all, env_of, with_env}
use pipepp_core.Pipeline.Emit.Flow.{Holds}
use pipepp_core.Pipeline.Emit.Sequence.{deliver_all, emit_all-deliver_all}
use pipepp_core.Pipeline.Run.{
  run, run_connected, run_subscribed, disconnected, run_loop, event_loop, poll_loop,
}
use pipepp_core.Pipeline.Run.Session.{subscribe_all, run_configs_lem, run_subscriptions_lem}
use pipepp_core.Adapt.{connect, RangeSource, range_bus}

-- How the source is left after a run.
abbrev pub replayed : RangeSource → RangeSource
replayed s = record s { current = []; connected = false; installed = true }

subscribe_all-range :
    (subs : List Subscription) (s : RangeSource) → subscribe_all range_bus subs s ≡ (ok, s)
subscribe_all-range [] s = refl
subscribe_all-range (sub ∷ subs) s = subscribe_all-range subs s

module _ {W : Type 0} where
  -- What `run` does behind the loop.
  abbrev wind_up : Pipeline RangeSource W × W → Exec (Result × Pipeline RangeSource W × W)
  wind_up (q, v) = done (ok, disconnected range_bus (record q { running = false }), v)

  -- The loop ends at a test of a disconnected source.
  second_test :
      (b : Bool) (schedule : List Bool) (q : Pipeline RangeSource W) (v : W)
      → q.source.connected ≡ false
      → (poll_loop range_bus (b ∷ schedule) q v >>= wind_up) ≡ wind_up (q, v)
  unfolding poll_loop
  second_test true schedule q v h = refl
  second_test false schedule q v h = elim (Bool-cases q.running) [
    | inl e ↦ rw (e, h) refl
    | inr e ↦ rw e refl
  ]

  run_loop-range :
      (fs : List (ProcessFn W)) (p : Pipeline RangeSource W) (w : W) (b : Bool)
      (schedule : List Bool)
      → p.source.connected ≡ true
      → p.stage_lock ≡ unlocked
      → Holds p.stages p.stage_count fs
      → run_loop range_bus (false ∷ b ∷ schedule) p w ≡ (
          deliver_all p.config fs p.sink p.source.current (record { world = w; running = true })
          >>= λ env. done (ok, record p { source = replayed p.source; running = false }, env.world))
  unfolding run_loop event_loop poll_loop
  run_loop-range fs p w b schedule h free holds = rw h (
      >>=_assoc (emit_all _ w p.source.current) _ wind_up
      ∙ (ap (λ m. m >>= λ (q, v). poll_loop range_bus (b ∷ schedule) q v >>= wind_up)
            (emit_all-deliver_all fs p.source.current polled w free holds)
          ∙ (>>=_assoc (deliver_all p.config fs p.sink p.source.current (env_of polled w)) _ _
              ∙ >>=-ext (deliver_all p.config fs p.sink p.source.current (env_of polled w)) _ _
                  (λ env. second_test b schedule (with_env polled env).0 env.world refl))))
    where
      polled : Pipeline RangeSource W
      polled = record p { source = replayed p.source; running = true }

-- `run` of a pipeline without configuration functions and without a pending error, over a range:
-- every message of the range is delivered, once and in order, then the loop ends by itself, the
-- source is disconnected and `run` reports success, whatever `stop()` calls come from the second
-- test of the loop on.
pub run-range :
    {W : Type 0} (fs : List (ProcessFn W)) (p : Pipeline RangeSource W) (w : W) (b : Bool)
    (schedule : List Bool)
    → is_error p.pending_error ≡ false
    → p.stage_lock ≡ unlocked
    → Holds p.stages p.stage_count fs
    → Holds p.config_ops p.config_count []
    → p.sub_count ≤ length p.subscriptions
    → run range_bus (false ∷ b ∷ schedule) p w ≡ (
        deliver_all p.config fs p.sink p.source.begin (record { world = w; running = true })
        >>= λ env. done (ok, record p { source = replayed p.source; running = false }, env.world))
unfolding run run_connected run_subscribed
run-range fs p w b schedule clean free holds configs room =
    let subs = take p.sub_count p.subscriptions in
    let q = record p { source = (connect p.source p.owned_uri.view).1 } in
    let counted : length subs ≡ p.sub_count =
      omega (arith, length-take p.sub_count p.subscriptions) in
    if_of_false _ _ clean
    ∙ (ap
          (λ m. m >>= λ (r, src, w').
            if has_value r
            then run_subscribed range_bus (false ∷ b ∷ schedule) (record p { source = src }) w'
            else done (r, disconnected range_bus (record p { source = src }), w'))
          (run_configs_lem range_bus [] p.config_count 0 p.config_ops configs.front configs.counted
            q.source w)
        ∙ (ap
              (λ (r, src).
                if has_value r
                then run_loop range_bus (false ∷ b ∷ schedule) (record p { source = src }) w
                else done (r, disconnected range_bus (record p { source = src }), w))
              (run_subscriptions_lem range_bus p.config subs p.sub_count 0 p.subscriptions refl
                  counted q.source
                ∙ subscribe_all-range subs q.source)
            ∙ run_loop-range fs q w b schedule refl free holds))
