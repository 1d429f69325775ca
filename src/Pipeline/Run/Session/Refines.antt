-- ===== src/Pipeline/Run/Session/Refines.antt =====
-- `run` of include/pipepp/core/pipeline.hpp beside the session that it comes to.
use pipepp_core.Prelude.{
  ◌≡◌, refl, sym, ap, ◌∙◌, Bool, true, false, ◌&&◌, List, [], ◌∷◌, length, take, if◌then◌else◌,
}
use pipepp_core.Exec.{Exec, done, ◌>>=◌, map_exec, >>=_assoc, >>=-ext, if-map, if_of_false}
use pipepp_core.ErrorCode.{is_error}
use pipepp_core.Expected.{Result, ok, has_value}
use pipepp_core.Message.{MessageView}
use pipepp_core.Source.{BusSource, Subscription}
use pipepp_core.Spinlock.{unlocked}
use pipepp_core.Stages.{ConfigFn, ProcessFn}
use pipepp_core.Pipeline.{Pipeline}
use pipepp_core.Pipeline.Emit.{Env, env_of, with_env}
use pipepp_core.Pipeline.Emit.Flow.{Holds}
use pipepp_core.Pipeline.Emit.Sequence.{deliver_all, emit_all-deliver_all}
use pipepp_core.Pipeline.Run.{
  poll_loop, event_loop, run_loop, run_subscribed, run_connected, run, disconnected,
}
use pipepp_core.Pipeline.Run.Session.{
  subscribe_all, configure_all, run_subscriptions_lem, run_configs_lem, rounds, listen,
  subscribed_session, connected_session, session,
}

module _ {S W : Type 0} where
  -- What a session leaves, in the pipeline that ran it.
  abbrev pub left_in : Pipeline S W → Result × S × W → Result × Pipeline S W × W
  left_in p (r, src, w) = (r, record p { source = src }, w)

  abbrev round_end : Pipeline S W → S × Env W → Pipeline S W × W
  round_end p (src, env) = (record p { source = src; running = env.running }, env.world)

module _ {S W : Type 0} (bus : BusSource S) (fs : List (ProcessFn W)) where
  poll_loop-rounds :
      (schedule : List Bool) (p : Pipeline S W) (w : W)
      → p.stage_lock ≡ unlocked
      → Holds p.stages p.stage_count fs
      → poll_loop bus schedule p w
        ≡ map_exec (round_end p) (rounds bus p.config fs p.sink schedule p.source (env_of p w))
  unfolding poll_loop
  poll_loop-rounds [] p w free holds = refl
  poll_loop-rounds (true ∷ schedule) p w free holds = refl
  poll_loop-rounds (false ∷ schedule) p w free holds =
      ap (λ m. if p.running && bus.is_connected p.source then m else done (p, w))
        (ap (λ m. m >>= λ (q, w'). poll_loop bus schedule q w')
            (emit_all-deliver_all fs mvs polled w free holds)
          ∙ (>>=_assoc delivered _ _
              ∙ (>>=-ext delivered _ _
                    (λ env. poll_loop-rounds schedule (with_env polled env).0 env.world free holds)
                  ∙ sym (>>=_assoc delivered _ _))))
      ∙ sym (if-map (map_exec (round_end p)) (p.running && bus.is_connected p.source) _ _)
    where
      mvs : List MessageView
      mvs = (bus.poll p.source).0

      polled : Pipeline S W
      polled = record p { source = (bus.poll p.source).1 }

      delivered : Exec (Env W)
      delivered = deliver_all p.config fs p.sink mvs (env_of p w)

module _ {S W : Type 0} (bus : BusSource S) (fs : List (ProcessFn W)) (gs : List (ConfigFn S W))
    (subs : List Subscription) (p : Pipeline S W) (idle : p.running ≡ false)
    (free : p.stage_lock ≡ unlocked) (holds : Holds p.stages p.stage_count fs) where
  run_loop-listen :
      (schedule : List Bool) (src : S) (w : W)
      → run_loop bus schedule (record p { source = src }) w
        ≡ map_exec (left_in p) (listen bus p.config fs p.sink schedule src w)
  unfolding run_loop event_loop
  run_loop-listen schedule src w =
      ap (λ m. m >>= λ (q, w'). done (ok, disconnected bus (record q { running = false }), w'))
        (poll_loop-rounds bus fs schedule
          (record p { source = bus.set_message_callback src; running = true }) w free holds)
      ∙ (>>=_assoc went_round _ _
          ∙ (>>=-ext went_round _ _ (λ (src', env). λ i. done (
            ok,
            record p { source = (bus.disconnect src').1; running = sym idle i },
            env.world,
          ))
              ∙ sym (>>=_assoc went_round _ _)))
    where
      went_round : Exec (S × Env W)
      went_round =
          rounds bus p.config fs p.sink schedule (bus.set_message_callback src)
            (record { world = w; running = true })

  module _ (taken : take p.sub_count p.subscriptions ≡ subs)
      (counted : length subs ≡ p.sub_count) where
    run_subscribed-session :
        (schedule : List Bool) (src : S) (w : W)
        → run_subscribed bus schedule (record p { source = src }) w
          ≡ map_exec (left_in p) (subscribed_session bus p.config fs p.sink subs schedule src w)
    unfolding run_subscribed
    run_subscribed-session schedule src w =
        let (r, src') = subscribe_all bus subs src in
        ap
          (λ (r, src').
            if has_value r
            then run_loop bus schedule (record p { source = src' }) w
            else done (r, disconnected bus (record p { source = src' }), w))
          (run_subscriptions_lem bus p.config subs p.sub_count 0 p.subscriptions taken counted src)
        ∙ (ap
              (λ m.
                if has_value r
                then m
                else done (r, disconnected bus (record p { source = src' }), w))
              (run_loop-listen schedule src' w)
            ∙ sym (if-map (map_exec (left_in p)) (has_value r) _ _))

    run_connected-session :
        Holds p.config_ops p.config_count gs
        → (schedule : List Bool) (src : S) (w : W)
        → run_connected bus schedule (record p { source = src }) w
          ≡ map_exec (left_in p) (connected_session bus p.config fs p.sink gs subs schedule src w)
    unfolding run_connected
    run_connected-session configs schedule src w =
        ap
          (λ m. m >>= λ (r, src', w').
            if has_value r
            then run_subscribed bus schedule (record p { source = src' }) w'
            else done (r, disconnected bus (record p { source = src' }), w'))
          (run_configs_lem bus gs p.config_count 0 p.config_ops configs.front configs.counted src w)
        ∙ (>>=-ext (configure_all bus gs src w) _ _ (λ (r, src', w').
              ap
                (λ m.
                  if has_value r
                  then m
                  else done (r, disconnected bus (record p { source = src' }), w'))
                (run_subscribed-session schedule src' w')
              ∙ sym (if-map (map_exec (left_in p)) (has_value r) _ _))
            ∙ sym (>>=_assoc (configure_all bus gs src w) _ _))

    -- `run` on a pipeline at rest without a pending error, whose counted slots hold the stages `fs`,
    -- the configuration functions `gs` and the subscriptions `subs`, is the session told by
    -- `session`.
    pub run-session :
        Holds p.config_ops p.config_count gs
        → is_error p.pending_error ≡ false
        → (schedule : List Bool) (w : W)
        → run bus schedule p w
          ≡ map_exec
              (left_in p)
              (session bus p.config fs p.sink gs subs p.owned_uri.view schedule p.source w)
    unfolding run
    run-session configs clean schedule w =
        let (r, src) = bus.connect p.source p.owned_uri.view in
        if_of_false _ _ clean
        ∙ (ap (λ m. if has_value r then m else done (r, record p { source = src }, w))
              (run_connected-session configs schedule src w)
            ∙ sym (if-map (map_exec (left_in p)) (has_value r) _ _))
