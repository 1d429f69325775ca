-- ===== src/Pipeline/Run/Ends.antt =====
-- When the loops of include/pipepp/core/pipeline.hpp come to an end.
use pipepp_core.Prelude.{
  ℕ, zero, suc, ◌≡◌, refl, ap, ◌∙◌, Bool, true, false, ◌&&◌, Option, none, some, List, [], ◌∷◌, map,
  length, take, drop, take-drop_cons, arith,
}
use pipepp_core.Exec.{done, Ends, ◌>>=◌, map_exec, >>=-Ends, if-Ends}
use pipepp_core.Expected.{ok, has_value}
use pipepp_core.ErrorCode.{is_error}
use pipepp_core.Config.{Config}
use pipepp_core.Message.{Message, MessageView}
use pipepp_core.Source.{BusSource}
use pipepp_core.Spinlock.{unlocked}
use pipepp_core.Stages.{ProcessFn, SinkFn, ConfigFn, callee}
use pipepp_core.Pipeline.{Pipeline, stop}
use pipepp_core.Pipeline.Emit.{Env, env_after, env_of, with_env, emit_all, run_sink}
use pipepp_core.Pipeline.Emit.Flow.{flow, deliver, fits, Holds, emit-deliver}
use pipepp_core.Pipeline.Run.{
  run_configs, poll_loop, event_loop, run_loop, run_subscriptions, run_subscribed, run_connected,
  run,
}

-- Closures that return, whatever they are called with.
module _ {W : Type 0} where
  abbrev pub StagesReturn : List (ProcessFn W) → Type 0
  StagesReturn [] = Unit {0}
  StagesReturn (f ∷ fs) = ((m : Message) (w : W) → Ends (f m w)) × StagesReturn fs

  abbrev pub SinkReturns : Option (SinkFn W) → Type 0
  SinkReturns none = Unit {0}
  SinkReturns (some f) = (mv : MessageView) (w : W) → Ends (f mv w)

  pub run_sink-Ends :
      (sink : Option (SinkFn W)) (msg : Message) (env : Env W)
      → SinkReturns sink
      → Ends (run_sink sink msg env)
  run_sink-Ends none msg env h = (env, refl)
  run_sink-Ends (some f) msg env h =
      >>=-Ends _ _ (h _ env.world) (λ r. (env_after env r.world r.stops, refl))

  flow-Ends :
      (fs : List (ProcessFn W)) (sink : Option (SinkFn W)) (msg : Message) (env : Env W)
      → StagesReturn fs
      → SinkReturns sink
      → Ends (flow fs sink msg env)
  flow-Ends [] sink msg env h k = run_sink-Ends sink msg env k
  flow-Ends (f ∷ fs) sink msg env h k = >>=-Ends _ _ (h.0 msg env.world) λ r.
      if-Ends r.keep _ _ (flow-Ends fs sink r.msg (env_after env r.world r.stops) h.1 k)
        (env_after env r.world r.stops, refl)

  deliver-Ends :
      (c : Config) (fs : List (ProcessFn W)) (sink : Option (SinkFn W)) (mv : MessageView)
      (env : Env W)
      → StagesReturn fs
      → SinkReturns sink
      → Ends (deliver c fs sink mv env)
  deliver-Ends c fs sink mv env h k =
      if-Ends (fits c mv) _ _ (flow-Ends fs sink _ env h k) (env, refl)

module _ {S W : Type 0} where
  abbrev pub ConfigsReturn : List (ConfigFn S W) → Type 0
  ConfigsReturn [] = Unit {0}
  ConfigsReturn (g ∷ gs) = ((src : S) (w : W) → Ends (g src w)) × ConfigsReturn gs

-- What the loops need of a pipeline: the lock is free, the stages `fs` stand in the first slots,
-- and they and the sink return.
pub record Ready {S W : Type 0} (p : Pipeline S W) (fs : List (ProcessFn W)) : Type 0 where
  pub free : p.stage_lock ≡ unlocked
  pub holds : Holds p.stages p.stage_count fs
  pub stages_return : StagesReturn fs
  pub sink_returns : SinkReturns p.sink

-- Some test of the loop's condition comes after a `stop()` of another thread.
abbrev pub Stops : List Bool → Type 0
Stops [] = ⊥
Stops (true ∷ schedule) = Unit {0}
Stops (false ∷ schedule) = Stops schedule

module _ {S W : Type 0} (fs : List (ProcessFn W)) where
  -- `emit_all` ends, and leaves a pipeline that differs in `running` alone.
  emit_all-Ends :
      (mvs : List MessageView) (p : Pipeline S W) (w : W)
      → Ready p fs
      → (env : Env W) × (emit_all p w mvs ≡ done (with_env p env))
  unfolding emit_all
  emit_all-Ends [] p w h = (env_of p w, refl)
  emit_all-Ends (mv ∷ mvs) p w h =
      let (env, e) =
        deliver-Ends p.config fs p.sink mv (env_of p w) h.stages_return h.sink_returns in
      let (last, k) = emit_all-Ends mvs (with_env p env).0 env.world (ready env) in
      (
        last,
        ap (λ m. m >>= λ (q, w'). emit_all q w' mvs)
              (emit-deliver p w mv fs h.free h.holds ∙ ap (map_exec (with_env p)) e)
            ∙ k,
      )
    where
      ready : (env : Env W) → Ready (with_env p env).0 fs
      ready env = record {
        free = h.free;
        holds = h.holds;
        stages_return = h.stages_return;
        sink_returns = h.sink_returns;
      }

module _ {S W : Type 0} (bus : BusSource S) (fs : List (ProcessFn W)) where
  open bus use {is_connected, poll}

  Ready-at :
      (p : Pipeline S W) (src : S) (b : Bool)
      → Ready p fs
      → Ready (record p { source = src; running = b }) fs
  Ready-at p src b h = record {
    free = h.free;
    holds = h.holds;
    stages_return = h.stages_return;
    sink_returns = h.sink_returns;
  }

  -- A round of the loop, if the rest of the loop ends.
  round-Ends :
      (schedule : List Bool) (p : Pipeline S W) (w : W)
      → Ready p fs
      → ((q : Pipeline S W) (w' : W) → Ready q fs → Ends (poll_loop bus schedule q w'))
      → Ends (
          emit_all (record p { source = (poll p.source).1 }) w (poll p.source).0 >>= λ (q, w').
          poll_loop bus schedule q w')
  round-Ends schedule p w h rest =
      let after = record p { source = (poll p.source).1 } in
      let (env, e) =
        emit_all-Ends fs (poll p.source).0 after w (Ready-at p (poll p.source).1 p.running h) in
      let (last, k) =
        rest (with_env after env).0 env.world (Ready-at p (poll p.source).1 env.running h) in
      (last, ap (λ m. m >>= λ (q, w'). poll_loop bus schedule q w') e ∙ k)

  poll_loop-Ends :
      (schedule : List Bool) (p : Pipeline S W) (w : W)
      → Stops schedule
      → Ready p fs
      → Ends (poll_loop bus schedule p w)
  unfolding poll_loop
  poll_loop-Ends [] p w s h = elim s [ ]
  poll_loop-Ends (true ∷ schedule) p w s h = ((stop p, w), refl)
  poll_loop-Ends (false ∷ schedule) p w s h =
      if-Ends (p.running && is_connected p.source) _ _
        (round-Ends schedule p w h (λ q w' k. poll_loop-Ends schedule q w' s k)) ((p, w), refl)

  run_configs-Ends :
      (gs : List (ConfigFn S W)) (n i : ℕ) (ops : List (Option (ConfigFn S W)))
      → take n (drop i ops) ≡ map some gs
      → length gs ≡ n
      → ConfigsReturn gs
      → (src : S) (w : W) → Ends (run_configs bus n i ops src w)
  unfolding run_configs callee
  run_configs-Ends [] zero i ops h k r src w = ((ok, src, w), refl)
  run_configs-Ends [] (suc n) i ops h k r src w = absurd (omega arith)
  run_configs-Ends (g ∷ gs) zero i ops h k r src w = absurd (omega arith)
  run_configs-Ends (g ∷ gs) (suc n) i ops h k r src w =
      let (here, later) = take-drop_cons ops n i (some g) (map some gs) h in
      rw here (
        >>=-Ends (g src w) _ (r.0 src w) λ (res, src', w').
          if-Ends (has_value res) _ _
            (run_configs-Ends gs n (suc i) ops later (omega arith) r.1 src' w')
            ((res, src', w'), refl))

  run_loop-Ends :
      (schedule : List Bool) (p : Pipeline S W) (w : W)
      → Stops schedule
      → Ready p fs
      → Ends (run_loop bus schedule p w)
  unfolding run_loop event_loop
  run_loop-Ends schedule p w s h =
      >>=-Ends _ _ (poll_loop-Ends schedule _ w s (Ready-at p _ true h)) (λ (q, w'). (_, refl))

  run_subscribed-Ends :
      (schedule : List Bool) (p : Pipeline S W) (w : W)
      → Stops schedule
      → Ready p fs
      → Ends (run_subscribed bus schedule p w)
  unfolding run_subscribed
  run_subscribed-Ends schedule p w s h =
      let (r, src) = run_subscriptions bus p.config p.sub_count 0 p.subscriptions p.source in
      if-Ends (has_value r) _ _ (run_loop-Ends schedule _ w s (Ready-at p src p.running h))
        (_, refl)

-- `run` comes to an end, whatever the source does, if the lock is free, the counted slots hold
-- closures that return, and `stop()` is called by another thread before some test of the loop.
pub run-Ends :
    {S W : Type 0} (bus : BusSource S) (fs : List (ProcessFn W)) (gs : List (ConfigFn S W))
    (p : Pipeline S W) (w : W) (schedule : List Bool)
    → Ready p fs
    → Holds p.config_ops p.config_count gs
    → ConfigsReturn gs
    → Stops schedule
    → Ends (run bus schedule p w)
unfolding run run_connected
run-Ends bus fs gs p w schedule ready configs returns s =
    let (r, src) = bus.connect p.source p.owned_uri.view in
    if-Ends (is_error p.pending_error) _ _ (_, refl)
      (if-Ends (has_value r) _ _
        (>>=-Ends _ _
          (run_configs-Ends bus fs gs p.config_count 0 p.config_ops configs.front configs.counted
            returns src w)
          λ (r', src', w').
            if-Ends (has_value r') _ _
              (run_subscribed-Ends bus fs schedule _ w' s (Ready-at bus fs p src' p.running ready))
              (_, refl))
        (_, refl))
