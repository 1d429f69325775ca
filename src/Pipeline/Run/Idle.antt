-- ===== src/Pipeline/Run/Idle.antt =====
-- include/pipepp/core/pipeline.hpp: `running_` outside of a run.
use pipepp_core.Prelude.{
  ℕ, zero, suc, ◌≡◌, refl, ◌∙◌, Bool, false, not, ◌&&◌, Option, none, some, List, arith, get_elem?,
}
use pipepp_core.Exec.{done, Gives, done-Gives, >>=-Gives, if-Gives, if_of_true, >>=-Gives_of}
use pipepp_core.Expected.{Result, has_value}
use pipepp_core.Config.{Config}
use pipepp_core.Message.{Message, MessageView, default_message, from_view}
use pipepp_core.Source.{BusSource}
use pipepp_core.Spinlock.{lock, move_lock, assign_lock}
use pipepp_core.Stages.{ProcessFn, SinkFn, callee}
use pipepp_core.Pipeline.{
  Pipeline, make, BuildStep, subscribes, configures, adds_stage, sets_sink, connects_uri,
  build_step, configure, add_stage, set_sink, subscribe, connect_uri, move_pipeline,
  assign_pipeline,
}
use pipepp_core.Pipeline.Emit.{Env, env_after, env_of, run_stages, finish, process_message, emit}
use pipepp_core.Pipeline.Run.Keeps.{run-Ran}
use pipepp_core.Pipeline.Run.Calls.{
  Call, builds, emits, polls, runs, stops, changes, call, PairCall, pair_calls, Both, CallLaws,
  pair_calls-BothAfter,
}
use pipepp_core.Pipeline.Run.{run, poll_once}

module _ {W : Type 0} where
  abbrev EnvIdle : Option Message × Env W → Type 0
  EnvIdle end = end.1.running ≡ false

  abbrev SinkIdle : Env W → Type 0
  SinkIdle env = env.running ≡ false

  run_stages-EnvIdle :
      (n i : ℕ) (stages : List (Option (ProcessFn W))) (msg : Message) (env : Env W)
      → env.running ≡ false
      → Gives EnvIdle (run_stages n i stages msg env)
  unfolding run_stages
  run_stages-EnvIdle zero i stages msg env e = done-Gives EnvIdle e
  run_stages-EnvIdle (suc n) i stages msg env e =
      >>=-Gives EnvIdle (callee (get_elem? stages i)) _ λ f.
        >>=-Gives EnvIdle (f msg env.world) _ λ r.
          let e' : (env_after env r.world r.stops).running ≡ false = rw e refl in
          if-Gives EnvIdle r.keep _ _
            (λ _. run_stages-EnvIdle n (suc i) stages r.msg (env_after env r.world r.stops) e')
            (λ _. done-Gives EnvIdle e')

  finish-SinkIdle :
      (sink : Option (SinkFn W)) (end : Option Message × Env W)
      → end.1.running ≡ false
      → Gives SinkIdle (finish sink end)
  finish-SinkIdle sink (none, env) e = done-Gives SinkIdle e
  finish-SinkIdle none (some msg, env) e = done-Gives SinkIdle e
  finish-SinkIdle (some f) (some msg, env) e =
      >>=-Gives SinkIdle _ _ λ r. done-Gives SinkIdle (rw e refl)

module _ {S W : Type 0} where
  abbrev Idle : Pipeline S W × W → Type 0
  Idle end = end.0.running ≡ false

  abbrev RanIdle : Result × Pipeline S W × W → Type 0
  RanIdle end = end.1.running ≡ false

module _ {S W : Type 0} where
  process_message-Idle :
      (p : Pipeline S W) (w : W) (mv : MessageView)
      → p.running ≡ false
      → Gives Idle (process_message p w mv)
  unfolding process_message
  process_message-Idle p w mv e =
      let (r, msg) = from_view p.config (default_message p.config) mv in
      if-Gives Idle (has_value r) _ _
        (λ _.
          >>=-Gives_of EnvIdle Idle _ _
            (run_stages-EnvIdle p.stage_count 0 p.stages msg (env_of p w) e)
            λ end k.
              >>=-Gives_of SinkIdle Idle _ _ (finish-SinkIdle p.sink end k)
                λ env k'. done-Gives Idle k')
        (λ _. done-Gives Idle e)

  emit-Idle :
      (p : Pipeline S W) (w : W) (mv : MessageView) → p.running ≡ false → Gives Idle (emit p w mv)
  unfolding emit
  emit-Idle p w mv e = >>=-Gives Idle (lock p.stage_lock) _ λ held.
      >>=-Gives_of Idle Idle _ _ (process_message-Idle (record p { stage_lock = held }) w mv e)
        λ (q, w') k. done-Gives Idle k

  pub build_step-running :
      (p : Pipeline S W) (b : BuildStep S W) → (build_step p b).running ≡ p.running
  unfolding build_step subscribe configure add_stage set_sink connect_uri
  build_step-running p (subscribes topic qos) = ground arith
  build_step-running p (configures f) = ground arith
  build_step-running p (adds_stage f) = ground arith
  build_step-running p (sets_sink f) = refl
  build_step-running p (connects_uri temp uri_str) = refl

module _ {S W : Type 0} (bus : BusSource S) where
  run-RanIdle :
      (schedule : List Bool) (p : Pipeline S W) (w : W)
      → p.running ≡ false
      → Gives RanIdle (run bus schedule p w)
  run-RanIdle =
      run-Ran bus (λ p. p.running ≡ false)
        (record { source = λ p s e. e; loop = λ schedule p w e end h. refl })

  poll_once-idle :
      (p : Pipeline S W) (w : W) → p.running ≡ false → poll_once bus p w ≡ done (false, p, w)
  unfolding poll_once
  poll_once-idle p w e =
      if_of_true {b = not (p.running && bus.is_connected p.source)} _ _ (rw e refl)

  call-Idle :
      (p : Pipeline S W) (w : W) (c : Call S W) → p.running ≡ false → Gives Idle (call bus p w c)
  call-Idle p w (builds b) e = done-Gives Idle (build_step-running p b ∙ e)
  call-Idle p w (emits mv) e = emit-Idle p w mv e
  call-Idle p w polls e = rw (poll_once-idle p w e) (done-Gives Idle e)
  call-Idle p w (runs schedule) e =
      >>=-Gives_of RanIdle Idle _ _ (run-RanIdle schedule p w e) λ (r, q, w') k. done-Gives Idle k
  call-Idle p w stops e = done-Gives Idle refl
  call-Idle p w (changes src) e = done-Gives Idle e

  -- `running_` stays false under any call.
  pub laws-Idle : CallLaws bus (λ (p : Pipeline S W). p.running ≡ false)
  unfolding move_pipeline assign_pipeline
  laws-Idle = record {
    call_keeps = call-Idle;
    move_keeps = λ p h.
        >>=-Gives (Both bus λ q. q.running ≡ false) (move_lock p.stage_lock) _
          λ l. done-Gives (Both bus λ q. q.running ≡ false) (refl, refl);
    assign_keeps = λ p q h k.
        >>=-Gives (Both bus λ r. r.running ≡ false) (assign_lock p.stage_lock q.stage_lock) _
          λ l. done-Gives (Both bus λ r. r.running ≡ false) (refl, k);
  }

  -- After any calls of two new pipelines that one thread makes and that return, whole runs, stops,
  -- changes of the sources, and moves and assignments between the two among them, `poll_once` of
  -- either answers no and polls nothing.
  pub poll_once-calls :
      (c : Config) (src src' : S) (w : W) (cs : List (PairCall S W)) (p q : Pipeline S W) (w' : W)
      → pair_calls bus (make c src) (make c src') w cs ≡ done (p, q, w')
      → (poll_once bus p w' ≡ done (false, p, w')) × (poll_once bus q w' ≡ done (false, q, w'))
  poll_once-calls c src src' w cs p q w' h =
      let (idle, idle') =
        pair_calls-BothAfter bus (λ r. r.running ≡ false) laws-Idle cs (make c src) (make c src') w
          refl refl (p, q, w') h in
      (poll_once-idle p w' idle, poll_once-idle q w' idle')
