-- ===== src/Pipeline/Run/AtRest.antt =====
-- include/pipepp/core/pipeline.hpp: the lock between the calls of one thread, and what a move makes of
-- a pipeline then.
use pipepp_core.Prelude.{
  ◌≡◌, refl, ap, ◌∙◌, Bool, true, false, not, ◌&&◌, List, [], ◌∷◌, arith, if◌then◌else◌,
}
use pipepp_core.Exec.{
  done, fault, failed_assert, ◌>>=◌, Gives, done-Gives, >>=-Gives, if-Gives, if_of_false,
  >>=-Gives_of,
}
use pipepp_core.Expected.{Result}
use pipepp_core.Config.{Config}
use pipepp_core.Message.{MessageView}
use pipepp_core.Source.{BusSource}
use pipepp_core.Spinlock.{lock, move_lock, assign_lock}
use pipepp_core.Pipeline.{
  Pipeline, make, BuildStep, subscribes, configures, adds_stage, sets_sink, connects_uri,
  build_step, configure, add_stage, set_sink, subscribe, connect_uri, move_into, moved_from,
  assign_from, assigned_from, move_pipeline, assign_pipeline, stop,
}
use pipepp_core.Pipeline.Emit.{emit, emit_all}
use pipepp_core.Pipeline.Run.{run, poll_once, poll_loop}
use pipepp_core.Pipeline.Run.Keeps.{run-Ran}
use pipepp_core.Pipeline.Run.Calls.{
  Call, builds, emits, polls, runs, stops, changes, call, PairCall, pair_calls, Both, CallLaws,
  pair_calls-BothAfter,
}
use pipepp_core.Pipeline.Run.Idle.{laws-Idle}

module _ {S W : Type 0} where
  abbrev Free : Pipeline S W × W → Type 0
  Free end = end.0.stage_lock.locked ≡ false

  abbrev RanFree : Result × Pipeline S W × W → Type 0
  RanFree end = end.1.stage_lock.locked ≡ false

  abbrev PolledFree : Bool × Pipeline S W × W → Type 0
  PolledFree end = end.1.stage_lock.locked ≡ false

module _ {S W : Type 0} where
  build_step-free :
      (p : Pipeline S W) (b : BuildStep S W) → (build_step p b).stage_lock ≡ p.stage_lock
  unfolding build_step subscribe configure add_stage set_sink connect_uri
  build_step-free p (subscribes topic qos) = ground arith
  build_step-free p (configures f) = ground arith
  build_step-free p (adds_stage f) = ground arith
  build_step-free p (sets_sink f) = refl
  build_step-free p (connects_uri temp uri_str) = refl

  stopped_lock :
      (b : Bool) (p : Pipeline S W)
      → (if b then stop p else p).stage_lock.locked ≡ p.stage_lock.locked
  stopped_lock true p = refl
  stopped_lock false p = refl

  emit-Free : (p : Pipeline S W) (w : W) (mv : MessageView) → Gives Free (emit p w mv)
  unfolding emit
  emit-Free p w mv =
      >>=-Gives Free (lock p.stage_lock) _
        λ held. >>=-Gives Free _ _ λ (q, w'). done-Gives Free refl

  emit_all-Free :
      (mvs : List MessageView) (p : Pipeline S W) (w : W)
      → p.stage_lock.locked ≡ false
      → Gives Free (emit_all p w mvs)
  unfolding emit_all
  emit_all-Free [] p w e = done-Gives Free e
  emit_all-Free (mv ∷ mvs) p w e =
      >>=-Gives_of Free Free (emit p w mv) _ (emit-Free p w mv)
        λ (q, w') k. emit_all-Free mvs q w' k

module _ {S W : Type 0} (bus : BusSource S) where
  poll_loop-Free :
      (schedule : List Bool) (p : Pipeline S W) (w : W)
      → p.stage_lock.locked ≡ false
      → Gives Free (poll_loop bus schedule p w)
  unfolding poll_loop
  poll_loop-Free [] p w e = λ a h. cc
  poll_loop-Free (stopped ∷ schedule) p w e =
      if-Gives Free (q.running && bus.is_connected q.source) _ (done (q, w))
        (λ _.
          >>=-Gives_of Free Free _ _ (emit_all-Free (bus.poll q.source).0 polled w free)
            λ (q', w') k. poll_loop-Free schedule q' w' k)
        (λ _. done-Gives Free {a = (q, w)} free)
    where
      q : Pipeline S W
      q = if stopped then stop p else p

      free : q.stage_lock.locked ≡ false
      free = stopped_lock stopped p ∙ e

      polled : Pipeline S W
      polled = record q { source = (bus.poll q.source).1 }

  run-RanFree :
      (schedule : List Bool) (p : Pipeline S W) (w : W)
      → p.stage_lock.locked ≡ false
      → Gives RanFree (run bus schedule p w)
  run-RanFree =
      run-Ran bus (λ p. p.stage_lock.locked ≡ false)
        (record {
          source = λ p s e. e;
          loop = λ schedule p w e. poll_loop-Free schedule (record p { running = true }) w e;
        })

  poll_once-PolledFree :
      (p : Pipeline S W) (w : W)
      → p.stage_lock.locked ≡ false
      → Gives PolledFree (poll_once bus p w)
  unfolding poll_once
  poll_once-PolledFree p w e =
      if-Gives PolledFree (not (p.running && bus.is_connected p.source)) _ _
        (λ _. done-Gives PolledFree e)
        (λ _.
          >>=-Gives_of Free PolledFree _ _
            (emit_all-Free (bus.poll p.source).0 (record p { source = (bus.poll p.source).1 }) w e)
            λ (q, w') k. done-Gives PolledFree k)

  call-Free :
      (p : Pipeline S W) (w : W) (c : Call S W)
      → p.stage_lock.locked ≡ false
      → Gives Free (call bus p w c)
  call-Free p w (builds b) e = done-Gives Free (ap (λ l. l.locked) (build_step-free p b) ∙ e)
  call-Free p w (emits mv) e = emit-Free p w mv
  call-Free p w polls e =
      >>=-Gives_of PolledFree Free _ _ (poll_once-PolledFree p w e)
        λ (polled, q, w') k. done-Gives Free k
  call-Free p w (runs schedule) e =
      >>=-Gives_of RanFree Free _ _ (run-RanFree schedule p w e) λ (r, q, w') k. done-Gives Free k
  call-Free p w stops e = done-Gives Free e
  call-Free p w (changes src) e = done-Gives Free e

module _ {S W : Type 0} where
  move_pipeline_lem :
      (p : Pipeline S W)
      → p.stage_lock.locked ≡ false
      → move_pipeline p ≡ done (move_into p, moved_from p)
  unfolding move_pipeline move_lock
  move_pipeline_lem p e = rw e refl

  assign_pipeline_lem :
      (p other : Pipeline S W)
      → p.stage_lock.locked ≡ false
      → other.stage_lock.locked ≡ false
      → assign_pipeline p other ≡ done (assign_from other, assigned_from other)
  unfolding assign_pipeline assign_lock
  assign_pipeline_lem p other e e' =
      ap (λ m. m >>= λ l. done (record (assign_from other) { stage_lock = l }, assigned_from other))
        (if_of_false (fault failed_assert) (done p.stage_lock) e'
          ∙ (λ i. done (record { locked = e i })))

module _ {S W : Type 0} (bus : BusSource S) where
  laws-Free : CallLaws bus (λ (p : Pipeline S W). p.stage_lock.locked ≡ false)
  laws-Free = record {
    call_keeps = call-Free bus;
    move_keeps = λ p h.
        rw (move_pipeline_lem p h)
          (done-Gives (Both bus λ r. r.stage_lock.locked ≡ false) (refl, h));
    assign_keeps = λ p q h k.
        rw (assign_pipeline_lem p q h k)
          (done-Gives (Both bus λ r. r.stage_lock.locked ≡ false) (refl, k));
  }

-- A move of `p` passes its assertion, and so does its assignment to `q`.
abbrev pub Movable : {S W : Type 0} → Pipeline S W → Pipeline S W → Type 0
Movable p q =
    (move_pipeline p ≡ done (move_into p, moved_from p))
    × (assign_pipeline q p ≡ done (assign_from p, assigned_from p))

-- After any calls of two new pipelines that one thread makes and that return, whole runs, stops,
-- changes of the sources, and moves and assignments between the two among them, neither runs, both
-- locks are free, and a move of either and an assignment of either to the other pass their
-- assertions.
pub calls-at_rest :
    {S W : Type 0} (bus : BusSource S) (c : Config) (src src' : S) (w : W)
    (cs : List (PairCall S W)) (p q : Pipeline S W) (w' : W)
    → pair_calls bus (make c src) (make c src') w cs ≡ done (p, q, w')
    → (p.running ≡ false)
      × (q.running ≡ false)
      × (p.stage_lock.locked ≡ false)
      × (q.stage_lock.locked ≡ false)
      × Movable p q
      × Movable q p
calls-at_rest bus c src src' w cs p q w' h =
    let (idle, idle') =
      pair_calls-BothAfter bus (λ r. r.running ≡ false) (laws-Idle bus) cs (make c src)
        (make c src') w refl refl (p, q, w') h in
    let (free, free') =
      pair_calls-BothAfter bus (λ r. r.stage_lock.locked ≡ false) (laws-Free bus) cs (make c src)
        (make c src') w refl refl (p, q, w') h in
    (
      idle,
      idle',
      free,
      free',
      (move_pipeline_lem p free, assign_pipeline_lem q p free' free),
      (move_pipeline_lem q free', assign_pipeline_lem p q free free'),
    )
