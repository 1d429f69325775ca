-- ===== src/Pipeline/Closures/Refine.antt =====
-- A pipeline of include/pipepp/core/pipeline.hpp whose closures are objects, and one whose slots are
-- empty or hold a closure.
use pipepp_core.Prelude.{
  ℕ, zero, suc, ◌≡◌, refl, sym, ap, ◌∙◌, Option, none, some, List, [], ◌∷◌, if◌then◌else◌, arith,
  get_elem?, map, length, replicate, take, ◌++◌,
}
use pipepp_core.Exec.{done, ◌>>=◌, >>=-ext, >>=_assoc}
use pipepp_core.Expected.{has_value}
use pipepp_core.Config.{Config}
use pipepp_core.Message.{Message, MessageView, default_message, from_view}
use pipepp_core.Source.{BusSource}
use pipepp_core.Stages.{ProcessFn, SinkFn, ConfigFn, callee}
use pipepp_core.SmallFunction.{no_function, element, invoke}
use pipepp_core.SmallFunction.Lifetime.{
  object, move_construct_lem, move_assign_lem, reset_lem, invoke_lem,
}
use pipepp_core.Pipeline.{
  Pipeline, make, move_into, moved_from, assign_from, assigned_from, BuildStep, subscribes,
  configures, adds_stage, sets_sink, connects_uri, build_step, build, configure, add_stage,
  set_sink, subscribe, connect_uri,
}
use pipepp_core.Pipeline.Emit.{
  Env, env_after, run_stages, finish, process_message, env_of, with_env,
}
use pipepp_core.Pipeline.Run.{run_configs}
use pipepp_core.Pipeline.Build.{
  Contents, fresh-Contents, build_step-Contents, stages_of, configs_of,
}
use pipepp_core.Pipeline.Closures.Arrays.{
  assign_new_lem, push_new_lem, move_array_lem, assign_array_lem, reset_array_lem, call_element,
}
use pipepp_core.Pipeline.Closures.{
  Closures, call_process, call_sink, apply, build_closures, chain_closures, move_closures,
  assign_closures, destroy_closures, call_stages, call_finish, process_closures, apply_configs,
  objects_of,
}

module _ {W : Type 0} where
  call_stages_lem :
      (n i : ℕ) (stages : List (Option (ProcessFn W))) (msg : Message) (env : Env W)
      → call_stages n i (map object stages) msg env ≡ run_stages n i stages msg env
  unfolding call_stages run_stages call_process
  call_stages_lem zero i stages msg env = refl
  call_stages_lem (suc n) i stages msg env =
      >>=-ext (element (get_elem? (map object stages) i)) _ _ (λ fn. >>=_assoc (invoke fn) _ _)
      ∙ (call_element stages i _
          ∙ >>=-ext (callee (get_elem? stages i)) _ _ (λ f. >>=-ext (f msg env.world) _ _ (λ r.
            let env' = env_after env r.world r.stops in
            ap (λ m. if r.keep then m else done (none, env'))
              (call_stages_lem n (suc i) stages r.msg env'))))

  call_finish_lem :
      (sink : Option (SinkFn W)) (end : Option Message × Env W)
      → call_finish (object sink) end ≡ finish sink end
  unfolding call_sink callee
  call_finish_lem sink (none, env) = refl
  call_finish_lem none (some msg, env) = refl
  call_finish_lem (some f) (some msg, env) = rw (invoke_lem (some f)) refl

module _ {S W : Type 0} where
  build_closures_lem :
      (p : Pipeline S W) (fs : List (ProcessFn W)) (gs : List (ConfigFn S W)) (b : BuildStep S W)
      → Contents p fs gs
      → build_closures p (objects_of p) b ≡ done (objects_of (build_step p b))
  unfolding build_closures build_step configure add_stage set_sink subscribe connect_uri
  build_closures_lem p fs gs (configures f) v =
      rw (push_new_lem p.config_count p.config.max_config_ops p.config_ops f v.config_slots.room)
        (ground arith)
  build_closures_lem p fs gs (adds_stage f) v =
      rw (push_new_lem p.stage_count p.config.max_stages p.stages f v.stage_slots.room)
        (ground arith)
  build_closures_lem p fs gs (sets_sink f) v = rw (assign_new_lem p.sink f) refl
  build_closures_lem p fs gs (subscribes topic qos) v = ground arith
  build_closures_lem p fs gs (connects_uri temp uri_str) v = refl

  chain_closures_lem :
      (bs : List (BuildStep S W)) (p : Pipeline S W) (fs : List (ProcessFn W))
      (gs : List (ConfigFn S W))
      → Contents p fs gs
      → chain_closures p (objects_of p) bs ≡ done (objects_of (build p bs))
  unfolding chain_closures build
  chain_closures_lem [] p fs gs v = refl
  chain_closures_lem (b ∷ bs) p fs gs v =
      ap (λ m. m >>= λ o'. chain_closures (build_step p b) o' bs) (build_closures_lem p fs gs b v)
      ∙ chain_closures_lem bs (build_step p b) (take p.config.max_stages (fs ++ stages_of (b ∷ [])))
          (take p.config.max_config_ops (gs ++ configs_of (b ∷ [])))
          (build_step-Contents p fs gs v b)

  -- On the closures of a new pipeline, which are objects with storage, any chain of builder calls
  -- ends without a fault and with the objects of the pipeline that the chain builds: no closure is
  -- used or destroyed when it is not alive, none is built over another, and no index is out of
  -- range.
  pub chain_closures-build :
      (c : Config) (src : S) (bs : List (BuildStep S W))
      → chain_closures (make c src) (objects_of (make c src)) bs
        ≡ done (objects_of (build (make c src) bs))
  chain_closures-build c src bs =
      chain_closures_lem bs (make c src) [] [] (fresh-Contents c src _ _)

  apply_configs_lem :
      (bus : BusSource S) (n i : ℕ) (ops : List (Option (ConfigFn S W))) (src : S) (w : W)
      → apply_configs n i (map object ops) src w ≡ run_configs bus n i ops src w
  unfolding apply_configs run_configs apply
  apply_configs_lem bus zero i ops src w = refl
  apply_configs_lem bus (suc n) i ops src w =
      >>=-ext (element (get_elem? (map object ops) i)) _ _ (λ fn. >>=_assoc (invoke fn) _ _)
      ∙ (call_element ops i _
          ∙ >>=-ext (callee (get_elem? ops i)) _ _ (λ f. >>=-ext (f src w) _ _ (λ (r, src', w').
            ap (λ m. if has_value r then m else done (r, src', w'))
              (apply_configs_lem bus n (suc i) ops src' w'))))

  -- With its closures as objects, a pipeline processes a message and applies its configuration
  -- functions as with slots: the calls are the same, in the same order, and a call of an empty
  -- closure or an index out of range is the same fault.
  pub process_closures-apply_configs :
      (bus : BusSource S) (p : Pipeline S W) (w : W) (mv : MessageView)
      → (process_closures (objects_of p) p w mv ≡ process_message p w mv)
        × (apply_configs p.config_count 0 (objects_of p).config_ops p.source w
            ≡ run_configs bus p.config_count 0 p.config_ops p.source w)
  unfolding process_closures process_message
  process_closures-apply_configs bus p w mv = (
    ap
        (λ m.
          if has_value (from_view p.config (default_message p.config) mv).0 then m else done (p, w))
        (ap (λ m. m >>= λ end. call_finish (object p.sink) end >>= λ env. done (with_env p env))
            (call_stages_lem p.stage_count 0 p.stages _ (env_of p w))
          ∙ >>=-ext (run_stages p.stage_count 0 p.stages _ (env_of p w)) _ _
              (λ end. ap (λ m. m >>= λ env. done (with_env p env)) (call_finish_lem p.sink end))),
    apply_configs_lem bus p.config_count 0 p.config_ops p.source w,
  )

-- The arrays of closures have their compiled sizes.
abbrev pub HasRooms : {S W : Type 0} → Config → Pipeline S W → Type 0
HasRooms c p = (length p.config_ops ≡ c.max_config_ops) × (length p.stages ≡ c.max_stages)

-- Slots without closures.
abbrev pub no_closures : {S W : Type 0} → Config → Closures S W
no_closures c = record {
  config_ops = map object (replicate c.max_config_ops none);
  stages = map object (replicate c.max_stages none);
  sink = no_function;
}

module _ {S W : Type 0} where
  -- Construction and assignment by move of a pipeline with arrays of the compiled sizes move every
  -- closure object and leave empty ones, those that the assignment replaces are destroyed, and so
  -- are all by the destructor: each closure is destroyed once, and none is used after.
  pub move_closures-objects_of :
      (p q : Pipeline S W)
      → HasRooms p.config p
      → HasRooms p.config q
      → (move_closures (objects_of p) ≡ done (objects_of (move_into p), objects_of (moved_from p)))
        × (assign_closures (objects_of q) (objects_of p)
            ≡ done (objects_of (assign_from p), objects_of (assigned_from p)))
        × (destroy_closures (objects_of p) ≡ done (no_closures p.config))
  unfolding move_closures assign_closures destroy_closures
  move_closures-objects_of p q (m, n) (m', n') = (
    rw (move_array_lem p.config_ops, move_array_lem p.stages, move_construct_lem p.sink, m, n) refl,
    rw
        (
          assign_array_lem q.config_ops p.config_ops (m' ∙ sym m),
          assign_array_lem q.stages p.stages (n' ∙ sym n),
          move_assign_lem q.sink p.sink,
          m,
          n,
        )
        refl,
    rw (reset_lem p.sink, reset_array_lem p.stages, reset_array_lem p.config_ops, m, n) refl,
  )
