-- ===== src/Pipeline/Build/Errors.antt =====
-- The pending error of include/pipepp/core/pipeline.hpp.
use pipepp_core.Prelude.{
  ℕ, ◌≤◌, ◌<◌, ◌≡◌, sym, ap, ◌∙◌, inl, inr, true, false, List, [], ◌∷◌, ◌++◌, arith, length,
  take_all, length-append, append-nil, append_assoc, Bool-cases,
}
use pipepp_core.ErrorCode.{is_error}
use pipepp_core.Config.{Config}
use pipepp_core.Expected.{ok}
use pipepp_core.Stages.{ProcessFn, ConfigFn}
use pipepp_core.Pipeline.{
  Pipeline, make, subscribe, configure, add_stage, set_sink, connect_uri, check, BuildStep,
  subscribes, configures, adds_stage, sets_sink, connects_uri, build_step, build,
}
use pipepp_core.Pipeline.Build.{
  Contents, stages_of, configs_of, fresh-Contents, Contents-at, build_step-Contents,
}
use pipepp_core.Pipeline.Build.Chains.{stages_of-cons, configs_of-cons}

nothing : {A : Type 0} (xs : List A) (n : ℕ) → length xs ≤ n → length (xs ++ []) ≤ n
nothing xs n h = omega (arith, length-append xs [])

module _ {S W : Type 0} where
  build_step-is_error :
      (p : Pipeline S W) (b : BuildStep S W)
      → is_error p.pending_error ≡ true
      → is_error (build_step p b).pending_error ≡ true
  unfolding build_step subscribe configure add_stage set_sink connect_uri
  build_step-is_error p (subscribes topic qos) h = ground arith
  build_step-is_error p (configures f) h = ground arith
  build_step-is_error p (adds_stage f) h = ground arith
  build_step-is_error p (sets_sink f) h = h
  build_step-is_error p (connects_uri temp uri_str) h = ground arith

  -- No builder call clears a pending error.
  pub build-is_error :
      (bs : List (BuildStep S W)) (p : Pipeline S W)
      → is_error p.pending_error ≡ true
      → is_error (build p bs).pending_error ≡ true
  unfolding build
  build-is_error [] p h = h
  build-is_error (b ∷ bs) p h = build-is_error bs (build_step p b) (build_step-is_error p b h)

  pub clean_before :
      (bs : List (BuildStep S W)) (p : Pipeline S W)
      → is_error (build p bs).pending_error ≡ false
      → is_error p.pending_error ≡ false
  clean_before bs p h = elim (Bool-cases (is_error p.pending_error)) [
    | inl e ↦ cc (build-is_error bs p e)
    | inr e ↦ e
  ]

  full_fs :
      {p : Pipeline S W} {fs : List (ProcessFn W)} {gs : List (ConfigFn S W)}
      → Contents p fs gs
      → length fs ≤ p.config.max_stages
  full_fs v = omega (arith, v.stage_slots.holds.counted, v.stage_slots.bounded)

  full_gs :
      {p : Pipeline S W} {fs : List (ProcessFn W)} {gs : List (ConfigFn S W)}
      → Contents p fs gs
      → length gs ≤ p.config.max_config_ops
  full_gs v = omega (arith, v.config_slots.holds.counted, v.config_slots.bounded)

  -- A call that leaves no error had room for what it adds.
  room_of_clean :
      (p : Pipeline S W) (fs : List (ProcessFn W)) (gs : List (ConfigFn S W)) (b : BuildStep S W)
      → Contents p fs gs
      → is_error (build_step p b).pending_error ≡ false
      → (length (fs ++ stages_of (b ∷ [])) ≤ p.config.max_stages)
        × (length (gs ++ configs_of (b ∷ [])) ≤ p.config.max_config_ops)
  unfolding build_step configure add_stage
  room_of_clean p fs gs (subscribes topic qos) v h =
      (nothing fs _ (full_fs v), nothing gs _ (full_gs v))
  room_of_clean p fs gs (configures f) v h =
      let room : p.config_count < p.config.max_config_ops = ground arith in
      (
        nothing fs _ (full_fs v),
        omega (arith, length-append gs (f ∷ []), v.config_slots.holds.counted),
      )
  room_of_clean p fs gs (adds_stage f) v h =
      let room : p.stage_count < p.config.max_stages = ground arith in
      (
        omega (arith, length-append fs (f ∷ []), v.stage_slots.holds.counted),
        nothing gs _ (full_gs v),
      )
  room_of_clean p fs gs (sets_sink f) v h = (nothing fs _ (full_fs v), nothing gs _ (full_gs v))
  room_of_clean p fs gs (connects_uri temp uri_str) v h =
      (nothing fs _ (full_fs v), nothing gs _ (full_gs v))

  build-nothing_lost :
      (bs : List (BuildStep S W)) (p : Pipeline S W) (fs : List (ProcessFn W))
      (gs : List (ConfigFn S W))
      → Contents p fs gs
      → is_error (build p bs).pending_error ≡ false
      → Contents (build p bs) (fs ++ stages_of bs) (gs ++ configs_of bs)
  unfolding build
  build-nothing_lost [] p fs gs v h = Contents-at v (sym (append-nil fs)) (sym (append-nil gs))
  build-nothing_lost (b ∷ bs) p fs gs v h =
      let (room_fs, room_gs) = room_of_clean p fs gs b v (clean_before bs (build_step p b) h) in
      let here =
        Contents-at (build_step-Contents p fs gs v b) (take_all _ p.config.max_stages room_fs)
          (take_all _ p.config.max_config_ops room_gs) in
      Contents-at (build-nothing_lost bs (build_step p b) _ _ here h)
        (append_assoc fs (stages_of (b ∷ [])) (stages_of bs)
          ∙ ap (λ xs. fs ++ xs) (sym (stages_of-cons b bs)))
        (append_assoc gs (configs_of (b ∷ [])) (configs_of bs)
          ∙ ap (λ xs. gs ++ xs) (sym (configs_of-cons b bs)))

  -- If `check()` is good after a chain of builder calls on a new pipeline, then every stage and
  -- every configuration function of the chain is in place, in order.
  pub check-nothing_lost :
      (c : Config) (src : S) (bs : List (BuildStep S W))
      → check (build (make c src) bs) ≡ ok
      → Contents (build (make c src) bs) (stages_of bs) (configs_of bs)
  unfolding check
  check-nothing_lost c src bs h =
      build-nothing_lost bs (make c src) [] [] (fresh-Contents c src _ _) (ground arith)
