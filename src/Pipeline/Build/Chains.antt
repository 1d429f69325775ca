-- ===== src/Pipeline/Build/Chains.antt =====
-- What a chain of builder calls of include/pipepp/core/pipeline.hpp leaves in a pipeline.
use pipepp_core.Prelude.{
  ℕ, ◌≡◌, refl, sym, ap, ◌∙◌, none, List, [], ◌∷◌, ◌++◌, arith, take, take-append-take,
  append_assoc,
}
use pipepp_core.Config.{Config}
use pipepp_core.Stages.{ProcessFn, ConfigFn}
use pipepp_core.Pipeline.{
  Pipeline, make, subscribe, configure, add_stage, set_sink, connect_uri, BuildStep, subscribes,
  configures, adds_stage, sets_sink, connects_uri, build_step, build,
}
use pipepp_core.Pipeline.Build.{
  Contents, stages_of, configs_of, sink_of, fresh-Contents, Contents-at, kept_fs, kept_gs,
  build_step-Contents, build_step-config,
}

take_twice :
    {A : Type 0} (n m : ℕ) (xs ys zs : List A)
    → m ≡ n
    → take n (take m (xs ++ ys) ++ zs) ≡ take n (xs ++ (ys ++ zs))
take_twice n m xs ys zs e =
    rw e (take-append-take n (xs ++ ys) zs ∙ ap (take n) (append_assoc xs ys zs))

module _ {S W : Type 0} where
  pub stages_of-cons :
      (b : BuildStep S W) (bs : List (BuildStep S W))
      → stages_of (b ∷ bs) ≡ stages_of (b ∷ []) ++ stages_of bs
  stages_of-cons (adds_stage f) bs = refl
  stages_of-cons _ bs = refl

  pub configs_of-cons :
      (b : BuildStep S W) (bs : List (BuildStep S W))
      → configs_of (b ∷ bs) ≡ configs_of (b ∷ []) ++ configs_of bs
  configs_of-cons (configures f) bs = refl
  configs_of-cons _ bs = refl

  build-Contents :
      (bs : List (BuildStep S W)) (p : Pipeline S W) (fs : List (ProcessFn W))
      (gs : List (ConfigFn S W)) (c : Config)
      → p.config ≡ c
      → Contents p fs gs
      → Contents
          (build p bs)
          (take c.max_stages (fs ++ stages_of bs))
          (take c.max_config_ops (gs ++ configs_of bs))
  unfolding build
  build-Contents [] p fs gs c e v =
      Contents-at v (sym (ap (λ k. take k.max_stages (fs ++ [])) (sym e) ∙ kept_fs p fs gs v))
        (sym (ap (λ k. take k.max_config_ops (gs ++ [])) (sym e) ∙ kept_gs p fs gs v))
  build-Contents (b ∷ bs) p fs gs c e v =
      Contents-at
        (build-Contents bs (build_step p b) _ _ c (build_step-config p b ∙ e)
          (build_step-Contents p fs gs v b))
        (take_twice c.max_stages p.config.max_stages fs (stages_of (b ∷ [])) (stages_of bs)
            (ap (λ k. k.max_stages) e)
          ∙ ap (λ xs. take c.max_stages (fs ++ xs)) (sym (stages_of-cons b bs)))
        (take_twice c.max_config_ops p.config.max_config_ops gs (configs_of (b ∷ []))
            (configs_of bs) (ap (λ k. k.max_config_ops) e)
          ∙ ap (λ xs. take c.max_config_ops (gs ++ xs)) (sym (configs_of-cons b bs)))

  build-sink :
      (bs : List (BuildStep S W)) (p : Pipeline S W) → (build p bs).sink ≡ sink_of p.sink bs
  unfolding build build_step subscribe configure add_stage set_sink connect_uri
  build-sink [] p = refl
  build-sink (subscribes topic qos ∷ bs) p =
      let kept : (subscribe p topic qos).sink ≡ p.sink = ground arith in
      build-sink bs (subscribe p topic qos) ∙ ap (λ k. sink_of k bs) kept
  build-sink (configures f ∷ bs) p =
      let kept : (configure p f).sink ≡ p.sink = ground arith in
      build-sink bs (configure p f) ∙ ap (λ k. sink_of k bs) kept
  build-sink (adds_stage f ∷ bs) p =
      let kept : (add_stage p f).sink ≡ p.sink = ground arith in
      build-sink bs (add_stage p f) ∙ ap (λ k. sink_of k bs) kept
  build-sink (sets_sink f ∷ bs) p = build-sink bs (set_sink p f)
  build-sink (connects_uri temp uri_str ∷ bs) p = build-sink bs (connect_uri p temp uri_str)

  -- From a new pipeline, any chain of builder calls leaves the stages and the configuration
  -- functions of the chain in their order, each cut at its capacity, and the last sink.
  pub build-make :
      (c : Config) (src : S) (bs : List (BuildStep S W))
      → Contents
          (build (make c src) bs)
          (take c.max_stages (stages_of bs))
          (take c.max_config_ops (configs_of bs))
        × ((build (make c src) bs).sink ≡ sink_of none bs)
  build-make c src bs = (
    build-Contents bs (make c src) [] [] c refl (fresh-Contents c src _ _),
    build-sink bs (make c src),
  )
