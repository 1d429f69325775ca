-- ===== src/Pipeline/Build.antt =====
-- What one builder call of include/pipepp/core/pipeline.hpp leaves in a pipeline.
pub mod Chains
pub mod Errors
pub mod Subscriptions
pub mod Running
pub mod Dangling
use pipepp_core.Prelude.{
  ℕ, ℤ, zero, suc, ◌+◌, ◌≤◌, ◌<◌, ◌≡◌, refl, sym, ap, ◌∙◌, ◌⊎◌, inl, inr, true, false, Option, none,
  some, List, [], ◌∷◌, ◌++◌, map, ltb, if◌then◌else◌, arith, tests, length, take, set, get_elem?,
  replicate, Bool-cases, take_all, take-set_last, length-set, length-replicate, length-append,
  take-append, take-append-take, append-nil, append_assoc, subst, Option-cases,
}
use mathlib.Core.List.{map-append}
use pipepp_core.ErrorCode.{ErrorCode, is_error}
use pipepp_core.Expected.{has_value}
use pipepp_core.Config.{Config}
use pipepp_core.FixedString
use pipepp_core.FixedString.{FixedString, checked_from, empty_string}
use pipepp_core.FixedString.Contents.{checked_from_lem, empty_string-IsValid}
use pipepp_core.Source.{Subscription}
use pipepp_core.Stages.{ProcessFn, SinkFn, ConfigFn}
use pipepp_core.Uri.Basic.{BasicUri}
use pipepp_core.Pipeline.{
  Pipeline, no_subscription, subscription_at, fresh, make, subscribe, configure, add_stage,
  set_sink, connect_uri, BuildStep, subscribes, configures, adds_stage, sets_sink, connects_uri,
  build_step, build,
}
use pipepp_core.Pipeline.Emit.Flow.{Holds}
use pipepp_core.Pipeline.Slots.{
  Slots, SubsValid, Slots-empty, Slots-push, Slots-full, TopicsValid-replicate, TopicsValid-set,
  TopicsValid-at,
}

-- The arrays have their compiled sizes, the counts stay within them, the slots below the counts
-- hold the stages `fs` and the configuration functions `gs`, and the topics are well-formed.
pub record Contents {S W : Type 0} (p : Pipeline S W) (fs : List (ProcessFn W))
    (gs : List (ConfigFn S W)) : Type 0 where
  pub stage_slots : Slots p.stages p.stage_count p.config.max_stages fs
  pub config_slots : Slots p.config_ops p.config_count p.config.max_config_ops gs
  pub subs : SubsValid p.config p.subscriptions p.sub_count

-- What a call adds, and what a chain of calls adds.
module _ {S W : Type 0} where
  abbrev pub stages_of : List (BuildStep S W) → List (ProcessFn W)
  stages_of [] = []
  stages_of (adds_stage f ∷ bs) = f ∷ stages_of bs
  stages_of (_ ∷ bs) = stages_of bs

  abbrev pub configs_of : List (BuildStep S W) → List (ConfigFn S W)
  configs_of [] = []
  configs_of (configures f ∷ bs) = f ∷ configs_of bs
  configs_of (_ ∷ bs) = configs_of bs

  -- The last sink wins.
  abbrev pub sink_of : Option (SinkFn W) → List (BuildStep S W) → Option (SinkFn W)
  sink_of sink [] = sink
  sink_of sink (sets_sink f ∷ bs) = sink_of (some f) bs
  sink_of sink (_ ∷ bs) = sink_of sink bs

module _ {S W : Type 0} where
  pub fresh-Contents :
      (c : Config) (src : S) (uri : BasicUri) (e : ErrorCode)
      → Contents {S = S} {W = W} (fresh c src uri e) [] []
  fresh-Contents c src uri e = record {
    stage_slots = Slots-empty c.max_stages;
    config_slots = Slots-empty c.max_config_ops;
    subs = record {
      room = length-replicate c.max_subscriptions (no_subscription c);
      bounded = omega arith;
      topics = TopicsValid-replicate c c.max_subscriptions;
    };
  }

  pub Contents-at :
      {p : Pipeline S W} {fs fs' : List (ProcessFn W)} {gs gs' : List (ConfigFn S W)}
      → Contents p fs gs
      → fs ≡ fs'
      → gs ≡ gs'
      → Contents p fs' gs'
  Contents-at {p} {fs} {fs'} {gs} {gs'} v e k =
      subst (λ xs. Contents p xs gs') e (subst (λ ys. Contents p fs ys) k v)

  module _ (p : Pipeline S W) (fs : List (ProcessFn W)) (gs : List (ConfigFn S W))
      (v : Contents p fs gs) where
    add_stage-Contents :
        (f : ProcessFn W) → Contents (add_stage p f) (take p.config.max_stages (fs ++ f ∷ [])) gs
    unfolding add_stage
    add_stage-Contents f = elim (Bool-cases (ltb p.stage_count p.config.max_stages)) [
      | inl room ↦ rw room (record {
        stage_slots = Slots-push p.stages p.stage_count _ fs f v.stage_slots (omega tests);
        config_slots = v.config_slots;
        subs = v.subs;
      })
      | inr full ↦ rw full (record {
        stage_slots = Slots-full p.stages p.stage_count _ fs f v.stage_slots (omega tests);
        config_slots = v.config_slots;
        subs = v.subs;
      })
    ]

    configure-Contents :
        (f : ConfigFn S W)
        → Contents (configure p f) fs (take p.config.max_config_ops (gs ++ f ∷ []))
    unfolding configure
    configure-Contents f = elim (Bool-cases (ltb p.config_count p.config.max_config_ops)) [
      | inl room ↦ rw room (record {
        stage_slots = v.stage_slots;
        config_slots = Slots-push p.config_ops p.config_count _ gs f v.config_slots (omega tests);
        subs = v.subs;
      })
      | inr full ↦ rw full (record {
        stage_slots = v.stage_slots;
        config_slots = Slots-full p.config_ops p.config_count _ gs f v.config_slots (omega tests);
        subs = v.subs;
      })
    ]

    subscribe-Contents : (topic : List ℕ) (qos : ℤ) → Contents (subscribe p topic qos) fs gs
    unfolding subscribe
    subscribe-Contents topic qos = elim (Bool-cases (ltb p.sub_count p.config.max_subscriptions)) [
      | inl room ↦
          rw room
            (elim (checked_from_lem p.config.max_topic_len old.topic topic
              (TopicsValid-at p.config p.subscriptions p.sub_count v.subs.topics)) [
                | inl (_, good, _, valid) ↦ rw good (record {
                  stage_slots = v.stage_slots;
                  config_slots = v.config_slots;
                  subs = record {
                    room = length-set p.subscriptions p.sub_count _ ∙ v.subs.room;
                    bounded = omega tests;
                    topics =
                        TopicsValid-set p.config p.subscriptions p.sub_count _ v.subs.topics valid;
                  };
                })
                | inr (_, refused) ↦ rw refused (record {
                  stage_slots = v.stage_slots;
                  config_slots = v.config_slots;
                  subs = record {
                    room = v.subs.room;
                    bounded = omega tests;
                    topics = v.subs.topics;
                  };
                })
              ])
      | inr full ↦
          rw full
            (record { stage_slots = v.stage_slots; config_slots = v.config_slots; subs = v.subs })
    ]
      where
        old : Subscription
        old = subscription_at p.config (get_elem? p.subscriptions p.sub_count)

    pub kept_fs : take p.config.max_stages (fs ++ []) ≡ fs
    kept_fs =
        ap (take p.config.max_stages) (append-nil fs)
        ∙ take_all fs p.config.max_stages
            (omega (arith, v.stage_slots.holds.counted, v.stage_slots.bounded))

    pub kept_gs : take p.config.max_config_ops (gs ++ []) ≡ gs
    kept_gs =
        ap (take p.config.max_config_ops) (append-nil gs)
        ∙ take_all gs p.config.max_config_ops
            (omega (arith, v.config_slots.holds.counted, v.config_slots.bounded))

    pub build_step-Contents :
        (b : BuildStep S W)
        → Contents
            (build_step p b)
            (take p.config.max_stages (fs ++ stages_of (b ∷ [])))
            (take p.config.max_config_ops (gs ++ configs_of (b ∷ [])))
    unfolding build_step set_sink connect_uri
    build_step-Contents (subscribes topic qos) =
        Contents-at (subscribe-Contents topic qos) (sym kept_fs) (sym kept_gs)
    build_step-Contents (configures f) = Contents-at (configure-Contents f) (sym kept_fs) refl
    build_step-Contents (adds_stage f) = Contents-at (add_stage-Contents f) refl (sym kept_gs)
    build_step-Contents (sets_sink f) =
        Contents-at
          (record { stage_slots = v.stage_slots; config_slots = v.config_slots; subs = v.subs })
          (sym kept_fs) (sym kept_gs)
    build_step-Contents (connects_uri temp uri_str) =
        Contents-at
          (record { stage_slots = v.stage_slots; config_slots = v.config_slots; subs = v.subs })
          (sym kept_fs) (sym kept_gs)

  pub build_step-config :
      (p : Pipeline S W) (b : BuildStep S W) → (build_step p b).config ≡ p.config
  unfolding build_step subscribe configure add_stage set_sink connect_uri
  build_step-config p (subscribes topic qos) = ground arith
  build_step-config p (configures f) = ground arith
  build_step-config p (adds_stage f) = ground arith
  build_step-config p (sets_sink f) = refl
  build_step-config p (connects_uri temp uri_str) = refl
