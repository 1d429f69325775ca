-- ===== src/Pipeline/Build/Subscriptions.antt =====
-- The subscriptions that a chain of builder calls of include/pipepp/core/pipeline.hpp leaves.
use pipepp_core.Prelude.{
  ℕ, ℤ, ◌≡◌, refl, sym, ap, ◌∙◌, inl, inr, true, false, List, [], ◌∷◌, ◌++◌, arith, tests, ltb, map,
  take, get_elem?, Bool-cases, take-set_last, append_assoc, append-nil,
}
use mathlib.Core.List.{map-append}
use pipepp_core.ErrorCode.{is_error}
use pipepp_core.Config.{Config}
use pipepp_core.Expected.{ok}
use pipepp_core.FixedString.{as_view, checked_from}
use pipepp_core.FixedString.Contents.{checked_from_lem}
use pipepp_core.Source.{Subscription}
use pipepp_core.Stages.{ProcessFn, ConfigFn}
use pipepp_core.Pipeline.{
  Pipeline, subscription_at, make, subscribe, configure, add_stage, set_sink, connect_uri, check,
  BuildStep, subscribes, configures, adds_stage, sets_sink, connects_uri, build_step, build,
}
use pipepp_core.Pipeline.Slots.{TopicsValid-at}
use pipepp_core.Pipeline.Build.{Contents, fresh-Contents, build_step-Contents}
use pipepp_core.Pipeline.Build.Errors.{clean_before}

-- What a subscription asks of a source.
abbrev pub asked : Subscription → List ℕ × ℤ
asked s = (as_view s.topic, s.qos)

module _ {S W : Type 0} where
  -- The subscriptions that a pipeline holds.
  abbrev pub held : Pipeline S W → List (List ℕ × ℤ)
  held p = map asked (take p.sub_count p.subscriptions)

  -- The subscriptions that a chain of calls asks for.
  abbrev pub subs_of : List (BuildStep S W) → List (List ℕ × ℤ)
  subs_of [] = []
  subs_of (subscribes topic qos ∷ bs) = (topic, qos) ∷ subs_of bs
  subs_of (_ ∷ bs) = subs_of bs

  subs_of-cons :
      (b : BuildStep S W) (bs : List (BuildStep S W))
      → subs_of (b ∷ bs) ≡ subs_of (b ∷ []) ++ subs_of bs
  subs_of-cons (subscribes topic qos) bs = refl
  subs_of-cons _ bs = refl

  subscribe-held :
      (p : Pipeline S W) (fs : List (ProcessFn W)) (gs : List (ConfigFn S W)) (topic : List ℕ)
      (qos : ℤ)
      → Contents p fs gs
      → is_error (subscribe p topic qos).pending_error ≡ false
      → held (subscribe p topic qos) ≡ held p ++ (topic, qos) ∷ []
  unfolding subscribe
  subscribe-held p fs gs topic qos v h =
      elim (Bool-cases (ltb p.sub_count p.config.max_subscriptions)) [
        | inl room ↦
            elim (checked_from_lem p.config.max_topic_len old.topic topic
              (TopicsValid-at p.config p.subscriptions p.sub_count v.subs.topics)) [
                | inl (_, good, same, _) ↦
                    let stored = (checked_from p.config.max_topic_len old.topic topic).1 in
                    let new : Subscription = record { topic = stored; qos = qos } in
                    rw (room, good)
                      (ap (map asked) (
                          take-set_last p.subscriptions p.sub_count new
                            (omega (tests, v.subs.room)))
                        ∙ (map-append asked (take p.sub_count p.subscriptions) (new ∷ [])
                            ∙ ap (λ t. held p ++ (t, qos) ∷ []) same))
                | inr (_, refused) ↦
                    let bad : is_error (subscribe p topic qos).pending_error ≡ true =
                      rw (room, refused) refl in
                    cc
              ]
        | inr full ↦
            let bad : is_error (subscribe p topic qos).pending_error ≡ true = rw full refl in cc
      ]
    where
      old : Subscription
      old = subscription_at p.config (get_elem? p.subscriptions p.sub_count)

  build_step-held :
      (p : Pipeline S W) (fs : List (ProcessFn W)) (gs : List (ConfigFn S W)) (b : BuildStep S W)
      → Contents p fs gs
      → is_error (build_step p b).pending_error ≡ false
      → held (build_step p b) ≡ held p ++ subs_of (b ∷ [])
  unfolding build_step configure add_stage set_sink connect_uri
  build_step-held p fs gs (subscribes topic qos) v h = subscribe-held p fs gs topic qos v h
  build_step-held p fs gs (configures f) v h =
      let kept : held (configure p f) ≡ held p = ground arith in kept ∙ sym (append-nil (held p))
  build_step-held p fs gs (adds_stage f) v h =
      let kept : held (add_stage p f) ≡ held p = ground arith in kept ∙ sym (append-nil (held p))
  build_step-held p fs gs (sets_sink f) v h = sym (append-nil (held p))
  build_step-held p fs gs (connects_uri temp uri_str) v h = sym (append-nil (held p))

  build-held :
      (bs : List (BuildStep S W)) (p : Pipeline S W) (fs : List (ProcessFn W))
      (gs : List (ConfigFn S W))
      → Contents p fs gs
      → is_error (build p bs).pending_error ≡ false
      → held (build p bs) ≡ held p ++ subs_of bs
  unfolding build
  build-held [] p fs gs v h = sym (append-nil (held p))
  build-held (b ∷ bs) p fs gs v h =
      build-held bs (build_step p b) _ _ (build_step-Contents p fs gs v b) h
      ∙ (ap (λ xs. xs ++ subs_of bs)
            (build_step-held p fs gs b v (clean_before bs (build_step p b) h))
          ∙ (append_assoc (held p) (subs_of (b ∷ [])) (subs_of bs)
              ∙ ap (λ xs. held p ++ xs) (sym (subs_of-cons b bs))))

  -- If `check()` is good after a chain of builder calls on a new pipeline, then the pipeline holds
  -- the topics and the qualities of service that the chain subscribed to, all of them, in order.
  pub check-held :
      (c : Config) (src : S) (bs : List (BuildStep S W))
      → check (build (make c src) bs) ≡ ok
      → held (build (make c src) bs) ≡ subs_of bs
  unfolding check
  check-held c src bs h = build-held bs (make c src) [] [] (fresh-Contents c src _ _) (ground arith)
