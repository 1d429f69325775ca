-- ===== src/Pipeline/Slots.antt =====
-- The arrays of include/pipepp/core/pipeline.hpp: how full they are, and what a push makes of one.
use pipepp_core.Prelude.{
  ℕ, zero, suc, ◌≤◌, ◌<◌, ◌≡◌, refl, sym, ap, ◌∙◌, Option, none, some, List, [], ◌∷◌, ◌++◌, arith,
  length, take, set, get_elem?, replicate, take_all, take-set_last, length-set, length-replicate,
  length-append, take-append, subst,
}
use mathlib.Core.List.{map-append}
use pipepp_core.Config.{Config}
use pipepp_core.FixedString
use pipepp_core.FixedString.{FixedString, checked_from, empty_string}
use pipepp_core.FixedString.Contents.{empty_string-IsValid}
use pipepp_core.Source.{Subscription}
use pipepp_core.Pipeline.{no_subscription, subscription_at}
use pipepp_core.Pipeline.Emit.Flow.{Holds}

-- Every subscription has a well-formed topic.
abbrev pub TopicsValid : Config → List Subscription → Type 0
TopicsValid c [] = Unit {0}
TopicsValid c (s ∷ ss) = FixedString.IsValid c.max_topic_len s.topic × TopicsValid c ss

-- An array of `max` slots of which the first `n` hold `fs`.
pub record Slots {F : Type 0} (slots : List (Option F)) (n max : ℕ) (fs : List F) : Type 0 where
  pub room : length slots ≡ max
  pub bounded : n ≤ max
  pub holds : Holds slots n fs

pub record SubsValid (c : Config) (ss : List Subscription) (n : ℕ) : Type 0 where
  pub room : length ss ≡ c.max_subscriptions
  pub bounded : n ≤ c.max_subscriptions
  pub topics : TopicsValid c ss

Holds-set :
    {F : Type 0} (slots : List (Option F)) (n : ℕ) (fs : List F) (f : F)
    → Holds slots n fs
    → n < length slots
    → Holds (set slots n (some f)) (suc n) (fs ++ f ∷ [])
Holds-set slots n fs f h room = record {
  front =
      take-set_last slots n (some f) room
      ∙ (ap (λ xs. xs ++ some f ∷ []) h.front ∙ sym (map-append some fs (f ∷ [])));
  counted = omega (arith, length-append fs (f ∷ []), h.counted);
}

module _ {F : Type 0} where
  pub Slots-empty : (max : ℕ) → Slots {F = F} (replicate max none) 0 max []
  Slots-empty max = record {
    room = length-replicate max none;
    bounded = omega arith;
    holds = record { front = refl; counted = refl };
  }

  module _ (slots : List (Option F)) (n max : ℕ) (fs : List F) (f : F)
      (v : Slots slots n max fs) where
    longer : length (fs ++ f ∷ []) ≡ suc n
    longer = omega (arith, length-append fs (f ∷ []), v.holds.counted)

    -- A push with room adds one, and without room none: both are `fs` and `f` cut to `max`.
    pub Slots-push : n < max → Slots (set slots n (some f)) (suc n) max (take max (fs ++ f ∷ []))
    Slots-push h =
        subst (λ xs. Slots (set slots n (some f)) (suc n) max xs)
          (sym (take_all (fs ++ f ∷ []) max (omega (arith, longer))))
          (record {
            room = length-set slots n (some f) ∙ v.room;
            bounded = h;
            holds = Holds-set slots n fs f v.holds (omega (arith, v.room));
          })

    pub Slots-full : max ≤ n → Slots slots n max (take max (fs ++ f ∷ []))
    Slots-full h =
        let exact : length fs ≡ max = omega (arith, v.holds.counted, v.bounded) in
        subst (λ xs. Slots slots n max xs)
          (sym (subst (λ k. take k (fs ++ f ∷ []) ≡ fs) exact (take-append fs (f ∷ [])))) v

pub TopicsValid-replicate : (c : Config) (n : ℕ) → TopicsValid c (replicate n (no_subscription c))
TopicsValid-replicate c zero = tt
TopicsValid-replicate c (suc n) = (empty_string-IsValid c.max_topic_len, TopicsValid-replicate c n)

pub TopicsValid-set :
    (c : Config) (ss : List Subscription) (i : ℕ) (s : Subscription)
    → TopicsValid c ss
    → FixedString.IsValid c.max_topic_len s.topic
    → TopicsValid c (set ss i s)
TopicsValid-set c [] i s h v = tt
TopicsValid-set c (x ∷ ss) zero s h v = (v, h.1)
TopicsValid-set c (x ∷ ss) (suc i) s h v = (h.0, TopicsValid-set c ss i s h.1 v)

pub TopicsValid-at :
    (c : Config) (ss : List Subscription) (i : ℕ)
    → TopicsValid c ss
    → FixedString.IsValid c.max_topic_len (subscription_at c (get_elem? ss i)).topic
TopicsValid-at c [] i h = empty_string-IsValid c.max_topic_len
TopicsValid-at c (x ∷ ss) zero h = h.0
TopicsValid-at c (x ∷ ss) (suc i) h = TopicsValid-at c ss i h.1
