-- ===== src/Network/Relays.antt =====
-- Pipelines without stages that are connected by `connect_to` of
-- include/pipepp/core/connect_to.hpp, with a prefix or without.
use pipepp_core.Prelude.{
  ℕ, ◌≡◌, sym, ap, ◌∙◌, ◌⊎◌, inl, inr, true, false, none, some, List, [], ◌++◌,
}
use pipepp_core.Exec.{done, >>=-of_done, if_of_true, if_of_false}
use pipepp_core.Config.{Config}
use pipepp_core.Expected.{has_value}
use pipepp_core.Message.{MessageView, default_message, from_view, as_view}
use pipepp_core.Message.RoundTrip.{as_view-from_view, default_message-IsValid}
use pipepp_core.Pipeline.Emit.{Env, run_stages}
use pipepp_core.Pipeline.Emit.Flow.{Holds, fits, has_value-from_view}
use pipepp_core.ConnectTo.{with_topic}
use pipepp_core.Network.{connects, prefixes, Node, pass, depart, depart_by}

-- A view that fits is read back from the copy as it was.
stored_view :
    (c : Config) (mv : MessageView)
    → fits c mv ≡ true
    → as_view (from_view c (default_message c) mv).1 ≡ mv
stored_view c mv h = elim (as_view-from_view c (default_message c) mv (default_message-IsValid c)) [
  | inl (_, _, same, _) ↦ same
  | inr (_, refused) ↦
      let bad : has_value (from_view c (default_message c) mv).0 ≡ false =
        ap (λ r. has_value r.0) refused in
      let good = has_value-from_view c (default_message c) mv in cc
]

-- A pipeline without stages that is connected to `target`, with a prefix or, where it is empty,
-- perhaps without.
pub record Relays {S W : Type 0} (n : Node S W) (target : ℕ) (prefix : List ℕ) : Type 0 where
  pub plain : Holds n.own.stages n.own.stage_count []
  pub goes :
      (n.link ≡ some (prefixes target prefix)) ⊎ (n.link ≡ some (connects target)) × (prefix ≡ [])

abbrev pub prefixed : List ℕ → MessageView → MessageView
prefixed prefix mv = with_topic (prefix ++ mv.topic) mv

module _ {S W : Type 0} (n : Node S W) (env : Env W) (mv : MessageView) where
  -- It emits the message into the target, under the prefixed topic.
  pub Relays-pass :
      (j : ℕ) (prefix : List ℕ)
      → Relays n j prefix
      → fits n.own.config mv ≡ true
      → pass n env mv ≡ done (some (j, prefixed prefix mv), env)
  unfolding pass run_stages
  Relays-pass j prefix r h =
      let c = n.own.config in
      let msg = (from_view c (default_message c) mv).1 in
      if_of_true _ _ (has_value-from_view c (default_message c) mv ∙ h)
      ∙ (>>=-of_done (depart n)
            (ap (λ k. run_stages k 0 n.own.stages msg env) (sym r.plain.counted))
          ∙ elim r.goes [
            | inl linked ↦
                ap (λ l. depart_by l n.own.sink msg env) linked
                ∙ ap (λ v. done (some (j, prefixed prefix v), env)) (stored_view c mv h)
            | inr (linked, e) ↦
                ap (λ l. depart_by l n.own.sink msg env) linked
                ∙ (ap (λ v. done (some (j, v), env)) (stored_view c mv h)
                    ∙ ap (λ p. done (some (j, prefixed p mv), env)) (sym e))
          ])

  -- A message that does not fit goes nowhere.
  pub pass-unfit : fits n.own.config mv ≡ false → pass n env mv ≡ done (none, env)
  unfolding pass
  pass-unfit h =
      if_of_false _ _ (has_value-from_view n.own.config (default_message n.own.config) mv ∙ h)
