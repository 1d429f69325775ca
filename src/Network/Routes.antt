-- ===== src/Network/Routes.antt =====
-- What comes out at the end of a row of pipelines that are connected by `connect_to` of
-- include/pipepp/core/connect_to.hpp.
use pipepp_core.Prelude.{
  ℕ, zero, suc, ◌<◌, ◌≤◌, ◌≡◌, refl, sym, ap, ◌∙◌, inl, inr, Bool, false, Option, none, some, List,
  [], ◌∷◌, length, get_elem?, set, arith, subst, Bool-cases, if◌then◌else◌, length-set,
}
use pipepp_core.Exec.{Exec, done, >>=-of_done, if_of_true, if_of_false}
use pipepp_core.Message.{MessageView}
use pipepp_core.Pipeline.Emit.{Env}
use pipepp_core.Pipeline.Emit.Flow.{fits}
use pipepp_core.Network.{connects, prefixes, Node, Network, world_env, with_running, emit_at, flood}
use pipepp_core.Network.Steps.{stands_at, flood_on, flood-step}
use pipepp_core.Network.Links.{Closed, Closed-set, GoesTo, pass-Ends}
use pipepp_core.Network.Relays.{Relays, prefixed, Relays-pass, pass-unfit}
use pipepp_core.Network.Flood.{IsRanked, FreeBelow, IsRanked-set, goes_lower}
use pipepp_core.Network.Ranked.{emit_at-flood}

-- The targets and the prefixes on the way.
abbrev pub Hops : Type 0
Hops = List (ℕ × List ℕ)

module _ {S W : Type 0} where
  abbrev pub fits_at : Option (Node S W) → MessageView → Bool
  fits_at none mv = false
  fits_at (some n) mv = fits n.own.config mv

module _ {S W : Type 0} (net : Network S W) where
  -- The way from the pipeline at `i` to that at `end`, by pipelines without stages.
  abbrev pub Leads : ℕ → Hops → ℕ → Type 0
  Leads i [] end = i ≡ end
  Leads i ((j, prefix) ∷ hops) end =
      (n : Node S W) × (get_elem? net i ≡ some n) × Relays n j prefix × Leads j hops end

  -- A message that fits all on the way arrives, under the prefixes of all of them.
  abbrev pub arriving : ℕ → Hops → MessageView → Option MessageView
  arriving i [] mv = some mv
  arriving i ((j, prefix) ∷ hops) mv =
      if fits_at (get_elem? net i) mv then arriving j hops (prefixed prefix mv) else none

  -- What is emitted at the end of the way.
  abbrev pub emit_arrived : ℕ → ℕ → W → Option MessageView → Exec (Network S W × W)
  emit_arrived depth end w none = done (net, w)
  emit_arrived depth end w (some mv) = emit_at depth net end w mv

  abbrev flood_arrived : ℕ → ℕ → W → Option MessageView → Exec (Network S W × W)
  flood_arrived depth end w none = done (net, w)
  flood_arrived depth end w (some mv) = flood depth net end w mv

set_same : {A : Type 0} (xs : List A) (i : ℕ) (x : A) → get_elem? xs i ≡ some x → set xs i x ≡ xs
set_same [] i x h = refl
set_same (y ∷ xs) zero x h = let e : y ≡ x = ground arith in ap (λ z. z ∷ xs) (sym e)
set_same (y ∷ xs) (suc i) x h = ap (◌∷◌ y) (set_same xs i x h)

Relays-target :
    {S W : Type 0} (n : Node S W) (j : ℕ) (prefix : List ℕ) (mv : MessageView)
    → Relays n j prefix
    → GoesTo {W = W} n.link (some (j, mv))
Relays-target n j prefix mv r = elim r.goes [
  | inl linked ↦ (prefixes j prefix, linked, refl)
  | inr (linked, e) ↦ (connects j, linked, refl)
]

module _ {S W : Type 0} (rank : ℕ → ℕ) where
  -- More depth than the rank changes nothing.
  flood_deeper :
      (d d' : ℕ) (net : Network S W) (i : ℕ) (w : W) (mv : MessageView)
      → Closed net
      → IsRanked rank net
      → i < length net
      → rank i < d
      → rank i < d'
      → flood d net i w mv ≡ flood d' net i w mv
  flood_deeper zero d' net i w mv closed ranked h a b = absurd (omega arith)
  flood_deeper (suc d) zero net i w mv closed ranked h a b = absurd (omega arith)
  flood_deeper (suc d) (suc d') net i w mv closed ranked h a b =
      let (n, at) = stands_at net i h in
      let (r, told, goes) = pass-Ends n (world_env n w) mv (closed.returns i n at) in
      let net' = set net i (with_running n r.1) in
      flood-step d net i w mv at
      ∙ (>>=-of_done _ told
          ∙ (on d d' net' r (λ o e.
                let (inside, lower) =
                  goes_lower rank net i n o at closed ranked (subst (GoesTo n.link) e goes) in
                flood_deeper d d' net' o.0 r.1.world o.1
                  (Closed-set net i n r.1.running n.own.stage_lock at closed)
                  (IsRanked-set rank net i n r.1.running n.own.stage_lock at ranked)
                  (omega (arith, length-set net i (with_running n r.1))) (omega arith)
                  (omega arith))
              ∙ sym (flood-step d' net i w mv at ∙ >>=-of_done _ told)))
    where
      on :
          (d d' : ℕ) (m : Network S W) (r : Option (ℕ × MessageView) × Env W)
          → ((o : ℕ × MessageView)
              → r.0 ≡ some o
              → flood d m o.0 r.1.world o.1 ≡ flood d' m o.0 r.1.world o.1)
          → flood_on d m r ≡ flood_on d' m r
      on d d' m (none, env) ih = refl
      on d d' m (some o, env) ih = ih o refl

  module _ (net : Network S W) (closed : Closed net) (ranked : IsRanked rank net) where
    Leads-lower :
        (hops : Hops) (i end : ℕ) (mv : MessageView)
        → i < length net
        → Leads net i hops end
        → (end < length net) × (rank end ≤ rank i)
    Leads-lower [] i end mv h e = (omega arith, omega (arith, ap rank e))
    Leads-lower ((j, prefix) ∷ hops) i end mv h (n, at, r, on) =
        let (inside, lower) =
          goes_lower rank net i n (j, mv) at closed ranked (Relays-target n j prefix mv r) in
        let (there, low) = Leads-lower hops j end mv inside on in (there, omega arith)

    flood_route :
        (hops : Hops) (d d' i end : ℕ) (w : W) (mv : MessageView)
        → i < length net
        → Leads net i hops end
        → rank i < d
        → rank end < d'
        → flood d net i w mv ≡ flood_arrived net d' end w (arriving net i hops mv)
    flood_route [] d d' i end w mv h e a b =
        flood_deeper d d' net i w mv closed ranked h a (omega (arith, ap rank e))
        ∙ ap (λ k. flood d' net k w mv) e
    flood_route ((j, prefix) ∷ hops) zero d' i end w mv h leads a b = absurd (omega arith)
    flood_route ((j, prefix) ∷ hops) (suc d) d' i end w mv h (n, at, r, on) a b =
        let (inside, lower) =
          goes_lower rank net i n (j, mv) at closed ranked (Relays-target n j prefix mv r) in
        let env = world_env n w in
        flood-step d net i w mv at ∙ elim (Bool-cases (fits n.own.config mv)) [
          | inl fit ↦
              >>=-of_done _ (Relays-pass n env mv j prefix r fit)
              ∙ (ap (λ m. flood d m j w (prefixed prefix mv)) (set_same net i n at)
                  ∙ (flood_route hops d d' j end w (prefixed prefix mv) inside on (omega arith) b
                      ∙ ap (flood_arrived net d' end w)
                          (sym (if_of_true _ _ (ap (λ o. fits_at o mv) at ∙ fit)))))
          | inr unfit ↦
              >>=-of_done _ (pass-unfit n env mv unfit)
              ∙ (ap (λ m. done (m, w)) (set_same net i n at)
                  ∙ ap (flood_arrived net d' end w)
                      (sym (if_of_false _ _ (ap (λ o. fits_at o mv) at ∙ unfit))))
        ]

    arrived :
        (o : Option MessageView) (d end : ℕ) (w : W)
        → ((mv : MessageView) → flood d net end w mv ≡ emit_at d net end w mv)
        → flood_arrived net d end w o ≡ emit_arrived net d end w o
    arrived none d end w h = refl
    arrived (some mv) d end w h = h mv

    -- In a ranked network of pipelines that return, in which the target of every link stands and the
    -- locks of the ranks in question are free: a message that is emitted into a pipeline from which a row of others
    -- without stages leads on is, if it fits all of them under the prefixes that they have added,
    -- what is emitted into the last, under all the prefixes, and else it is dropped and nothing is
    -- changed.
    pub emit_at-arriving :
        (hops : Hops) (depth i end : ℕ) (w : W) (mv : MessageView)
        → FreeBelow rank (suc (rank i)) net
        → i < length net
        → rank i < depth
        → Leads net i hops end
        → emit_at depth net i w mv ≡ emit_arrived net depth end w (arriving net i hops mv)
    emit_at-arriving hops depth i end w mv free h d leads =
        let (there, low) = Leads-lower hops i end mv h leads in
        (emit_at-flood rank depth net i w mv closed ranked free h d).0
        ∙ (flood_route hops depth depth i end w mv h leads d (omega arith)
            ∙ arrived (arriving net i hops mv) depth end w λ v.
              sym
                (emit_at-flood rank depth net end w v closed ranked
                  (λ a b k l. free a b k (omega arith)) there (omega arith)).0)
