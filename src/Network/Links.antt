-- ===== src/Network/Links.antt =====
-- Networks of include/pipepp/core/connect_to.hpp in which every closure returns and every target
-- stands.
use pipepp_core.Prelude.{
  ℕ, zero, suc, ◌<◌, ◌≡◌, refl, sym, ap, ◌∙◌, Bool, Option, none, some, List, [], ◌∷◌, map, take,
  drop, length, get_elem?, set, take-drop_cons, length-set, get_elem?-set_cases, arith, subst, inl,
  inr, Bool-cases,
}
use pipepp_core.Exec.{done, Ends, ◌>>=◌, map_exec, >>=-Ends, if-Ends}
use pipepp_core.Expected.{has_value}
use pipepp_core.Message.{Message, MessageView, default_message, from_view, as_view}
use pipepp_core.Stages.{ProcessFn, SinkFn, callee}
use pipepp_core.Spinlock.{Spinlock}
use pipepp_core.Pipeline.Emit.{Env, env_after, run_stages}
use pipepp_core.Pipeline.Emit.Flow.{Holds}
use pipepp_core.Pipeline.Run.Ends.{StagesReturn, SinkReturns, run_sink-Ends}
use pipepp_core.ConnectTo.{remapped}
use pipepp_core.Network.{
  Link, connects, prefixes, remaps, target_of, Node, Network, depart_by, depart, pass,
}

module _ {W : Type 0} where
  run_stages-Ends :
      (fs : List (ProcessFn W)) (n i : ℕ) (stages : List (Option (ProcessFn W)))
      → take n (drop i stages) ≡ map some fs
      → length fs ≡ n
      → StagesReturn fs
      → (msg : Message) (env : Env W) → Ends (run_stages n i stages msg env)
  unfolding run_stages callee
  run_stages-Ends [] zero i stages h k ret msg env = (_, refl)
  run_stages-Ends [] (suc n) i stages h k ret msg env = absurd (omega arith)
  run_stages-Ends (f ∷ fs) zero i stages h k ret msg env = absurd (omega arith)
  run_stages-Ends (f ∷ fs) (suc n) i stages h k ret msg env =
      let (here, later) = take-drop_cons stages n i (some f) (map some fs) h in
      rw here (
        >>=-Ends _ _ (ret.0 msg env.world) λ r.
          if-Ends r.keep _ _
            (run_stages-Ends fs n (suc i) stages later (omega arith) ret.1 r.msg
              (env_after env r.world r.stops))
            (_, refl))

  -- The function of `with_remap` returns.
  abbrev pub LinkReturns : Option (Link W) → Type 0
  LinkReturns none = Unit {0}
  LinkReturns (some (connects target)) = Unit {0}
  LinkReturns (some (prefixes target prefix)) = Unit {0}
  LinkReturns (some (remaps target remap)) = (topic : List ℕ) (w : W) → Ends (remap topic w)

  -- Where a message goes that is passed on: to the target of the link.
  abbrev pub GoesTo : Option (Link W) → Option (ℕ × MessageView) → Type 0
  GoesTo link none = Unit {0}
  GoesTo link (some (j, mv)) = (l : Link W) × (link ≡ some l) × (target_of l ≡ j)

-- The counted slots hold closures, and these, the sink and the link return.
pub record NodeReturns {S W : Type 0} (n : Node S W) : Type 0 where
  pub functions : List (ProcessFn W)
  pub holds : Holds n.own.stages n.own.stage_count functions
  pub stages_return : StagesReturn functions
  pub sink_returns : SinkReturns n.own.sink
  pub link_returns : LinkReturns n.link

module _ {W : Type 0} where
  depart_by-Ends :
      (link : Option (Link W)) (sink : Option (SinkFn W)) (msg : Message) (env : Env W)
      → SinkReturns sink
      → LinkReturns link
      → (r : Option (ℕ × MessageView) × Env W) × (depart_by link sink msg env ≡ done r)
        × GoesTo link r.0
  depart_by-Ends none sink msg env h k =
      let (e, told) = run_sink-Ends sink msg env h in
      ((none, e), ap (map_exec λ e. (none, e)) told, tt)
  depart_by-Ends (some (connects j)) sink msg env h k = (_, refl, (connects j, refl, refl))
  depart_by-Ends (some (prefixes j prefix)) sink msg env h k =
      (_, refl, (prefixes j prefix, refl, refl))
  depart_by-Ends (some (remaps j remap)) sink msg env h k =
      let mv = as_view msg in
      let ((topic, w), told) = k mv.topic env.world in
      (
        (some (j, remapped topic mv), record env { world = w }),
        ap
            (λ m. (m >>= λ (topic, w'). done (remapped topic mv, w')) >>= λ (mv', w').
              done (some (j, mv'), record env { world = w' }))
            told,
        (remaps j remap, refl, refl),
      )

module _ {S W : Type 0} where
  depart-Ends :
      (n : Node S W) (end : Option Message × Env W)
      → NodeReturns n
      → (r : Option (ℕ × MessageView) × Env W) × (depart n end ≡ done r) × GoesTo n.link r.0
  depart-Ends n (none, env) ret = (_, refl, tt)
  depart-Ends n (some msg, env) ret =
      depart_by-Ends n.link n.own.sink msg env ret.sink_returns ret.link_returns

  -- A message that is passed comes to an end, or is emitted into the target of the link.
  pub pass-Ends :
      (n : Node S W) (env : Env W) (mv : MessageView)
      → NodeReturns n
      → (r : Option (ℕ × MessageView) × Env W) × (pass n env mv ≡ done r) × GoesTo n.link r.0
  unfolding pass
  pass-Ends n env mv ret =
      let stored = from_view n.own.config (default_message n.own.config) mv in
      elim (Bool-cases (has_value stored.0)) [
        | inl e ↦
            let (end, told) =
              run_stages-Ends ret.functions n.own.stage_count 0 n.own.stages ret.holds.front
                ret.holds.counted ret.stages_return stored.1 env in
            let (r, gone, goes) = depart-Ends n end ret in
            (r, rw e (ap (λ m. m >>= depart n) told ∙ gone), goes)
        | inr e ↦ ((none, env), rw e refl, tt)
      ]

-- Every pipeline returns, and the target of every link stands in the network.
pub record Closed {S W : Type 0} (net : Network S W) : Type 0 where
  pub returns : (i : ℕ) (n : Node S W) → get_elem? net i ≡ some n → NodeReturns n
  pub stands :
      (i : ℕ) (n : Node S W) (l : Link W)
      → get_elem? net i ≡ some n
      → n.link ≡ some l
      → target_of l < length net

module _ {S W : Type 0} where
  -- A property of the closures of the pipelines is kept by a write that leaves them.
  pub set-closures :
      (P : ℕ → Node S W → Type 0) (net : Network S W) (i : ℕ) (n x : Node S W)
      → get_elem? net i ≡ some n
      → (P i n → P i x)
      → ((j : ℕ) (m : Node S W) → get_elem? net j ≡ some m → P j m)
      → (j : ℕ) (m : Node S W) → get_elem? (set net i x) j ≡ some m
      → P j m
  set-closures P net i n x at keep all j m h = elim (get_elem?-set_cases net i j x m h) [
    | inl (e, k) ↦ subst (λ a. P a m) k (subst (P i) (sym e) (keep (all i n at)))
    | inr (apart, old) ↦ all j m old
  ]

  pub NodeReturns-with :
      (n : Node S W) (running : Bool) (l : Spinlock)
      → NodeReturns n
      → NodeReturns (record n { own = record n.own { running = running; stage_lock = l } })
  NodeReturns-with n running l ret = record {
    functions = ret.functions;
    holds = ret.holds;
    stages_return = ret.stages_return;
    sink_returns = ret.sink_returns;
    link_returns = ret.link_returns;
  }

  pub Closed-set :
      (net : Network S W) (i : ℕ) (n : Node S W) (running : Bool) (l : Spinlock)
      → get_elem? net i ≡ some n
      → Closed net
      → Closed (set net i (record n { own = record n.own { running = running; stage_lock = l } }))
  Closed-set net i n running l at closed =
      let x = record n { own = record n.own { running = running; stage_lock = l } } in
      record {
        returns =
            set-closures (λ j m. NodeReturns m) net i n x at (NodeReturns-with n running l)
              closed.returns;
        stands = λ j m k h e.
            subst (λ size. target_of k < size) (sym (length-set net i x))
              (set-closures (λ j m. (k : Link W) → m.link ≡ some k → target_of k < length net) net i
                n x at (λ f. f) (λ j m h k. closed.stands j m k h) j m h k e);
      }
