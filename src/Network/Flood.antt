-- ===== src/Network/Flood.antt =====
-- Messages in networks of include/pipepp/core/connect_to.hpp in which no connection leads back, told
-- without locks.
use pipepp_core.Prelude.{
  ℕ, zero, suc, ◌<◌, ◌≤◌, ◌≡◌, ◌≢◌, refl, sym, ap, ◌∙◌, Bool, Option, none, some, length, get_elem?,
  set, length-set, get_elem?-set_ne, set-set_comm, arith, subst,
}
use pipepp_core.Exec.{done, map_exec, >>=-of_done}
use pipepp_core.Message.{MessageView}
use pipepp_core.Spinlock.{Spinlock, unlocked}
use pipepp_core.Pipeline.Emit.{Env}
use pipepp_core.Network.{Link, target_of, Node, Network, world_env, with_running, flood}
use pipepp_core.Network.Steps.{stands_at, flood_on, flood-step}
use pipepp_core.Network.Links.{Closed, Closed-set, GoesTo, pass-Ends, set-closures}

module _ {S W : Type 0} where
  -- The result of a call with another pipeline put at `i`.
  abbrev pub put : ℕ → Node S W → Network S W × W → Network S W × W
  put i x (net, w) = (set net i x, w)

module _ {S W : Type 0} (rank : ℕ → ℕ) where
  -- Every link leads to a pipeline of a lower rank, so that none leads back.
  abbrev pub IsRanked : Network S W → Type 0
  IsRanked net =
      (i : ℕ) (n : Node S W) (l : Link W)
      → get_elem? net i ≡ some n
      → n.link ≡ some l
      → rank (target_of l) < rank i

  -- The locks below a rank are free.
  abbrev pub FreeBelow : ℕ → Network S W → Type 0
  FreeBelow r net =
      (i : ℕ) (n : Node S W) → get_elem? net i ≡ some n → rank i < r → n.own.stage_lock ≡ unlocked

  pub IsRanked-set :
      (net : Network S W) (i : ℕ) (n : Node S W) (running : Bool) (l : Spinlock)
      → get_elem? net i ≡ some n
      → IsRanked net
      → IsRanked (set net i (record n { own = record n.own { running = running; stage_lock = l } }))
  IsRanked-set net i n running l at ranked j m k h e =
      set-closures (λ a b. (k : Link W) → b.link ≡ some k → rank (target_of k) < rank a) net i n
        (record n { own = record n.own { running = running; stage_lock = l } }) at (λ f. f)
        (λ a b h k. ranked a b k h) j m h k e

  pub FreeBelow-set :
      (r : ℕ) (net : Network S W) (i : ℕ) (x : Node S W)
      → r ≤ rank i
      → FreeBelow r net
      → FreeBelow r (set net i x)
  FreeBelow-set r net i x high free j m h low =
      free j m (sym (get_elem?-set_ne net i j x (λ e. absurd (omega (arith, ap rank e)))) ∙ h) low

  -- What one call passes on, in a ranked network: to a pipeline of a lower rank that stands.
  pub goes_lower :
      (net : Network S W) (i : ℕ) (n : Node S W) (o : ℕ × MessageView)
      → get_elem? net i ≡ some n
      → Closed net
      → IsRanked net
      → GoesTo n.link (some o)
      → (o.0 < length net) × (rank o.0 < rank i)
  goes_lower net i n (j, mv) at closed ranked (l, e, k) = (
    subst (λ a. a < length net) k (closed.stands i n l at e),
    subst (λ a. rank a < rank i) k (ranked i n l at e),
  )

  frame_on :
      (depth : ℕ) (net : Network S W) (i : ℕ) (x : Node S W) (r : Option (ℕ × MessageView) × Env W)
      → ((o : ℕ × MessageView)
          → r.0 ≡ some o
          → flood depth (set net i x) o.0 r.1.world o.1
            ≡ map_exec (put i x) (flood depth net o.0 r.1.world o.1))
      → flood_on depth (set net i x) r ≡ map_exec (put i x) (flood_on depth net r)
  frame_on depth net i x (none, env) ih = refl
  frame_on depth net i x (some o, env) ih = ih o refl

  -- Nothing of a pipeline of a higher rank is looked at or changed.
  pub flood_frame :
      (depth : ℕ) (net : Network S W) (i j : ℕ) (x : Node S W) (w : W) (mv : MessageView)
      → Closed net
      → IsRanked net
      → j < length net
      → rank j < rank i
      → flood depth (set net i x) j w mv ≡ map_exec (put i x) (flood depth net j w mv)
  unfolding flood
  flood_frame zero net i j x w mv closed ranked h low = refl
  flood_frame (suc depth) net i j x w mv closed ranked h low =
      let (n, at) = stands_at net j h in
      let apart : i ≢ j = λ e. absurd (omega (arith, ap rank e)) in
      let (r, told, goes) = pass-Ends n (world_env n w) mv (closed.returns j n at) in
      let y = with_running n r.1 in
      flood-step depth (set net i x) j w mv (get_elem?-set_ne net i j x apart ∙ at)
      ∙ (>>=-of_done _ told
          ∙ (ap (λ m. flood_on depth m r) (set-set_comm net i j x y apart)
              ∙ (frame_on depth (set net j y) i x r (λ o e.
                    let (inside, lower) =
                      goes_lower net j n o at closed ranked (subst (GoesTo n.link) e goes) in
                    flood_frame depth (set net j y) i o.0 x r.1.world o.1
                      (Closed-set net j n r.1.running n.own.stage_lock at closed)
                      (IsRanked-set net j n r.1.running n.own.stage_lock at ranked)
                      (omega (arith, length-set net j y)) (omega arith))
                  ∙ ap (map_exec (put i x))
                      (sym (flood-step depth net j w mv at ∙ >>=-of_done _ told)))))

  -- A message that is passed on by the pipeline at `i` ends, whatever stands at `i`.
  lands :
      (depth : ℕ) (net : Network S W) (i : ℕ) (r : Option (ℕ × MessageView) × Env W)
      → ((o : ℕ × MessageView)
          → r.0 ≡ some o
          → (x : Node S W)
          → flood depth (set net i x) o.0 r.1.world o.1
            ≡ map_exec (put i x) (flood depth net o.0 r.1.world o.1))
      → ((o : ℕ × MessageView)
          → r.0 ≡ some o
          → (m : Network S W × W) × (flood depth net o.0 r.1.world o.1 ≡ done m)
            × (length m.0 ≡ length net))
      → (m : Network S W × W) × (length m.0 ≡ length net)
        × ((x : Node S W) → flood_on depth (set net i x) r ≡ done (put i x m))
  lands depth net i (none, env) frame ih = ((net, env.world), refl, λ x. refl)
  lands depth net i (some o, env) frame ih =
      let (m, told, same) = ih o refl in
      (m, same, λ x. frame o refl x ∙ ap (map_exec (put i x)) told)

  pub lands_lower :
      (depth : ℕ) (net : Network S W) (i : ℕ) (n : Node S W) (r : Option (ℕ × MessageView) × Env W)
      → get_elem? net i ≡ some n
      → Closed net
      → IsRanked net
      → GoesTo n.link r.0
      → ((j : ℕ) (w : W) (mv : MessageView)
          → j < length net
          → rank j < rank i
          → (m : Network S W × W) × (flood depth net j w mv ≡ done m) × (length m.0 ≡ length net))
      → (m : Network S W × W) × (length m.0 ≡ length net)
        × ((x : Node S W) → flood_on depth (set net i x) r ≡ done (put i x m))
  lands_lower depth net i n r at closed ranked goes ih =
      let lower = λ (o : ℕ × MessageView) (e : r.0 ≡ some o).
        goes_lower net i n o at closed ranked (subst (GoesTo n.link) e goes) in
      lands depth net i r
        (λ o e x.
          flood_frame depth net i o.0 x r.1.world o.1 closed ranked (lower o e).0 (lower o e).1)
        (λ o e. ih o.0 r.1.world o.1 (lower o e).0 (lower o e).1)

  pub flood-Ends :
      (depth : ℕ) (net : Network S W) (i : ℕ) (w : W) (mv : MessageView)
      → Closed net
      → IsRanked net
      → i < length net
      → rank i < depth
      → (m : Network S W × W) × (flood depth net i w mv ≡ done m) × (length m.0 ≡ length net)
  flood-Ends zero net i w mv closed ranked h low = absurd (omega arith)
  flood-Ends (suc depth) net i w mv closed ranked h low =
      let (n, at) = stands_at net i h in
      let (r, told, goes) = pass-Ends n (world_env n w) mv (closed.returns i n at) in
      let x = with_running n r.1 in
      let (m, same, all) =
        lands_lower depth net i n r at closed ranked goes
          λ j w' mv' k l. flood-Ends depth net j w' mv' closed ranked k (omega arith) in
      (
        put i x m,
        flood-step depth net i w mv at ∙ (>>=-of_done _ told ∙ all x),
        length-set m.0 i x ∙ same,
      )
