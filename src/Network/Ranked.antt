-- ===== src/Network/Ranked.antt =====
-- Networks of include/pipepp/core/connect_to.hpp in which no connection leads back.
use pipepp_core.Prelude.{
  ℕ, zero, suc, ◌<◌, ◌≡◌, refl, sym, ap, ◌∙◌, Option, none, some, length, set, length-set,
  get_elem?-set_self, set-set, arith, subst,
}
use pipepp_core.Exec.{done, Ends, ◌>>=◌, map_exec, >>=-of_done}
use pipepp_core.Message.{MessageView}
use pipepp_core.Spinlock.{unlocked, unlock}
use pipepp_core.Pipeline.Emit.{Env}
use pipepp_core.Network.{Node, Network, world_env, with_lock, with_running, emit_at, flood}
use pipepp_core.Network.Steps.{
  taken, stands_at, node_at-some, pass_on, flood_on, release_at, emit_at-free, flood-step,
}
use pipepp_core.Network.Links.{Closed, Closed-set, GoesTo, pass-Ends}
use pipepp_core.Network.Flood.{
  IsRanked, FreeBelow, put, IsRanked-set, FreeBelow-set, goes_lower, lands_lower, flood-Ends,
}

module _ {S W : Type 0} (rank : ℕ → ℕ) where
  pass_on-flood_on :
      (depth : ℕ) (net : Network S W) (r : Option (ℕ × MessageView) × Env W)
      → ((o : ℕ × MessageView)
          → r.0 ≡ some o
          → emit_at depth net o.0 r.1.world o.1 ≡ flood depth net o.0 r.1.world o.1)
      → pass_on depth net r ≡ flood_on depth net r
  pass_on-flood_on depth net (none, env) ih = refl
  pass_on-flood_on depth net (some o, env) ih = ih o refl

  -- The release of a lock that was free when it was taken.
  released :
      (net : Network S W) (i : ℕ) (n : Node S W) (env : Env W) (w : W)
      → i < length net
      → n.own.stage_lock ≡ unlocked
      → release_at i (put i (with_running (with_lock n taken) env) (net, w))
        ≡ done (put i (with_running n env) (net, w))
  released net i n env w h free =
      let held = with_running (with_lock n taken) env in
      ap
        (λ m.
          map_exec
            (λ (n : Node S W). set (set net i held) i (with_lock n (unlock n.own.stage_lock))) m
          >>= λ net'. done (net', w))
        (node_at-some (set net i held) i (get_elem?-set_self net i held h))
      ∙ (ap (λ net'. done (net', w)) (set-set net i held (with_lock held unlocked)) ∙ λ k.
          done (set net i (with_running (with_lock n (sym free k)) env), w))

  -- In a ranked network of pipelines that return, in which the target of every link stands and the
  -- locks of the ranks in question are free, `emit` does what is done without locks, and ends.
  pub emit_at-flood :
      (depth : ℕ) (net : Network S W) (i : ℕ) (w : W) (mv : MessageView)
      → Closed net
      → IsRanked rank net
      → FreeBelow rank (suc (rank i)) net
      → i < length net
      → rank i < depth
      → (emit_at depth net i w mv ≡ flood depth net i w mv) × Ends (flood depth net i w mv)
  emit_at-flood zero net i w mv closed ranked free h low = absurd (omega arith)
  emit_at-flood (suc depth) net i w mv closed ranked free h low =
      let (n, at) = stands_at net i h in
      let unheld = free i n at (omega arith) in
      let (r, told, goes) = pass-Ends n (world_env n w) mv (closed.returns i n at) in
      let held = with_running (with_lock n taken) r.1 in
      let (m, same, all) =
        lands_lower rank depth net i n r at closed ranked goes
          λ j w' mv' k l. flood-Ends rank depth net j w' mv' closed ranked k (omega arith) in
      let nested : pass_on depth (set net i held) r ≡ flood_on depth (set net i held) r =
        pass_on-flood_on depth (set net i held) r λ o e.
          let (inside, lower) =
            goes_lower rank net i n o at closed ranked (subst (GoesTo n.link) e goes) in
          (emit_at-flood depth (set net i held) o.0 r.1.world o.1
            (Closed-set net i n r.1.running taken at closed)
            (IsRanked-set rank net i n r.1.running taken at ranked)
            (FreeBelow-set rank (suc (rank o.0)) net i held (omega arith)
              (λ a b k l. free a b k (omega arith)))
            (omega (arith, length-set net i held)) (omega arith)).0 in
      let whole : flood (suc depth) net i w mv ≡ done (put i (with_running n r.1) m) =
        flood-step depth net i w mv at ∙ (>>=-of_done _ told ∙ all (with_running n r.1)) in
      (
        emit_at-free depth net i w mv at (ap (λ l. l.locked) unheld)
            ∙ (>>=-of_done _ told
                ∙ (ap (λ k. k >>= release_at i) (nested ∙ all held)
                    ∙ (released m.0 i n r.1 m.1 (omega (arith, same)) unheld ∙ sym whole))),
        (_, whole),
      )
