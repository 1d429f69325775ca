-- ===== src/Network/Depth.antt =====
-- How deep the calls of `emit` are nested that the sinks of include/pipepp/core/connect_to.hpp make.
use pipepp_core.Prelude.{
  ℕ, zero, suc, ◌<◌, ◌≤◌, ◌+◌, ◌≡◌, refl, sym, ap, ◌∙◌, true, false, Option, none, some, [], ◌∷◌,
  length, get_elem?, set, length-set, arith, inl, inr, ◌⊎◌, Bool-cases, if◌then◌else◌, subst,
}
use pipepp_core.Exec.{Exec, done, fault, deadlock, Ends, ◌>>=◌, map_exec, >>=-of_done}
use pipepp_core.Message.{MessageView}
use pipepp_core.Spinlock.{unlock}
use pipepp_core.Pipeline.Emit.{Env}
use pipepp_core.Network.{
  Link, target_of, Node, Network, world_env, with_lock, with_running, emit_at,
}
use pipepp_core.Network.Steps.{
  taken, stands_at, node_at-some, pass_on, release_at, emit_at-held, emit_at-free,
}
use pipepp_core.Network.Links.{Closed, Closed-set, GoesTo, pass-Ends}

module _ {S W : Type 0} where
  -- How many of the pipelines have a free lock.
  abbrev pub free_locks : Network S W → ℕ
  free_locks [] = 0
  free_locks (n ∷ net) = (if n.own.stage_lock.locked then 0 else 1) + free_locks net

  pub free_locks-le : (net : Network S W) → free_locks net ≤ length net
  free_locks-le [] = omega arith
  free_locks-le (n ∷ net) = ground (arith, free_locks-le net)

  pub free_locks-set :
      (net : Network S W) (i : ℕ) (n x : Node S W)
      → get_elem? net i ≡ some n
      → n.own.stage_lock.locked ≡ false
      → x.own.stage_lock.locked ≡ true
      → suc (free_locks (set net i x)) ≡ free_locks net
  free_locks-set [] i n x at free held = cc
  free_locks-set (m ∷ net) zero n x at free held =
      let same : m ≡ n = ground arith in
      let e : m.own.stage_lock.locked ≡ false = ap (λ k. k.own.stage_lock.locked) same ∙ free in
      rw (e, held) (omega arith)
  free_locks-set (m ∷ net) (suc i) n x at free held =
      omega (arith, free_locks-set net i n x at free held)

  -- A call that returns leaves as many pipelines as there were; else it waits for its own lock.
  abbrev EndsOrWaits : ℕ → Exec (Network S W × W) → Type 0
  EndsOrWaits size m =
      ((r : Network S W × W) × (m ≡ done r) × (length r.0 ≡ size)) ⊎ (m ≡ fault deadlock)

  unlocks :
      (net : Network S W) (i : ℕ) (w : W)
      → i < length net
      → EndsOrWaits (length net) (release_at i (net, w))
  unlocks net i w h =
      let (n, at) = stands_at net i h in
      inl (
        (_, w),
        ap
            (λ m.
              map_exec (λ (n : Node S W). set net i (with_lock n (unlock n.own.stage_lock))) m
              >>= λ net'. done (net', w))
            (node_at-some net i at),
        length-set net i _,
      )

  unlocks_after :
      (size i : ℕ) (m : Exec (Network S W × W))
      → i < size
      → EndsOrWaits size m
      → EndsOrWaits size (m >>= release_at i)
  unlocks_after size i m h (inl ((net, w), told, same)) =
      subst (EndsOrWaits size) (sym (>>=-of_done (release_at i) told)) (
        subst (λ k. EndsOrWaits k (release_at i (net, w))) same
          (unlocks net i w (omega (arith, same))))
  unlocks_after size i m h (inr waits) = inr (ap (λ n. n >>= release_at i) waits)

  goes_on :
      (depth : ℕ) (net : Network S W) (link : Option (Link W))
      (r : Option (ℕ × MessageView) × Env W)
      → ((j : ℕ) (w : W) (mv : MessageView)
          → j < length net
          → EndsOrWaits (length net) (emit_at depth net j w mv))
      → ((l : Link W) → link ≡ some l → target_of l < length net)
      → GoesTo link r.0
      → EndsOrWaits (length net) (pass_on depth net r)
  goes_on depth net link (none, env) ih inside goes = inl (_, refl, refl)
  goes_on depth net link (some (j, mv), env) ih inside (l, e, k) =
      ih j env.world mv (subst (λ a. a < length net) k (inside l e))

  nested :
      (depth : ℕ) (net : Network S W) (i : ℕ) (w : W) (mv : MessageView)
      → Closed net
      → i < length net
      → free_locks net < depth
      → EndsOrWaits (length net) (emit_at depth net i w mv)
  nested zero net i w mv closed h d = absurd (omega arith)
  nested (suc depth) net i w mv closed h d =
      let (n, at) = stands_at net i h in
      elim (Bool-cases n.own.stage_lock.locked) [
        | inl held ↦ inr (emit_at-held depth net i w mv at held)
        | inr free ↦
            let (r, told, goes) = pass-Ends n (world_env n w) mv (closed.returns i n at) in
            let x = with_running (with_lock n taken) r.1 in
            let net' = set net i x in
            let same : length net' ≡ length net = length-set net i x in
            let closed' : Closed net' = Closed-set net i n r.1.running taken at closed in
            let on : EndsOrWaits (length net') (pass_on depth net' r) =
              goes_on depth net' n.link r
                (λ j w' mv' k.
                  nested depth net' j w' mv' closed' k
                    (omega (arith, free_locks-set net i n x at free refl)))
                (λ l e. subst (λ size. target_of l < size) (sym same) (closed.stands i n l at e))
                goes in
            subst (EndsOrWaits (length net))
              (sym (emit_at-free depth net i w mv at free ∙ >>=-of_done _ told))
              (unlocks_after (length net) i (pass_on depth net' r) h
                (subst (λ size. EndsOrWaits size (pass_on depth net' r)) same on))
      ]

  -- In a network of pipelines that return, and in which the target of every link stands, `emit` on
  -- any of them ends, or it comes back to a lock that its caller holds, which is never released:
  -- calls are nested no deeper than there are pipelines, whatever the connections.
  pub emit_at-Ends :
      (depth : ℕ) (net : Network S W) (i : ℕ) (w : W) (mv : MessageView)
      → Closed net
      → i < length net
      → length net < depth
      → Ends (emit_at depth net i w mv) ⊎ (emit_at depth net i w mv ≡ fault deadlock)
  emit_at-Ends depth net i w mv closed h d =
      elim (nested depth net i w mv closed h (omega (arith, free_locks-le net))) [
        | inl (r, told, same) ↦ inl (r, told)
        | inr waits ↦ inr waits
      ]
