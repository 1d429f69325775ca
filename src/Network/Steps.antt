-- ===== src/Network/Steps.antt =====
-- One call of `emit` of include/pipepp/core/pipeline.hpp on a pipeline of a network.
use pipepp_core.Prelude.{
  ℕ, zero, suc, ◌<◌, ◌≡◌, refl, ap, ◌∙◌, true, false, Option, none, some, [], ◌∷◌, length,
  get_elem?, set, arith,
}
use pipepp_core.Exec.{
  Exec, done, fault, deadlock, ◌>>=◌, if_of_true, if_of_false, >>=-ext, >>=-of_done,
}
use pipepp_core.Message.{MessageView}
use pipepp_core.Spinlock.{Spinlock, lock}
use pipepp_core.Pipeline.Emit.{Env}
use pipepp_core.Network.{
  Node, Network, node_at, unlock_at, pass, world_env, with_lock, with_running, emit_at, flood,
}

abbrev pub taken : Spinlock
taken = record { locked = true }

pub lock-free : (l : Spinlock) → l.locked ≡ false → lock l ≡ done taken
unfolding lock
lock-free l e = if_of_false _ _ e

pub lock-held : (l : Spinlock) → l.locked ≡ true → lock l ≡ fault deadlock
unfolding lock
lock-held l e = if_of_true _ _ e

module _ {S W : Type 0} where
  pub stands_at :
      (net : Network S W) (i : ℕ) → i < length net → (n : Node S W) × (get_elem? net i ≡ some n)
  stands_at [] i h = elim h [ ]
  stands_at (n ∷ net) zero h = (n, refl)
  stands_at (n ∷ net) (suc i) h = stands_at net i (omega arith)

  pub node_at-some :
      (net : Network S W) (i : ℕ) {n : Node S W} → get_elem? net i ≡ some n → node_at net i ≡ done n
  unfolding node_at
  node_at-some net i at = rw (at, node_at) refl

  -- What a call does with a message that leaves its pipeline, or does not.
  abbrev pub pass_on : ℕ → Network S W → Option (ℕ × MessageView) × Env W → Exec (Network S W × W)
  pass_on depth net (none, env) = done (net, env.world)
  pass_on depth net (some (j, mv), env) = emit_at depth net j env.world mv

  abbrev pub flood_on : ℕ → Network S W → Option (ℕ × MessageView) × Env W → Exec (Network S W × W)
  flood_on depth net (none, env) = done (net, env.world)
  flood_on depth net (some (j, mv), env) = flood depth net j env.world mv

  -- The destructor of the guard.
  abbrev pub release_at : ℕ → Network S W × W → Exec (Network S W × W)
  release_at i (net, w) = unlock_at net i >>= λ net'. done (net', w)

  module _ (depth : ℕ) (net : Network S W) (i : ℕ) (w : W) (mv : MessageView) {n : Node S W}
      (at : get_elem? net i ≡ some n) where
    pub emit_at-held :
        n.own.stage_lock.locked ≡ true → emit_at (suc depth) net i w mv ≡ fault deadlock
    unfolding emit_at lock
    emit_at-held held = rw (node_at-some net i at) (rw (held, lock) refl)

    pub emit_at-free :
        n.own.stage_lock.locked ≡ false
        → emit_at (suc depth) net i w mv ≡ (
            pass n (world_env n w) mv >>= λ r.
            pass_on depth (set net i (with_running (with_lock n taken) r.1)) r >>= release_at i)
    unfolding emit_at
    emit_at-free free = rw (node_at-some net i at) (
        >>=-of_done _ (lock-free n.own.stage_lock free)
        ∙ >>=-ext (pass n (world_env n w) mv) _ _ λ r. ap (λ m. m >>= release_at i) (go r.0 r.1))
      where
        go :
            (onward : Option (ℕ × MessageView)) (env : Env W)
            → ◌≡◌ {A = Exec (Network S W × W)}
                (elim onward [
                  | none ↦ done (set net i (with_running (with_lock n taken) env), env.world)
                  | some (j, mv') ↦
                      emit_at depth
                        (set net i (with_running (with_lock n taken) env))
                        j
                        env.world
                        mv'
                ])
                (pass_on depth (set net i (with_running (with_lock n taken) env)) (onward, env))
        go none env = refl
        go (some x) env = refl

    pub flood-step :
        flood (suc depth) net i w mv
        ≡ (pass n (world_env n w) mv >>= λ r. flood_on depth (set net i (with_running n r.1)) r)
    unfolding flood
    flood-step =
        rw (node_at-some net i at) (>>=-ext (pass n (world_env n w) mv) _ _ λ r. go r.0 r.1)
      where
        go :
            (onward : Option (ℕ × MessageView)) (env : Env W)
            → ◌≡◌ {A = Exec (Network S W × W)}
                (elim onward [
                  | none ↦ done (set net i (with_running n env), env.world)
                  | some (j, mv') ↦ flood depth (set net i (with_running n env)) j env.world mv'
                ])
                (flood_on depth (set net i (with_running n env)) (onward, env))
        go none env = refl
        go (some x) env = refl
