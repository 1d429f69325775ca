-- ===== src/Network/Circles.antt =====
-- Connections of include/pipepp/core/connect_to.hpp that lead back to a pipeline that is processing a
-- message: to itself, or round a circle of any length.
use pipepp_core.Prelude.{
  ℕ, zero, suc, ◌<◌, ◌≡◌, refl, ap, ◌∙◌, true, some, [], length, get_elem?, set, length-set, arith,
  inl, inr, Bool-cases,
}
use pipepp_core.Exec.{done, fault, deadlock, ◌>>=◌, >>=-of_done}
use pipepp_core.Message.{MessageView}
use pipepp_core.Pipeline.Emit.{Env}
use pipepp_core.Pipeline.Emit.Flow.{fits}
use pipepp_core.Network.{Node, Network, pass, world_env, with_lock, with_running, emit_at}
use pipepp_core.Network.Steps.{taken, stands_at, release_at, emit_at-held, emit_at-free}
use pipepp_core.Network.Relays.{Relays, Relays-pass}
use pipepp_core.Network.Links.{set-closures}
use pipepp_core.Network.Depth.{free_locks, free_locks-set, free_locks-le}

module _ {S W : Type 0} (on : ℕ → Type 0) (good : MessageView → Type 0) where
  -- A pipeline that passes every good message on, to a pipeline on the circle.
  abbrev PassesOn : Node S W → Type 0
  PassesOn n =
      (env : Env W) (mv : MessageView)
      → good mv
      → (j : ℕ) × (mv' : MessageView) × (env' : Env W) × (pass n env mv
          ≡ done (some (j, mv'), env'))
        × on j
        × good mv'

  circle :
      (depth : ℕ) (net : Network S W) (i : ℕ) (w : W) (mv : MessageView)
      → ((j : ℕ) → on j → j < length net)
      → ((j : ℕ) (n : Node S W) → get_elem? net j ≡ some n → on j → PassesOn n)
      → on i
      → good mv
      → free_locks net < depth
      → emit_at depth net i w mv ≡ fault deadlock
  unfolding pass
  circle zero net i w mv inside all h g d = absurd (omega arith)
  circle (suc depth) net i w mv inside all h g d =
      let (n, at) = stands_at net i (inside i h) in
      elim (Bool-cases n.own.stage_lock.locked) [
        | inl held ↦ emit_at-held depth net i w mv at held
        | inr free ↦
            let (j, mv', env', told, k, g') = all i n at h (world_env n w) mv g in
            let x = with_running (with_lock n taken) env' in
            emit_at-free depth net i w mv at free
            ∙ (>>=-of_done _ told
                ∙ ap (λ m. m >>= release_at i)
                    (circle depth (set net i x) j env'.world mv'
                      (λ a b. omega (arith, inside a b, length-set net i x))
                      (set-closures (λ a m. on a → PassesOn m) net i n x at (λ f. f) all) k g'
                      (omega (arith, free_locks-set net i n x at free refl))))
      ]

-- Pipelines without stages that are connected in a circle, of any length, one included: a message
-- that fits all of them and is emitted into one goes round until it comes to a lock that its own
-- caller holds, where the call waits for ever.
pub circle-deadlock :
    {S W : Type 0} (on : ℕ → Type 0) (depth : ℕ) (net : Network S W) (i : ℕ) (w : W)
    (mv : MessageView)
    → ((j : ℕ) → on j → j < length net)
    → ((j : ℕ) (n : Node S W)
        → get_elem? net j ≡ some n
        → on j
        → (fits n.own.config mv ≡ true) × (k : ℕ) × Relays n k [] × on k)
    → on i
    → length net < depth
    → emit_at depth net i w mv ≡ fault deadlock
circle-deadlock {S} {W} on depth net i w mv inside all h d =
    circle on (λ v. v ≡ mv) depth net i w mv inside relays h refl (omega (arith, free_locks-le net))
  where
    relays :
        (j : ℕ) (n : Node S W)
        → get_elem? net j ≡ some n
        → on j
        → (env : Env W) (v : MessageView) → v ≡ mv
        → (k : ℕ) × (v' : MessageView) × (env' : Env W) × (pass n env v ≡ done (some (k, v'), env'))
          × on k
          × (v' ≡ mv)
    relays j n at h env v e =
        let (fit, k, r, back) = all j n at h in
        (k, mv, env, ap (pass n env) e ∙ Relays-pass n env mv k [] r fit, back, refl)
