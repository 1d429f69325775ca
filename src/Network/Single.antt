-- ===== src/Network/Single.antt =====
-- A pipeline of a network whose sink emits into no other, and `emit` of
-- include/pipepp/core/pipeline.hpp on it alone.
use pipepp_core.Prelude.{
  ℕ, suc, ◌≡◌, refl, sym, ap, ◌∙◌, true, false, Option, none, some, get_elem?, set,
  get_elem?-set_at, set-set, inl, inr, Bool-cases, if◌then◌else◌,
}
use pipepp_core.Exec.{Exec, done, fault, deadlock, ◌>>=◌, map_exec, >>=-of_done, >>=_assoc, >>=-ext}
use pipepp_core.Expected.{has_value}
use pipepp_core.Message.{Message, MessageView, default_message, from_view}
use pipepp_core.Spinlock.{unlocked, unlock}
use pipepp_core.Pipeline.{Pipeline}
use pipepp_core.Pipeline.Emit.{Env, run_stages, finish, with_env, process_message, emit}
use pipepp_core.Network.{
  Node, Network, pass, depart, depart_by, world_env, with_lock, with_running, emit_at,
}
use pipepp_core.Network.Steps.{
  taken, lock-free, lock-held, node_at-some, pass_on, release_at, emit_at-held, emit_at-free,
}

module _ {S W : Type 0} where
  -- The network with another pipeline at `i`.
  abbrev pub own_at : Node S W → Network S W → ℕ → Pipeline S W × W → Network S W × W
  own_at n net i (p, w) = (set net i (record n { own = p }), w)

module _ {S W : Type 0} (n : Node S W) (alone : n.link ≡ none) where
  abbrev stops_here : Env W → Option (ℕ × MessageView) × Env W
  stops_here env = (none, env)

  depart-finish :
      (end : Option Message × Env W) → depart n end ≡ map_exec stops_here (finish n.own.sink end)
  depart-finish (none, env) = refl
  depart-finish (some msg, env) = ap (λ l. depart_by l n.own.sink msg env) alone

  -- `process_message`, told by what it does to the environment.
  abbrev processed : Env W → MessageView → Exec (Env W)
  processed env mv =
      let stored = from_view n.own.config (default_message n.own.config) mv in
      if has_value stored.0
      then (run_stages n.own.stage_count 0 n.own.stages stored.1 env >>= finish n.own.sink)
      else done env

  pass-processed :
      (env : Env W) (mv : MessageView) → pass n env mv ≡ map_exec stops_here (processed env mv)
  unfolding pass
  pass-processed env mv =
      let stored = from_view n.own.config (default_message n.own.config) mv in
      let staged = run_stages n.own.stage_count 0 n.own.stages stored.1 env in
      elim (Bool-cases (has_value stored.0)) [
        | inl e ↦
            rw e (>>=-ext staged _ _ depart-finish ∙ sym (>>=_assoc staged (finish n.own.sink) _))
        | inr e ↦ rw e refl
      ]

  process_message-processed :
      (w : W) (mv : MessageView)
      → let p = record n.own { stage_lock = taken } in
        process_message p w mv ≡ map_exec (with_env p) (processed (world_env n w) mv)
  unfolding process_message
  process_message-processed w mv =
      let stored = from_view n.own.config (default_message n.own.config) mv in
      let staged = run_stages n.own.stage_count 0 n.own.stages stored.1 (world_env n w) in
      elim (Bool-cases (has_value stored.0)) [
        | inl e ↦ rw e (sym (>>=_assoc staged (finish n.own.sink) _))
        | inr e ↦ rw e refl
      ]

  -- What the guard's destructor leaves.
  releases :
      (net : Network S W) (i : ℕ) (env : Env W)
      → get_elem? net i ≡ some n
      → release_at i (set net i (with_running (with_lock n taken) env), env.world)
        ≡ done (set net i (with_running (with_lock n unlocked) env), env.world)
  releases net i env at =
      let x = with_running (with_lock n taken) env in
      ap
        (λ m.
          map_exec (λ (k : Node S W). set (set net i x) i (with_lock k (unlock k.own.stage_lock))) m
          >>= λ net'. done (net', env.world))
        (node_at-some (set net i x) i (get_elem?-set_at net i x at))
      ∙ ap (λ net'. done (net', env.world)) (set-set net i x (with_lock x unlocked))

  emit-processed :
      (w : W) (mv : MessageView)
      → n.own.stage_lock.locked ≡ false
      → emit n.own w mv
        ≡ map_exec
            (with_env (record n.own { stage_lock = unlocked }))
            (processed (world_env n w) mv)
  unfolding emit
  emit-processed w mv free =
      >>=-of_done _ (lock-free n.own.stage_lock free)
      ∙ (ap (λ m. m >>= release) (process_message-processed w mv)
          ∙ >>=_assoc (processed (world_env n w) mv) _ release)
    where
      release : Pipeline S W × W → Exec (Pipeline S W × W)
      release (q, w') = done (record q { stage_lock = unlock q.stage_lock }, w')

  emit-held :
      (w : W) (mv : MessageView) → n.own.stage_lock.locked ≡ true → emit n.own w mv ≡ fault deadlock
  unfolding emit
  emit-held w mv held = rw (lock-held n.own.stage_lock held) refl

  -- `emit` on a pipeline of a network whose sink emits into no other is `emit` on it alone, which
  -- leaves the others as they were.
  pub emit_at-emit :
      (depth : ℕ) (net : Network S W) (i : ℕ) (w : W) (mv : MessageView)
      → get_elem? net i ≡ some n
      → emit_at (suc depth) net i w mv ≡ map_exec (own_at n net i) (emit n.own w mv)
  emit_at-emit depth net i w mv at = elim (Bool-cases n.own.stage_lock.locked) [
    | inl held ↦
        emit_at-held depth net i w mv at held
        ∙ sym (ap (map_exec (own_at n net i)) (emit-held w mv held))
    | inr free ↦
        let env = world_env n w in
        emit_at-free depth net i w mv at free
        ∙ (ap (λ m. m >>= onward) (pass-processed env mv)
            ∙ (>>=_assoc (processed env mv) _ onward
                ∙ (>>=-ext (processed env mv) _ _ (λ e. releases net i e at)
                    ∙ (sym (>>=_assoc (processed env mv) _ (λ a. done (own_at n net i a)))
                        ∙ sym (ap (map_exec (own_at n net i)) (emit-processed w mv free))))))
  ]
    where
      onward : Option (ℕ × MessageView) × Env W → Exec (Network S W × W)
      onward r = pass_on depth (set net i (with_running (with_lock n taken) r.1)) r >>= release_at i
