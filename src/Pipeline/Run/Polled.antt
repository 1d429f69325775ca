-- ===== src/Pipeline/Run/Polled.antt =====
-- include/pipepp/core/pipeline.hpp: a caller's own loop over `poll_once`, and the loop of
-- `event_loop`.
use pipepp_core.Prelude.{
  ℕ, zero, suc, ◌≡◌, ◌↔◌, refl, ap, ◌∙◌, sym, Bool, true, false, Bool-cases, inl, inr, not, ◌&&◌,
  replicate, if◌then◌else◌,
}
use pipepp_core.Exec.{
  Exec, done, fault, unfinished, ◌>>=◌, >>=_assoc, >>=-mono, if_of_true, if_of_false,
}
use pipepp_core.Source.{BusSource}
use pipepp_core.Pipeline.{Pipeline}
use pipepp_core.Pipeline.Emit.{emit_all}
use pipepp_core.Pipeline.Run.{poll_loop, poll_once}

module _ {S W : Type 0} (bus : BusSource S) where
  -- `while (pipe.poll_once()) {}`, for at most `n` calls
  unfoldable pub drive : ℕ → Pipeline S W → W → Exec (Pipeline S W × W)
  unfolding poll_once
  drive zero p w = fault unfinished
  drive (suc n) p w = do
    (again, q, w') ← poll_once bus p w
    if again then drive n q w' else done (q, w')

  -- The condition of both loops, and a call of `poll_once` when it holds and when not.
  abbrev goes_on : Pipeline S W → Bool
  goes_on p = p.running && bus.is_connected p.source

  abbrev polled : Pipeline S W → W → Exec (Pipeline S W × W)
  polled p w = emit_all (record p { source = (bus.poll p.source).1 }) w (bus.poll p.source).0

  poll_loop-polled :
      (n : ℕ) (p : Pipeline S W) (w : W)
      → goes_on p ≡ true
      → poll_loop bus (replicate (suc n) false) p w
        ≡ (polled p w >>= λ (q, w'). poll_loop bus (replicate n false) q w')
  unfolding poll_loop
  poll_loop-polled n p w e = if_of_true _ _ e

  poll_loop-over :
      (n : ℕ) (p : Pipeline S W) (w : W)
      → goes_on p ≡ false
      → poll_loop bus (replicate (suc n) false) p w ≡ done (p, w)
  unfolding poll_loop
  poll_loop-over n p w e = if_of_false _ _ e

  drive-polled :
      (n : ℕ) (p : Pipeline S W) (w : W)
      → goes_on p ≡ true
      → drive (suc n) p w
        ≡ (polled p w >>= λ (q, w'). if q.running then drive n q w' else done (q, w'))
  unfolding drive poll_once
  drive-polled n p w e =
      ap (λ m. m >>= λ (again, q, w'). if again then drive n q w' else done (q, w'))
        (if_of_false (done (false, p, w)) (polled p w >>= λ (q, w'). done (q.running, q, w'))
          (ap not e))
      ∙ >>=_assoc (polled p w) _ _

  drive-over :
      (n : ℕ) (p : Pipeline S W) (w : W) → goes_on p ≡ false → drive (suc n) p w ≡ done (p, w)
  unfolding drive poll_once
  drive-over n p w e =
      ap (λ m. m >>= λ (again, q, w'). if again then drive n q w' else done (q, w'))
        (if_of_true (done (false, p, w)) (polled p w >>= λ (q, w'). done (q.running, q, w'))
          (ap not e))

  stopped : (p : Pipeline S W) → p.running ≡ false → goes_on p ≡ false
  stopped p e = rw e refl

  module _ (r : Pipeline S W × W) where
    ended :
        (n : ℕ) (p : Pipeline S W) (w : W)
        → poll_loop bus (replicate n false) p w ≡ done r
        → p.running ≡ false
        → done (p, w) ≡ done r
    unfolding poll_loop
    ended zero p w h e = cc
    ended (suc n) p w h e = sym (poll_loop-over n p w (stopped p e)) ∙ h

    resume :
        (n : ℕ) (p : Pipeline S W) (w : W)
        → (poll_loop bus (replicate n false) p w ≡ done r → drive n p w ≡ done r)
        → poll_loop bus (replicate n false) p w ≡ done r
        → (if p.running then drive n p w else done (p, w)) ≡ done r
    resume n p w k h = elim (Bool-cases p.running) [
      | inl e ↦ if_of_true _ _ e ∙ k h
      | inr e ↦ if_of_false _ _ e ∙ ended n p w h e
    ]

    suspend :
        (n : ℕ) (p : Pipeline S W) (w : W)
        → (drive n p w ≡ done r → poll_loop bus (replicate (suc n) false) p w ≡ done r)
        → (if p.running then drive n p w else done (p, w)) ≡ done r
        → poll_loop bus (replicate (suc n) false) p w ≡ done r
    suspend n p w k h = elim (Bool-cases p.running) [
      | inl e ↦ k (sym (if_of_true _ _ e) ∙ h)
      | inr e ↦ poll_loop-over n p w (stopped p e) ∙ (sym (if_of_false _ _ e) ∙ h)
    ]

    drive_of_poll_loop :
        (n : ℕ) (p : Pipeline S W) (w : W)
        → poll_loop bus (replicate n false) p w ≡ done r
        → drive n p w ≡ done r
    unfolding poll_loop
    drive_of_poll_loop zero p w h = cc
    drive_of_poll_loop (suc n) p w h = elim (Bool-cases (goes_on p)) [
      | inl e ↦
          drive-polled n p w e
          ∙ >>=-mono (polled p w) _ _ (λ (q, w') k. resume n q w' (drive_of_poll_loop n q w') k)
              (sym (poll_loop-polled n p w e) ∙ h)
      | inr e ↦ drive-over n p w e ∙ (sym (poll_loop-over n p w e) ∙ h)
    ]

    poll_loop_of_drive :
        (n : ℕ) (p : Pipeline S W) (w : W)
        → drive n p w ≡ done r
        → poll_loop bus (replicate (suc n) false) p w ≡ done r
    unfolding drive
    poll_loop_of_drive zero p w h = cc
    poll_loop_of_drive (suc n) p w h = elim (Bool-cases (goes_on p)) [
      | inl e ↦
          poll_loop-polled (suc n) p w e
          ∙ >>=-mono (polled p w) _ _ (λ (q, w') k. suspend n q w' (poll_loop_of_drive n q w') k)
              (sym (drive-polled n p w e) ∙ h)
      | inr e ↦ poll_loop-over (suc n) p w e ∙ (sym (drive-over n p w e) ∙ h)
    ]

    -- Calls of `poll_once`, up to the first that answers no, end after some number of them with a
    -- pipeline and a world exactly if the loop of `run` ends with the same after some number of tests
    -- of its condition, while no other thread calls `stop()`.
    pub drive-poll_loop :
        (p : Pipeline S W) (w : W)
        → ((n : ℕ) × (drive n p w ≡ done r))
          ↔ ((n : ℕ) × (poll_loop bus (replicate n false) p w ≡ done r))
    drive-poll_loop p w =
        (λ (n, h). (suc n, poll_loop_of_drive n p w h), λ (n, h). (n, drive_of_poll_loop n p w h))
