-- ===== src/Spinlock/Threads/Finish.antt =====
-- How far threads under the lock of include/pipepp/core/spinlock.hpp can get, and what they have done
-- when they are through.
use pipepp_core.Prelude.{
  ℕ, zero, suc, ◌+◌, ◌≤◌, ◌≡◌, refl, sym, ap, ◌∙◌, subst, ◌⊎◌, inl, inr, false, Option, none, some,
  List, [], ◌∷◌, arith, length, get_elem?, set, map, replicate,
}
use pipepp_core.Spinlock.Threads.{
  Action, Section, Thread, waiting, inside, System, Move, acquires, acts, releases, Step, moves,
  spins, Reach, here, next, after, run_sections, NoneInside,
}
use pipepp_core.Spinlock.Threads.Serial.{
  start, Serial, Step-Serial, Reach-Serial, start-Serial, Serial-progress, HasWork, serialised,
}
use pipepp_core.Spinlock.Threads.Taken.{Takes, Takes-length, remaining, Finished, Reach-Takes}

module _ {J M V : Type 0} where
  Finished-NoneInside : (ts : List (Thread J M V)) → Finished ts → NoneInside ts
  Finished-NoneInside [] f j m rest jobs h = cc
  Finished-NoneInside (waiting [] ∷ ts) f zero m rest jobs h = cc
  Finished-NoneInside (waiting [] ∷ ts) f (suc j) m rest jobs h =
      Finished-NoneInside ts f j m rest jobs h
  Finished-NoneInside (waiting (job ∷ js) ∷ ts) f j m rest jobs h = elim f [ ]
  Finished-NoneInside (inside n r js ∷ ts) f j m rest jobs h = elim f [ ]

  Finished-remaining :
      (ts : List (Thread J M V)) → Finished ts → map remaining ts ≡ replicate (length ts) []
  Finished-remaining [] f = refl
  Finished-remaining (waiting [] ∷ ts) f = ap (◌∷◌ []) (Finished-remaining ts f)
  Finished-remaining (waiting (job ∷ js) ∷ ts) f = elim f [ ]
  Finished-remaining (inside n r js ∷ ts) f = elim f [ ]

  length-remaining : (ts : List (Thread J M V)) → length (map remaining ts) ≡ length ts
  length-remaining [] = refl
  length-remaining (t ∷ ts) = ap suc (length-remaining ts)

module _ {J M V : Type 0} (section : J → Section M V) where
  finished_or_work :
      (ts : List (Thread J M V))
      → Finished ts ⊎ ((i : ℕ) × (t : Thread J M V) × (get_elem? ts i ≡ some t) × HasWork section t)
  finished_or_work [] = inl tt
  finished_or_work (waiting (job ∷ js) ∷ ts) = inr (0, _, refl, tt)
  finished_or_work (inside m rest js ∷ ts) = inr (0, _, refl, tt)
  finished_or_work (waiting [] ∷ ts) = elim (finished_or_work ts) [
    | inl f ↦ inl f
    | inr (i, t, h, work) ↦ inr (suc i, t, h, work)
  ]

  -- What is left to do, in moves: for each job the exchange, the actions and the release.
  abbrev pub jobs_work : List J → ℕ
  jobs_work [] = 0
  jobs_work (job ∷ jobs) = suc (suc (length (section job).actions)) + jobs_work jobs

  abbrev pub thread_work : Thread J M V → ℕ
  thread_work (waiting jobs) = jobs_work jobs
  thread_work (inside m rest jobs) = suc (length rest) + jobs_work jobs

  abbrev pub work : List (Thread J M V) → ℕ
  work [] = 0
  work (t ∷ ts) = thread_work t + work ts

  work-set :
      (ts : List (Thread J M V)) (i : ℕ) (x y : Thread J M V)
      → get_elem? ts i ≡ some x
      → work (set ts i y) + thread_work x ≡ work ts + thread_work y
  work-set [] i x y h = cc
  work-set (t ∷ ts) zero x y h =
      let e : thread_work t ≡ thread_work x = ap thread_work (ground arith) in omega (arith, e)
  work-set (t ∷ ts) (suc i) x y h = omega (arith, work-set ts i x y h)

  after_work :
      (o : Option M) (m : M) (rest : List (Action M V)) (jobs : List J)
      → thread_work (after o m rest jobs) ≤ suc (length rest) + jobs_work jobs
  after_work none m rest jobs = omega arith
  after_work (some m') m rest jobs = omega arith

  Move-work : (s t : System J M V) → Move section s t → suc (work t.threads) ≤ work s.threads
  Move-work s _ (acquires i job jobs at free) =
      omega (arith, work-set s.threads i _ (inside (section job).msg (section job).actions jobs) at)
  Move-work s _ (acts i m a rest jobs at) = omega (
    arith,
    work-set s.threads i _ (after (a m s.shared).0 m rest jobs) at,
    after_work (a m s.shared).0 m rest jobs,
  )
  Move-work s _ (releases i m jobs at) = omega (arith, work-set s.threads i _ (waiting jobs) at)

  -- The steps of an execution that are not vain exchanges.
  abbrev pub useful : {s t : System J M V} → Reach section s t → ℕ
  useful here = 0
  useful (next r (moves m)) = suc (useful r)
  useful (next r (spins i job jobs at taken)) = useful r

  -- Whatever the order of their steps, threads have no more of them that are not vain exchanges than
  -- their sections have actions, and two for each job.
  pub useful-work :
      (queues : List (List J)) (v : V) (s : System J M V)
      (r : Reach section (start section queues v) s)
      → useful r + work s.threads ≤ work (start section queues v).threads
  useful-work queues v _ here = omega arith
  useful-work queues v s (next {t = u} r (moves m)) =
      omega (arith, useful-work queues v u r, Move-work u s m)
  useful-work queues v _ (next {t = u} r (spins i job jobs at taken)) =
      omega (arith, useful-work queues v u r)

  Reach-first : {s u t : System J M V} → Step section s u → Reach section u t → Reach section s t
  Reach-first st here = next here st
  Reach-first st (next r st') = next (Reach-first st r) st'

  can_finish :
      (fuel : ℕ) (v : V) (s : System J M V)
      → work s.threads ≤ fuel
      → Serial section v s
      → (t : System J M V) × Reach section s t × Finished t.threads
  can_finish zero v s h serial = elim (finished_or_work s.threads) [
    | inl f ↦ (s, here, f)
    | inr (i, t, at, busy) ↦
        let (u, m) = Serial-progress section v s i t serial at busy in
        absurd (omega (arith, Move-work s u m))
  ]
  can_finish (suc fuel) v s h serial = elim (finished_or_work s.threads) [
    | inl f ↦ (s, here, f)
    | inr (i, t, at, busy) ↦
        let (u, m) = Serial-progress section v s i t serial at busy in
        let (t', r, f) =
          can_finish fuel v u (omega (arith, Move-work s u m))
            (Step-Serial section v s u serial (moves m)) in
        (t', Reach-first (moves m) r, f)
  ]

  -- From every state that threads reach from a start they can go on to one in which all of them are
  -- through.
  pub finishes :
      (queues : List (List J)) (v : V) (s : System J M V)
      → Reach section (start section queues v) s
      → (t : System J M V) × Reach section s t × Finished t.threads
  finishes queues v s r =
      can_finish (work s.threads) v s (omega arith)
        (Reach-Serial section v _ s (start-Serial section queues v) r)

  Finished-free :
      (queues : List (List J)) (v : V) (s : System J M V)
      → Reach section (start section queues v) s
      → Finished s.threads
      → s.lock.locked ≡ false
  Finished-free queues v s r f =
      elim (Reach-Serial section v _ s (start-Serial section queues v) r) [
        | inl (free, _, _) ↦ free
        | inr held ↦ absurd (
            Finished-NoneInside s.threads f held.thread held.msg held.rest held.jobs held.is_inside)
      ]

  -- When all the threads are through, the lock is free, the lock has been taken for each job of each
  -- thread, for those of one thread in its order, and what they share is what the sections make of
  -- it that run alone in that order.
  pub all_served :
      (queues : List (List J)) (v : V) (s : System J M V)
      → Reach section (start section queues v) s
      → Finished s.threads
      → (s.lock.locked ≡ false)
        × Takes queues s.started (replicate (length queues) [])
        × (s.shared ≡ run_sections section s.started v)
  all_served queues v s r f =
      let free = Finished-free queues v s r f in
      let taken = Reach-Takes section queues v s r in
      let size : length s.threads ≡ length queues =
        sym (length-remaining s.threads) ∙ Takes-length taken in
      (
        free,
        subst (Takes queues s.started)
            (Finished-remaining s.threads f ∙ ap (λ n. replicate n []) size) taken,
        serialised section queues v s r free,
      )
