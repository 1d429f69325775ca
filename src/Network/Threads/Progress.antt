-- ===== src/Network/Threads/Progress.antt =====
-- How far threads can get that emit into a network of include/pipepp/core/connect_to.hpp in which no
-- connection leads back.
use pipepp_core.Prelude.{
  ℕ, zero, suc, ◌+◌, ◌*◌, ◌<◌, ◌≤◌, ◌≡◌, refl, ap, ◌⊎◌, inl, inr, some, List, [], ◌∷◌, length,
  get_elem?, set, Bool-cases, arith,
}
use pipepp_core.Spinlock.{Spinlock}
use pipepp_core.Network.{target_of, Network}
use pipepp_core.Network.Links.{Closed}
use pipepp_core.Network.Flood.{IsRanked}
use pipepp_core.Network.Threads.{
  Thread, idle, calling, working, leaving, System, start, Move, begins, takes, passes_on, returns,
  releases, ends, Step, moves, spins, Reach, here, next,
}
use pipepp_core.Network.Threads.Order.{
  locks_of, Among, Above, Descends, Ordered, AllStand, start-Ordered, Step-Ordered, Reach-Ordered,
}

-- All threads are through.
abbrev pub Finished : List Thread → Type 0
Finished [] = Unit {0}
Finished (idle [] ∷ ts) = Finished ts
Finished (_ ∷ ts) = ⊥

abbrev HasWork : Thread → Type 0
HasWork (idle []) = ⊥
HasWork _ = Unit {0}

finished_or_work :
    (ts : List Thread)
    → Finished ts ⊎ ((i : ℕ) × (t : Thread) × (get_elem? ts i ≡ some t) × HasWork t)
finished_or_work [] = inl tt
finished_or_work (idle (a ∷ jobs) ∷ ts) = inr (0, _, refl, tt)
finished_or_work (calling a held jobs ∷ ts) = inr (0, _, refl, tt)
finished_or_work (working a held jobs ∷ ts) = inr (0, _, refl, tt)
finished_or_work (leaving held jobs ∷ ts) = inr (0, _, refl, tt)
finished_or_work (idle [] ∷ ts) = elim (finished_or_work ts) [
  | inl f ↦ inl f
  | inr (i, t, at, work) ↦ inr (suc i, t, at, work)
]

lock_at : (ls : List Spinlock) (a : ℕ) → a < length ls → (l : Spinlock) × (get_elem? ls a ≡ some l)
lock_at [] a h = elim h [ ]
lock_at (l ∷ ls) zero h = (l, refl)
lock_at (l ∷ ls) (suc a) h = lock_at ls a (omega arith)

module _ (rank : ℕ → ℕ) where
  -- The lock that a thread waits for, if it does, has a rank below `r`.
  abbrev Low : ℕ → Thread → Type 0
  Low r (calling a held jobs) = rank a < r
  Low r _ = Unit {0}

  Above-Among : (held : List ℕ) (r a : ℕ) → Above rank r held → Among a held → r < rank a
  Above-Among [] r a h m = elim m [ ]
  Above-Among (b ∷ held) r a (low, h) (inl e) = omega (arith, ap rank e)
  Above-Among (b ∷ held) r a (low, h) (inr m) = Above-Among held r a h m

  -- The holder of a lock has work, and waits, if at all, for a lock of a lower rank.
  Holder-Low :
      (size r a : ℕ) (t : Thread)
      → Among a (locks_of t)
      → Descends rank size t
      → rank a < suc r
      → HasWork t × Low r t
  Holder-Low size r a (idle jobs) m d h = elim m [ ]
  Holder-Low size r a (calling b held jobs) m d h =
      (tt, omega (arith, Above-Among held (rank b) a d.1 m))
  Holder-Low size r a (working b held jobs) m d h = (tt, tt)
  Holder-Low size r a (leaving held jobs) m d h = (tt, tt)

  module _ {S W : Type 0} (net : Network S W) where
    -- Some thread gets further, if one has work: it, or who holds the lock that it waits for.
    progress :
        (r : ℕ) (s : System) (i : ℕ) (t : Thread)
        → Ordered rank (length net) s
        → get_elem? s.threads i ≡ some t
        → HasWork t
        → Low r t
        → (u : System) × Move net s u
    progress r s i (idle []) o at work low = elim work [ ]
    progress r s i (idle (a ∷ jobs)) o at work low = (_, begins i a jobs at)
    progress r s i (working a held jobs) o at work low = (_, returns i a held jobs at)
    progress r s i (leaving [] jobs) o at work low = (_, ends i jobs at)
    progress r s i (leaving (a ∷ held) jobs) o at work low =
        let d = o.descends i _ at in
        let (l, found) = lock_at s.locks a (omega (arith, o.room, d.0.0)) in
        (_, releases i a held jobs l at found)
    progress zero s i (calling a held jobs) o at work low = absurd (omega arith)
    progress (suc r) s i (calling a held jobs) o at work low =
        let d = o.descends i _ at in
        let (l, found) = lock_at s.locks a (omega (arith, o.room, d.0)) in
        elim (Bool-cases l.locked) [
          | inl locked ↦
              let (j, u, at_j, m) = o.holder a l found locked in
              let (work', low') = Holder-Low (length net) r a u m (o.descends j u at_j) low in
              progress r s j u o at_j work' low'
          | inr free ↦ (_, takes i a held jobs l at found free)
        ]

  -- What is left to do, in moves, at most.
  abbrev pub jobs_work : List ℕ → ℕ
  jobs_work [] = 0
  jobs_work (a ∷ jobs) = 3 * rank a + 5 + jobs_work jobs

  abbrev pub thread_work : Thread → ℕ
  thread_work (idle jobs) = jobs_work jobs
  thread_work (calling a held jobs) = 3 * rank a + 4 + length held + jobs_work jobs
  thread_work (working a held jobs) = 3 * rank a + 3 + length held + jobs_work jobs
  thread_work (leaving held jobs) = 1 + length held + jobs_work jobs

  abbrev pub work : List Thread → ℕ
  work [] = 0
  work (t ∷ ts) = thread_work t + work ts

  work-set :
      (ts : List Thread) (i : ℕ) (x y : Thread)
      → get_elem? ts i ≡ some x
      → work (set ts i y) + thread_work x ≡ work ts + thread_work y
  work-set [] i x y h = cc
  work-set (t ∷ ts) zero x y h =
      let e : thread_work t ≡ thread_work x = ap thread_work (ground arith) in omega (arith, e)
  work-set (t ∷ ts) (suc i) x y h = omega (arith, work-set ts i x y h)

  module _ {S W : Type 0} (net : Network S W) (closed : Closed net)
      (ranked : IsRanked rank net) where
    Move-work : (s t : System) → Move net s t → suc (work t.threads) ≤ work s.threads
    Move-work s _ (begins i a jobs at) =
        omega (arith, work-set s.threads i _ (calling a [] jobs) at)
    Move-work s _ (takes i a held jobs l at found free) =
        omega (arith, work-set s.threads i _ (working a held jobs) at)
    Move-work s _ (passes_on i a held jobs n l at stands linked) = omega (
      arith,
      work-set s.threads i _ (calling (target_of l) (a ∷ held) jobs) at,
      ranked a n l stands linked,
    )
    Move-work s _ (returns i a held jobs at) =
        omega (arith, work-set s.threads i _ (leaving (a ∷ held) jobs) at)
    Move-work s _ (releases i a held jobs l at found) =
        omega (arith, work-set s.threads i _ (leaving held jobs) at)
    Move-work s _ (ends i jobs at) = omega (arith, work-set s.threads i _ (idle jobs) at)

    Reach-first : {s u t : System} → Step net s u → Reach net u t → Reach net s t
    Reach-first st here = next here st
    Reach-first st (next r st') = next (Reach-first st r) st'

    awaited : Thread → ℕ
    awaited (calling a held jobs) = suc (rank a)
    awaited _ = 0

    Low-awaited : (t : Thread) → Low (awaited t) t
    unfolding awaited
    Low-awaited (idle jobs) = tt
    Low-awaited (calling a held jobs) = omega arith
    Low-awaited (working a held jobs) = tt
    Low-awaited (leaving held jobs) = tt

    can_finish :
        (fuel : ℕ) (s : System)
        → work s.threads ≤ fuel
        → Ordered rank (length net) s
        → (t : System) × Reach net s t × Finished t.threads
    can_finish zero s h o = elim (finished_or_work s.threads) [
      | inl f ↦ (s, here, f)
      | inr (i, t, at, busy) ↦
          let (u, m) = progress net (awaited t) s i t o at busy (Low-awaited t) in
          absurd (omega (arith, Move-work s u m))
    ]
    can_finish (suc fuel) s h o = elim (finished_or_work s.threads) [
      | inl f ↦ (s, here, f)
      | inr (i, t, at, busy) ↦
          let (u, m) = progress net (awaited t) s i t o at busy (Low-awaited t) in
          let (t', r, f) =
            can_finish fuel u (omega (arith, Move-work s u m))
              (Step-Ordered rank net closed ranked s u o (moves m)) in
          (t', Reach-first (moves m) r, f)
    ]

    -- The steps of an execution that are not vain exchanges.
    abbrev pub useful : {s t : System} → Reach net s t → ℕ
    useful here = 0
    useful (next r (moves m)) = suc (useful r)
    useful (next r (spins i a held jobs l at found locked)) = useful r

    useful-work : (s t : System) (r : Reach net s t) → useful r + work t.threads ≤ work s.threads
    useful-work s _ here = omega arith
    useful-work s t (next {t = u} r (moves m)) = omega (arith, useful-work s u r, Move-work u t m)
    useful-work s _ (next {t = u} r (spins i a held jobs l at found locked)) =
        omega (arith, useful-work s u r)

    -- Threads that emit into the pipelines of a ranked network of pipelines that return, in which the
    -- target of every link stands: whatever the order of their steps, those that are not vain
    -- exchanges are no more than five and three times the rank for each emission that was to be
    -- made, and from every state that the threads reach they can go on to one in which all of them
    -- are through, so that they never wait for one another in a circle.
    pub all_finish :
        (queues : List (List ℕ)) (s : System) (r : Reach net (start net queues) s)
        → AllStand (length net) queues
        → (useful r ≤ work (start net queues).threads)
          × (t : System) × Reach net s t
          × Finished t.threads
    all_finish queues s r h =
        let o = start-Ordered rank net queues h in
        let (t, on, f) =
          can_finish (work s.threads) s (omega arith)
            (Reach-Ordered rank net closed ranked _ s o r) in
        (omega (arith, useful-work _ s r), t, on, f)
