-- ===== src/Network/Threads/Order.antt =====
-- The order in which threads take the locks of a network of include/pipepp/core/connect_to.hpp in
-- which no connection leads back.
use pipepp_core.Prelude.{
  ℕ, zero, suc, ◌<◌, ◌≤◌, ◌≡◌, ◌≢◌, refl, sym, ap, ◌∙◌, ◌⊎◌, inl, inr, true, some, List, [], ◌∷◌,
  length, get_elem?, set, map, length-set, get_elem?-set_ne, get_elem?-set_at, get_elem?-set_cases,
  Bool-cases, ◌==◌, ==_iff, arith, subst,
}
use pipepp_core.Spinlock.{Spinlock, unlocked}
use pipepp_core.Network.{target_of, Network}
use pipepp_core.Network.Links.{Closed}
use pipepp_core.Network.Flood.{IsRanked}
use pipepp_core.Network.Threads.{
  Thread, idle, calling, working, leaving, System, start, Move, begins, takes, passes_on, returns,
  releases, ends, Step, moves, spins, Reach, here, next,
}

-- The locks that a thread holds.
abbrev pub locks_of : Thread → List ℕ
locks_of (idle jobs) = []
locks_of (calling a held jobs) = held
locks_of (working a held jobs) = a ∷ held
locks_of (leaving held jobs) = held

abbrev pub Among : ℕ → List ℕ → Type 0
Among a [] = ⊥
Among a (b ∷ bs) = (a ≡ b) ⊎ Among a bs

-- All of them stand in a network of that size.
abbrev pub Stand : ℕ → List ℕ → Type 0
Stand size [] = Unit {0}
Stand size (a ∷ rest) = (a < size) × Stand size rest

abbrev pub AllStand : ℕ → List (List ℕ) → Type 0
AllStand size [] = Unit {0}
AllStand size (jobs ∷ queues) = Stand size jobs × AllStand size queues

module _ (rank : ℕ → ℕ) where
  abbrev pub Above : ℕ → List ℕ → Type 0
  Above r [] = Unit {0}
  Above r (a ∷ rest) = (r < rank a) × Above r rest

  Above-mono : (xs : List ℕ) (r r' : ℕ) → r ≤ r' → Above r' xs → Above r xs
  Above-mono [] r r' h k = tt
  Above-mono (a ∷ rest) r r' h (low, k) = (omega arith, Above-mono rest r r' h k)

  -- A thread waits for a lock of a lower rank than it holds.
  abbrev pub Descends : ℕ → Thread → Type 0
  Descends size (idle jobs) = Stand size jobs
  Descends size (calling a held jobs) =
      (a < size) × Above (rank a) held × Stand size held × Stand size jobs
  Descends size (working a held jobs) =
      (a < size) × Above (rank a) held × Stand size held × Stand size jobs
  Descends size (leaving held jobs) = Stand size held × Stand size jobs

  -- Whoever finds a lock taken finds it with a thread.
  pub record Ordered (size : ℕ) (s : System) : Type 0 where
    pub room : length s.locks ≡ size
    pub holder :
        (a : ℕ) (l : Spinlock)
        → get_elem? s.locks a ≡ some l
        → l.locked ≡ true
        → (j : ℕ) × (t : Thread) × (get_elem? s.threads j ≡ some t) × Among a (locks_of t)
    pub descends : (j : ℕ) (t : Thread) → get_elem? s.threads j ≡ some t → Descends size t

  -- Whoever holds a lock still holds it after a step of a thread that keeps it.
  abbrev Holder : ℕ → List Thread → Type 0
  Holder a ts = (j : ℕ) × (t : Thread) × (get_elem? ts j ≡ some t) × Among a (locks_of t)

  Holder-set :
      (ts : List Thread) (i : ℕ) (t t' : Thread) (a : ℕ)
      → get_elem? ts i ≡ some t
      → (Among a (locks_of t) → Among a (locks_of t'))
      → Holder a ts
      → Holder a (set ts i t')
  Holder-set ts i t t' a at keep (j, u, at_j, m) = elim (Bool-cases (i == j)) [
    | inl e ↦
        let same : i ≡ j = (==_iff i j).0 e in
        let k : some u ≡ some t = sym at_j ∙ (ap (get_elem? ts) (sym same) ∙ at) in
        let u_t : u ≡ t = ground arith in
        (i, t', get_elem?-set_at ts i t' at, keep (subst (λ v. Among a (locks_of v)) u_t m))
    | inr e ↦
        let apart : i ≢ j = λ same. absurd (ground (arith, (==_iff i j).1 same)) in
        (j, u, get_elem?-set_ne ts i j t' apart ∙ at_j, m)
  ]

  Descends-set :
      (size : ℕ) (ts : List Thread) (i : ℕ) (t' : Thread)
      → Descends size t'
      → ((j : ℕ) (t : Thread) → get_elem? ts j ≡ some t → Descends size t)
      → (j : ℕ) (t : Thread) → get_elem? (set ts i t') j ≡ some t
      → Descends size t
  Descends-set size ts i t' new all j t h = elim (get_elem?-set_cases ts i j t' t h) [
    | inl (e, _) ↦ subst (Descends size) (sym e) new
    | inr (_, old) ↦ all j t old
  ]

  -- A step of a thread that changes no lock.
  moved :
      (size : ℕ) (s : System) (i : ℕ) (t t' : Thread)
      → Ordered size s
      → get_elem? s.threads i ≡ some t
      → ((a : ℕ) → Among a (locks_of t) → Among a (locks_of t'))
      → Descends size t'
      → Ordered size (record s { threads = set s.threads i t' })
  moved size s i t t' o at keep new = record {
    room = o.room;
    holder = λ a l h k. Holder-set s.threads i t t' a at (keep a) (o.holder a l h k);
    descends = Descends-set size s.threads i t' new o.descends;
  }

  -- Nobody holds a lock at the start.
  module _ {S W : Type 0} where
    free_locks :
        (net : Network S W) (a : ℕ) (l : Spinlock)
        → get_elem? (map (λ n. unlocked) net) a ≡ some l
        → l.locked ≡ true
        → ⊥
    free_locks [] a l h k = cc
    free_locks (n ∷ net) zero l h k =
        let e : unlocked ≡ l = ground arith in cc (ap (λ (x : Spinlock). x.locked) e)
    free_locks (n ∷ net) (suc a) l h k = free_locks net a l h k

    length-locks : (net : Network S W) → length (map (λ n. unlocked) net) ≡ length net
    length-locks [] = refl
    length-locks (n ∷ net) = ap suc (length-locks net)

  idle-Descends :
      (size : ℕ) (queues : List (List ℕ)) (j : ℕ) (t : Thread)
      → AllStand size queues
      → get_elem? (map idle queues) j ≡ some t
      → Descends size t
  idle-Descends size [] j t h k = cc
  idle-Descends size (jobs ∷ queues) zero t h k =
      let e : idle jobs ≡ t = ground arith in subst (Descends size) e h.0
  idle-Descends size (jobs ∷ queues) (suc j) t h k = idle-Descends size queues j t h.1 k

  pub start-Ordered :
      {S W : Type 0} (net : Network S W) (queues : List (List ℕ))
      → AllStand (length net) queues
      → Ordered (length net) (start net queues)
  start-Ordered net queues h = record {
    room = length-locks net;
    holder = λ a l at k. absurd (free_locks net a l at k);
    descends = λ j t at. idle-Descends (length net) queues j t h at;
  }

  module _ {S W : Type 0} (net : Network S W) (closed : Closed net)
      (ranked : IsRanked rank net) where
    pub Move-Ordered :
        (s t : System) → Ordered (length net) s → Move net s t → Ordered (length net) t
    Move-Ordered s _ o (begins i a jobs at) =
        let d = o.descends i _ at in moved (length net) s i _ _ o at (λ b m. m) (d.0, tt, tt, d.1)
    Move-Ordered s _ o (takes i a held jobs l at free found) =
        let d = o.descends i _ at in
        let t' = working a held jobs in
        record {
          room = length-set s.locks a _ ∙ o.room;
          holder = λ b k h locked. elim (get_elem?-set_cases s.locks a b _ k h) [
            | inl (_, e) ↦ (i, t', get_elem?-set_at s.threads i t' at, inl (sym e))
            | inr (_, old) ↦ Holder-set s.threads i _ t' b at (λ m. inr m) (o.holder b k old locked)
          ];
          descends = Descends-set (length net) s.threads i t' d o.descends;
        }
    Move-Ordered s _ o (passes_on i a held jobs n l at stands linked) =
        let d = o.descends i _ at in
        let lower : rank (target_of l) < rank a = ranked a n l stands linked in
        moved (length net) s i _ _ o at (λ b m. m)
          (
            closed.stands a n l stands linked,
            (lower, Above-mono held (rank (target_of l)) (rank a) (omega arith) d.1),
            (d.0, d.2),
            d.3,
          )
    Move-Ordered s _ o (returns i a held jobs at) =
        let d = o.descends i _ at in moved (length net) s i _ _ o at (λ b m. m) ((d.0, d.2), d.3)
    Move-Ordered s _ o (releases i a held jobs l at found) =
        let d = o.descends i _ at in
        let t' = leaving held jobs in
        record {
          room = length-set s.locks a _ ∙ o.room;
          holder = λ b k h locked. elim (get_elem?-set_cases s.locks a b _ k h) [
            | inl (e, _) ↦ absurd (cc (ap (λ (x : Spinlock). x.locked) e))
            | inr (apart, old) ↦
                Holder-set s.threads i _ t' b at
                  (λ m. elim m [ inl e ↦ absurd (apart (sym e)) | inr r ↦ r ])
                  (o.holder b k old locked)
          ];
          descends = Descends-set (length net) s.threads i t' (d.0.1, d.1) o.descends;
        }
    Move-Ordered s _ o (ends i jobs at) =
        let d = o.descends i _ at in moved (length net) s i _ _ o at (λ b m. m) d.1

    pub Step-Ordered :
        (s t : System) → Ordered (length net) s → Step net s t → Ordered (length net) t
    Step-Ordered s t o (moves m) = Move-Ordered s t o m
    Step-Ordered s _ o (spins i a held jobs l at found locked) = record {
      room = length-set s.locks a _ ∙ o.room;
      holder = λ b k h now. elim (get_elem?-set_cases s.locks a b _ k h) [
        | inl (_, e) ↦ subst (λ c. Holder c s.threads) e (o.holder a l found locked)
        | inr (_, old) ↦ o.holder b k old now
      ];
      descends = o.descends;
    }

    pub Reach-Ordered :
        (s t : System) → Ordered (length net) s → Reach net s t → Ordered (length net) t
    Reach-Ordered s _ o here = o
    Reach-Ordered s t o (next {t = u} r st) = Step-Ordered u t (Reach-Ordered s u o r) st
