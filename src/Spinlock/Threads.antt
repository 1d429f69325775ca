-- ===== src/Spinlock/Threads.antt =====
-- include/pipepp/core/spinlock.hpp and `emit` of pipeline.hpp under several threads: each thread
-- takes the lock, runs a section, and releases the lock, again and again, and the steps of the
-- threads come in any order. A section is a message with the stages and the sink that it passes.
pub mod Serial
pub mod Taken
pub mod Finish
use pipepp_core.Prelude.{
  ℕ, ◌≡◌, ◌≢◌, Bool, true, false, Option, none, some, List, [], ◌∷◌, ◌++◌, get_elem?, set,
}
use pipepp_core.Spinlock.{Spinlock, exchange, unlock}

-- A stage or the sink: what becomes of the thread's own message, `none` to leave the section, and
-- of what the threads share.
abbrev pub Action : Type 0 → Type 0 → Type 0
Action M V = M → V → Option M × V

pub record Section (M V : Type 0) : Type 0 where
  pub msg : M
  pub actions : List (Action M V)

-- A thread: before `lock()`, or behind it with what is left of its section; then further jobs, of
-- which each has a section.
pub data Thread (J M V : Type 0) : Type 0 where
  waiting : List J → Thread J M V
  inside : M → List (Action M V) → List J → Thread J M V

-- `started` lists the jobs in the order in which the lock was taken for them.
pub record System (J M V : Type 0) : Type 0 where
  pub lock : Spinlock
  pub threads : List (Thread J M V)
  pub shared : V
  pub started : List J

module _ {M V : Type 0} where
  -- A section alone, from its start to its end.
  abbrev pub run_actions : List (Action M V) → M → V → V
  run_actions [] m v = v
  run_actions (a ∷ rest) m v =
      let (kept, v') = a m v in elim kept [ none ↦ v' | some m' ↦ run_actions rest m' v' ]

module _ {J M V : Type 0} where
  -- What an action leaves of a section: a dropped message returns from it.
  abbrev pub after : Option M → M → List (Action M V) → List J → Thread J M V
  after (some m') m rest jobs = inside m' rest jobs
  after none m rest jobs = inside m [] jobs

  -- No thread of the list is inside, or none but the one at `i`.
  abbrev pub NoneInside : List (Thread J M V) → Type 0
  NoneInside ts =
      (j : ℕ) (m : M) (rest : List (Action M V)) (jobs : List J)
      → get_elem? ts j ≢ some (inside m rest jobs)

  abbrev pub OnlyInside : ℕ → List (Thread J M V) → Type 0
  OnlyInside i ts =
      (j : ℕ) (m : M) (rest : List (Action M V)) (jobs : List J)
      → get_elem? ts j ≡ some (inside m rest jobs)
      → j ≡ i

module _ {J M V : Type 0} (section : J → Section M V) where
  -- The sections alone, one after the other.
  abbrev pub run_sections : List J → V → V
  run_sections [] v = v
  run_sections (job ∷ jobs) v =
      run_sections jobs (run_actions (section job).actions (section job).msg v)

  -- A step of one thread that gets it further: the exchange that finds the lock free, an action, and
  -- the store of `unlock()`.
  pub data Move (s : System J M V) : System J M V → Type 0 where
    acquires :
        (i : ℕ) (job : J) (jobs : List J)
        → get_elem? s.threads i ≡ some (waiting (job ∷ jobs))
        → (exchange s.lock).0 ≡ false
        → Move s (record s {
          lock = (exchange s.lock).1;
          threads = set s.threads i (inside (section job).msg (section job).actions jobs);
          started = s.started ++ job ∷ [];
        })
    acts :
        (i : ℕ) (m : M) (a : Action M V) (rest : List (Action M V)) (jobs : List J)
        → get_elem? s.threads i ≡ some (inside m (a ∷ rest) jobs)
        → Move s (record s {
          threads = set s.threads i (after (a m s.shared).0 m rest jobs);
          shared = (a m s.shared).1;
        })
    releases :
        (i : ℕ) (m : M) (jobs : List J)
        → get_elem? s.threads i ≡ some (inside m [] jobs)
        → Move s (record s { lock = unlock s.lock; threads = set s.threads i (waiting jobs) })

  -- A step of one thread: a move, or an exchange that finds the lock taken.
  pub data Step (s : System J M V) : System J M V → Type 0 where
    moves : {t : System J M V} → Move s t → Step s t
    spins :
        (i : ℕ) (job : J) (jobs : List J)
        → get_elem? s.threads i ≡ some (waiting (job ∷ jobs))
        → (exchange s.lock).0 ≡ true
        → Step s (record s { lock = (exchange s.lock).1 })

  pub data Reach (s : System J M V) : System J M V → Type 0 where
    here : Reach s s
    next : {t u : System J M V} → Reach s t → Step t u → Reach s u
