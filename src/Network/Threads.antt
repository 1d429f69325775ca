-- ===== src/Network/Threads.antt =====
-- Threads that emit into the pipelines of a network (include/pipepp/core/pipeline.hpp and
-- connect_to.hpp): which locks they hold and wait for. What becomes of a message is left open, so
-- that at every pipeline it may be dropped, or be emitted into the target of the link.
pub mod Order
pub mod Progress
use pipepp_core.Prelude.{
  ℕ, ◌≡◌, Bool, true, false, Option, some, List, [], ◌∷◌, get_elem?, set, map,
}
use pipepp_core.Spinlock.{Spinlock, unlocked, exchange, unlock}
use pipepp_core.Network.{Link, target_of, Node, Network}

-- A thread, with the pipelines whose locks it holds, the last taken first, and those into which it
-- is still to emit.
pub data Thread : Type 0 where
  idle : List ℕ → Thread
  calling : ℕ → List ℕ → List ℕ → Thread  -- before `lock()` in `emit` on the first
  working : ℕ → List ℕ → List ℕ → Thread  -- in `process_message` on the first, whose lock it holds
  leaving : List ℕ → List ℕ → Thread  -- out of `process_message` on the first that it holds

pub record System : Type 0 where
  pub locks : List Spinlock
  pub threads : List Thread

module _ {S W : Type 0} (net : Network S W) where
  -- Nobody has begun, and all locks are free.
  abbrev pub start : List (List ℕ) → System
  start queues = record { locks = map (λ n. unlocked) net; threads = map idle queues }

  -- A step of one thread that gets it further.
  pub data Move (s : System) : System → Type 0 where
    begins :
        (i a : ℕ) (jobs : List ℕ)
        → get_elem? s.threads i ≡ some (idle (a ∷ jobs))
        → Move s (record s { threads = set s.threads i (calling a [] jobs) })
    takes :
        (i a : ℕ) (held jobs : List ℕ) (l : Spinlock)
        → get_elem? s.threads i ≡ some (calling a held jobs)
        → get_elem? s.locks a ≡ some l
        → (exchange l).0 ≡ false
        → Move s (record {
          locks = set s.locks a (exchange l).1;
          threads = set s.threads i (working a held jobs);
        })
    passes_on :
        (i a : ℕ) (held jobs : List ℕ) (n : Node S W) (l : Link W)
        → get_elem? s.threads i ≡ some (working a held jobs)
        → get_elem? net a ≡ some n
        → n.link ≡ some l
        → Move s (record s { threads = set s.threads i (calling (target_of l) (a ∷ held) jobs) })
    returns :
        (i a : ℕ) (held jobs : List ℕ)
        → get_elem? s.threads i ≡ some (working a held jobs)
        → Move s (record s { threads = set s.threads i (leaving (a ∷ held) jobs) })
    releases :
        (i a : ℕ) (held jobs : List ℕ) (l : Spinlock)
        → get_elem? s.threads i ≡ some (leaving (a ∷ held) jobs)
        → get_elem? s.locks a ≡ some l
        → Move s (record {
          locks = set s.locks a (unlock l);
          threads = set s.threads i (leaving held jobs);
        })
    ends :
        (i : ℕ) (jobs : List ℕ)
        → get_elem? s.threads i ≡ some (leaving [] jobs)
        → Move s (record s { threads = set s.threads i (idle jobs) })

  -- A step of one thread: a move, or an exchange that finds the lock taken.
  pub data Step (s : System) : System → Type 0 where
    moves : {t : System} → Move s t → Step s t
    spins :
        (i a : ℕ) (held jobs : List ℕ) (l : Spinlock)
        → get_elem? s.threads i ≡ some (calling a held jobs)
        → get_elem? s.locks a ≡ some l
        → (exchange l).0 ≡ true
        → Step s (record s { locks = set s.locks a (exchange l).1 })

  pub data Reach (s : System) : System → Type 0 where
    here : Reach s s
    next : {t u : System} → Reach s t → Step t u → Reach s u
