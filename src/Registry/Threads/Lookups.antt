-- ===== src/Registry/Threads/Lookups.antt =====
-- Lookups in a registry of include/pipepp/core/source_registry.hpp while one thread registers.
use pipepp_core.Prelude.{
  ℕ, zero, suc, ◌+◌, ◌≤◌, ◌≡◌, ◌≢◌, refl, sym, ◌∙◌, Option, none, some, List, [], ◌∷◌, get_elem?,
  map, subst, arith, length-replicate,
}
use pipepp_core.Config.{Config}
use pipepp_core.FixedString.{FixedString}
use pipepp_core.Registry.{Factory, Registry, find_entry, new_registry}
use pipepp_core.Registry.Threads.Entries.{find_entry-Complete}
use pipepp_core.Registry.Threads.Invariant.{ReaderFine, Fine}
use pipepp_core.Registry.Threads.Steps.{Step-Fine}
use pipepp_core.Registry.Threads.{idle, Reader, asking, answered, System, Reach, here, next}

module _ {A W : Type 0} where
  -- A new registry, one thread that registers, and threads that look schemes up.
  abbrev pub beginning : Config → List (FixedString × Factory A W) → List (List ℕ) → System A W
  beginning c queue schemes = record {
    registry = new_registry c;
    writers = idle [] queue ∷ [];
    readers = map asking schemes;
  }

  asking-Fine :
      (r : Registry A W) (schemes : List (List ℕ)) (j : ℕ) (rd : Reader A W)
      → get_elem? (map asking schemes) j ≡ some rd
      → ReaderFine r rd
  asking-Fine r [] j rd h = cc
  asking-Fine r (s ∷ schemes) zero rd h =
      let k : asking s ≡ rd = ground arith in subst (ReaderFine r) k tt
  asking-Fine r (s ∷ schemes) (suc j) rd h = asking-Fine r schemes j rd h

  Reach-Fine :
      (c : Config) (queue : List (FixedString × Factory A W)) (schemes : List (List ℕ))
      (x : System A W)
      → Reach (beginning c queue schemes) x
      → Fine x
  Reach-Fine c queue schemes _ here = record {
    writer = idle [] queue;
    one = refl;
    room = length-replicate c.max_schemes _;
    writes = tt;
    complete = λ i h. absurd (omega arith);
    reads = asking-Fine (new_registry c) schemes;
  }
  Reach-Fine c queue schemes x (next {y = y} r st) =
      Step-Fine y x (Reach-Fine c queue schemes y r) st

  -- While one thread registers schemes in a new registry, lookups by any number of threads, in
  -- whatever order the steps come, answer as one that is undisturbed in the entries that were counted
  -- when they began, and never with an entry whose factory is not set, so that none of them calls a
  -- null function.
  pub lookups :
      (c : Config) (queue : List (FixedString × Factory A W)) (schemes : List (List ℕ))
      (x : System A W) (j : ℕ) (scheme : List ℕ) (count : ℕ) (o : Option (Option (Factory A W)))
      → Reach (beginning c queue schemes) x
      → get_elem? x.readers j ≡ some (answered scheme count o)
      → (count ≤ x.registry.count)
        × (o ≡ find_entry x.registry.config count 0 x.registry.entries scheme)
        × (o ≢ some none)
  lookups c queue schemes x j scheme count o r h =
      let fine = Reach-Fine c queue schemes x r in
      let (p, same) = fine.reads j _ h in
      (
        p,
        same,
        λ e.
            find_entry-Complete x.registry.config count 0 x.registry.entries scheme
              (λ k l.
                let start : 0 + k ≡ k = omega arith in rw start (fine.complete k (omega arith)))
              (sym same ∙ e),
      )
