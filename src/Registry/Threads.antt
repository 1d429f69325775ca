-- ===== src/Registry/Threads.antt =====
-- include/pipepp/core/source_registry.hpp under several threads: `register_scheme` stores an entry in
-- three steps behind the load of `count_`, and `create` and `has_scheme` load `count_` and go through
-- the entries. The steps of the threads come in any order; a store of a scheme or a factory is one
-- step.
pub mod Entries
pub mod Invariant
pub mod Lookups
pub mod Races
pub mod Steps
use pipepp_core.Prelude.{
  ℕ, suc, ◌<◌, ◌≤◌, ◌≡◌, Bool, true, false, Option, none, some, List, [], ◌∷◌, ◌++◌, ltb, get_elem?,
  set, if◌then◌else◌,
}
use pipepp_core.FixedString.{FixedString, equal_view}
use pipepp_core.Registry.{Factory, Entry, Registry, entry_at}

-- A thread that registers: what its calls returned, and what is left to register. Within a call it
-- has `idx`, and what is to be stored there.
pub data Writer (A W : Type 0) : Type 0 where
  idle : List Bool → List (FixedString × Factory A W) → Writer A W
  loaded : ℕ → FixedString → Factory A W → List Bool → List (FixedString × Factory A W) → Writer A W
  scheme_stored :
      ℕ → FixedString → Factory A W → List Bool → List (FixedString × Factory A W) → Writer A W
  factory_stored :
      ℕ → FixedString → Factory A W → List Bool → List (FixedString × Factory A W) → Writer A W

-- A lookup: before the load of `count_`; at entry `i` of `count`; or at its end, with the factory of
-- the entry that was found.
pub data Reader (A W : Type 0) : Type 0 where
  asking : List ℕ → Reader A W
  looking : List ℕ → ℕ → ℕ → Reader A W
  answered : List ℕ → ℕ → Option (Option (Factory A W)) → Reader A W

pub record System (A W : Type 0) : Type 0 where
  pub registry : Registry A W
  pub writers : List (Writer A W)
  pub readers : List (Reader A W)

module _ {A W : Type 0} where
  -- `idx >= Config::max_schemes`
  abbrev pub guarded :
      Registry A W
      → FixedString
      → Factory A W
      → List Bool
      → List (FixedString × Factory A W)
      → Writer A W
  guarded r s f results queue =
      if ltb r.count r.config.max_schemes
      then loaded r.count s f results queue
      else idle (results ++ false ∷ []) queue

  -- `entries_[idx].scheme = scheme` and `entries_[idx].factory = …`
  abbrev pub store_scheme : Registry A W → ℕ → FixedString → Registry A W
  store_scheme r idx s = record r {
    entries =
        set r.entries idx (record (entry_at r.config (get_elem? r.entries idx)) { scheme = s });
  }

  abbrev pub store_factory : Registry A W → ℕ → Factory A W → Registry A W
  store_factory r idx f = record r {
    entries =
        set r.entries idx
          (record (entry_at r.config (get_elem? r.entries idx)) { factory = some f });
  }

  -- The comparison at entry `i`
  abbrev pub looked : Registry A W → List ℕ → ℕ → ℕ → Reader A W
  looked r scheme count i =
      let e = entry_at r.config (get_elem? r.entries i) in
      if equal_view e.scheme scheme
      then answered scheme count (some e.factory)
      else looking scheme count (suc i)

  pub data Step (x : System A W) : System A W → Type 0 where
    loads :
        (j : ℕ) (s : FixedString) (f : Factory A W) (results : List Bool)
        (queue : List (FixedString × Factory A W))
        → get_elem? x.writers j ≡ some (idle results ((s, f) ∷ queue))
        → Step x (record x { writers = set x.writers j (guarded x.registry s f results queue) })
    stores_scheme :
        (j idx : ℕ) (s : FixedString) (f : Factory A W) (results : List Bool)
        (queue : List (FixedString × Factory A W))
        → get_elem? x.writers j ≡ some (loaded idx s f results queue)
        → Step x (record x {
          registry = store_scheme x.registry idx s;
          writers = set x.writers j (scheme_stored idx s f results queue);
        })
    stores_factory :
        (j idx : ℕ) (s : FixedString) (f : Factory A W) (results : List Bool)
        (queue : List (FixedString × Factory A W))
        → get_elem? x.writers j ≡ some (scheme_stored idx s f results queue)
        → Step x (record x {
          registry = store_factory x.registry idx f;
          writers = set x.writers j (factory_stored idx s f results queue);
        })
    publishes :
        (j idx : ℕ) (s : FixedString) (f : Factory A W) (results : List Bool)
        (queue : List (FixedString × Factory A W))
        → get_elem? x.writers j ≡ some (factory_stored idx s f results queue)
        → Step x (record x {
          registry = record x.registry { count = suc idx };
          writers = set x.writers j (idle (results ++ true ∷ []) queue);
        })
    reads_count :
        (j : ℕ) (scheme : List ℕ)
        → get_elem? x.readers j ≡ some (asking scheme)
        → Step x (record x { readers = set x.readers j (looking scheme x.registry.count 0) })
    looks :
        (j : ℕ) (scheme : List ℕ) (count i : ℕ)
        → get_elem? x.readers j ≡ some (looking scheme count i)
        → i < count
        → Step x (record x { readers = set x.readers j (looked x.registry scheme count i) })
    gives_up :
        (j : ℕ) (scheme : List ℕ) (count i : ℕ)
        → get_elem? x.readers j ≡ some (looking scheme count i)
        → count ≤ i
        → Step x (record x { readers = set x.readers j (answered scheme count none) })

  pub data Reach (x : System A W) : System A W → Type 0 where
    here : Reach x x
    next : {y z : System A W} → Reach x y → Step y z → Reach x z
