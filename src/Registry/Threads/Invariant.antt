-- ===== src/Registry/Threads/Invariant.antt =====
-- The registry of include/pipepp/core/source_registry.hpp between the steps of one thread that
-- registers and of any that look up.
use pipepp_core.Prelude.{
  ℕ, zero, suc, ◌<◌, ◌≤◌, ◌≡◌, ◌≢◌, refl, sym, ap, ◌∙◌, inl, inr, Bool, none, some, List, [], ◌∷◌,
  ltb, length, get_elem?, set, get_elem?-set_ne, subst, Bool-cases, arith, tests,
}
use pipepp_core.Config.{Config}
use pipepp_core.Exec.{if_of_true, if_of_false}
use pipepp_core.FixedString.{FixedString, equal_view}
use pipepp_core.Registry.{Factory, Entry, Registry, entry_at, find_entry}
use pipepp_core.Registry.Threads.Entries.{
  Complete, find_entry-last, find_entry-found, find_entry-set,
}
use pipepp_core.Registry.Threads.{
  Writer, idle, loaded, scheme_stored, factory_stored, Reader, asking, looking, answered, System,
  guarded, looked,
}

module _ {A W : Type 0} where
  -- What a lookup knows of the entries below its count.
  abbrev pub ReaderFine : Registry A W → Reader A W → Type 0
  ReaderFine r (asking scheme) = Unit {0}
  ReaderFine r (looking scheme count i) =
      (count ≤ r.count) × (i ≤ count) × (find_entry r.config i 0 r.entries scheme ≡ none)
  ReaderFine r (answered scheme count o) =
      (count ≤ r.count) × (o ≡ find_entry r.config count 0 r.entries scheme)

  -- The entry that a call of `register_scheme` fills is the first that is not counted.
  abbrev pub WriterFine : Registry A W → Writer A W → Type 0
  WriterFine r (idle results queue) = Unit {0}
  WriterFine r (loaded idx s f results queue) = (idx ≡ r.count) × (idx < length r.entries)
  WriterFine r (scheme_stored idx s f results queue) = (idx ≡ r.count) × (idx < length r.entries)
  WriterFine r (factory_stored idx s f results queue) =
      (idx ≡ r.count) × ((entry_at r.config (get_elem? r.entries idx)).factory ≡ some f)

  pub record Fine (x : System A W) : Type 0 where
    pub writer : Writer A W
    pub one : x.writers ≡ writer ∷ []
    pub room : length x.registry.entries ≡ x.registry.config.max_schemes
    pub writes : WriterFine x.registry writer
    pub complete : Complete x.registry.config x.registry.count x.registry.entries
    pub reads :
        (j : ℕ) (rd : Reader A W) → get_elem? x.readers j ≡ some rd → ReaderFine x.registry rd

  -- The first of one is that one.
  pub the_writer :
      (xs : List (Writer A W)) (w v : Writer A W) (j : ℕ)
      → xs ≡ w ∷ []
      → get_elem? xs j ≡ some v
      → (w ≡ v) × ((u : Writer A W) → set xs j u ≡ u ∷ [])
  the_writer xs w v zero e h =
      let k : get_elem? (w ∷ []) 0 ≡ some v = ap (λ ys. get_elem? ys 0) (sym e) ∙ h in
      (ground arith, λ u. ap (λ ys. set ys 0 u) e)
  the_writer xs w v (suc j) e h =
      let k : get_elem? (w ∷ []) (suc j) ≡ some v = ap (λ ys. get_elem? ys (suc j)) (sym e) ∙ h in
      cc

  -- An entry that is not counted may change.
  pub reader_keeps :
      (r : Registry A W) (idx n : ℕ) (e : Entry A W) (rd : Reader A W)
      → r.count ≤ idx
      → r.count ≤ n
      → ReaderFine r rd
      → ReaderFine (record r { entries = set r.entries idx e; count = n }) rd
  reader_keeps r idx n e (asking scheme) h k fine = tt
  reader_keeps r idx n e (looking scheme count i) h k (p, q, unseen) =
      (omega arith, q, find_entry-set r.config i 0 idx r.entries e scheme (omega arith) ∙ unseen)
  reader_keeps r idx n e (answered scheme count o) h k (p, same) = (
    omega arith,
    same ∙ sym (find_entry-set r.config count 0 idx r.entries e scheme (omega arith)),
  )

  pub Complete-set :
      (r : Registry A W) (idx : ℕ) (e : Entry A W)
      → r.count ≤ idx
      → Complete r.config r.count r.entries
      → Complete r.config r.count (set r.entries idx e)
  Complete-set r idx e h done_so_far i k =
      let apart : idx ≢ i = λ q. absurd (omega arith) in
      rw (get_elem?-set_ne r.entries idx i e apart) (done_so_far i k)

  -- A lookup that goes a step further.
  pub readers-set :
      (r : Registry A W) (readers : List (Reader A W)) (j : ℕ) (new : Reader A W)
      → ((i : ℕ) (rd : Reader A W) → get_elem? readers i ≡ some rd → ReaderFine r rd)
      → ReaderFine r new
      → (i : ℕ) (rd : Reader A W) → get_elem? (set readers j new) i ≡ some rd
      → ReaderFine r rd
  readers-set r [] j new fine h i rd e = fine i rd e
  readers-set r (x ∷ readers) zero new fine h zero rd e =
      let k : new ≡ rd = ground arith in subst (ReaderFine r) k h
  readers-set r (x ∷ readers) zero new fine h (suc i) rd e = fine (suc i) rd e
  readers-set r (x ∷ readers) (suc j) new fine h zero rd e = fine 0 rd e
  readers-set r (x ∷ readers) (suc j) new fine h (suc i) rd e =
      readers-set r readers j new (λ i rd. fine (suc i) rd) h i rd e

  pub looked-Fine :
      (r : Registry A W) (scheme : List ℕ) (count i : ℕ)
      → ReaderFine r (looking scheme count i)
      → i < count
      → ReaderFine r (looked r scheme count i)
  looked-Fine r scheme count i (p, q, unseen) h =
      let e = entry_at r.config (get_elem? r.entries i) in
      let further = find_entry-last r.config i r.entries scheme unseen in
      elim (Bool-cases (equal_view e.scheme scheme)) [
        | inl k ↦ rw k (
          p,
          sym (
              find_entry-found r.config count (suc i) 0 r.entries scheme e.factory
                (further ∙ if_of_true _ _ k) (omega arith)),
        )
        | inr k ↦ rw k (p, omega arith, further ∙ if_of_false _ _ k)
      ]

  pub guarded-Fine :
      (r : Registry A W) (s : FixedString) (f : Factory A W) (results : List Bool)
      (queue : List (FixedString × Factory A W))
      → length r.entries ≡ r.config.max_schemes
      → WriterFine r (guarded r s f results queue)
  guarded-Fine r s f results queue room = elim (Bool-cases (ltb r.count r.config.max_schemes)) [
    | inl e ↦ rw e (refl, omega (tests, room))
    | inr e ↦ rw e tt
  ]

  pub reader_counts :
      (r : Registry A W) (n : ℕ) (rd : Reader A W)
      → r.count ≤ n
      → ReaderFine r rd
      → ReaderFine (record r { count = n }) rd
  reader_counts r n (asking scheme) h fine = tt
  reader_counts r n (looking scheme count i) h (p, q, unseen) = (omega arith, q, unseen)
  reader_counts r n (answered scheme count o) h (p, same) = (omega arith, same)

  pub Complete-suc :
      (c : Config) (n : ℕ) (entries : List (Entry A W)) (f : Factory A W)
      → Complete c n entries
      → (entry_at c (get_elem? entries n)).factory ≡ some f
      → Complete c (suc n) entries
  Complete-suc c n entries f so_far stored i h = elim (Bool-cases (ltb i n)) [
    | inl e ↦ so_far i (omega tests)
    | inr e ↦
        let k : i ≡ n = omega tests in
        (f, ap (λ m. (entry_at c (get_elem? entries m)).factory) k ∙ stored)
  ]
