-- ===== src/Registry/Threads/Entries.antt =====
-- The loop of `create` and `has_scheme` (include/pipepp/core/source_registry.hpp) over entries, of
-- which some are filled.
use pipepp_core.Prelude.{
  ℕ, zero, suc, ◌+◌, ◌<◌, ◌≤◌, ◌≡◌, ◌≢◌, refl, sym, ap, ◌∙◌, inl, inr, Option, none, some, List,
  get_elem?, set, get_elem?-set_ne, if◌then◌else◌, Bool-cases, arith,
}
use pipepp_core.Config.{Config}
use pipepp_core.FixedString.{equal_view}
use pipepp_core.Registry.{Factory, Entry, entry_at, find_entry}

module _ {A W : Type 0} (c : Config) where
  -- The loop over one entry more.
  pub find_entry-suc :
      (n i : ℕ) (entries : List (Entry A W)) (scheme : List ℕ)
      → find_entry c n i entries scheme ≡ none
      → find_entry c (suc n) i entries scheme ≡ (
          let e = entry_at c (get_elem? entries (i + n)) in
          if equal_view e.scheme scheme then some e.factory else none)
  unfolding find_entry
  find_entry-suc zero i entries scheme h = let e : i + 0 ≡ i = omega arith in rw e refl
  find_entry-suc (suc n) i entries scheme h =
      let e = entry_at c (get_elem? entries i) in
      let shift : suc i + n ≡ i + suc n = omega arith in
      elim (Bool-cases (equal_view e.scheme scheme)) [
        | inl k ↦ cc (rw k at h)
        | inr k ↦ rw k (
            find_entry-suc n (suc i) entries scheme (rw k at h)
            ∙ ap
                (λ m.
                  let e = entry_at c (get_elem? entries m) in
                  if equal_view e.scheme scheme then some e.factory else none)
                shift)
      ]

  pub find_entry-last :
      (n : ℕ) (entries : List (Entry A W)) (scheme : List ℕ)
      → find_entry c n 0 entries scheme ≡ none
      → find_entry c (suc n) 0 entries scheme ≡ (
          let e = entry_at c (get_elem? entries n) in
          if equal_view e.scheme scheme then some e.factory else none)
  find_entry-last n entries scheme h =
      find_entry-suc n 0 entries scheme h
      ∙ ap
          (λ m.
            let e = entry_at c (get_elem? entries m) in
            if equal_view e.scheme scheme then some e.factory else none)
          (omega arith)

  pub find_entry-found :
      (m n i : ℕ) (entries : List (Entry A W)) (scheme : List ℕ) (o : Option (Factory A W))
      → find_entry c n i entries scheme ≡ some o
      → n ≤ m
      → find_entry c m i entries scheme ≡ some o
  unfolding find_entry
  find_entry-found m zero i entries scheme o h k = cc
  find_entry-found zero (suc n) i entries scheme o h k = absurd (omega arith)
  find_entry-found (suc m) (suc n) i entries scheme o h k =
      let e = entry_at c (get_elem? entries i) in
      elim (Bool-cases (equal_view e.scheme scheme)) [
        | inl q ↦ let h' : some e.factory ≡ some o = rw q at h in rw q h'
        | inr q ↦ rw q (find_entry-found m n (suc i) entries scheme o (rw q at h) (omega arith))
      ]

  -- Entries from the `n`-th on do not count.
  pub find_entry-set :
      (n i idx : ℕ) (entries : List (Entry A W)) (e : Entry A W) (scheme : List ℕ)
      → i + n ≤ idx
      → find_entry c n i (set entries idx e) scheme ≡ find_entry c n i entries scheme
  unfolding find_entry
  find_entry-set zero i idx entries e scheme h = refl
  find_entry-set (suc n) i idx entries e scheme h =
      let apart : idx ≢ i = λ k. absurd (omega arith) in
      rw (get_elem?-set_ne entries idx i e apart) (
        ap
          (λ rest.
            let e' = entry_at c (get_elem? entries i) in
            if equal_view e'.scheme scheme then some e'.factory else rest)
          (find_entry-set n (suc i) idx entries e scheme (omega arith)))

  -- The first `n` entries have factories.
  abbrev pub Complete : ℕ → List (Entry A W) → Type 0
  Complete n entries =
      (i : ℕ) → i < n → (f : Factory A W) × ((entry_at c (get_elem? entries i)).factory ≡ some f)

  pub find_entry-Complete :
      (n i : ℕ) (entries : List (Entry A W)) (scheme : List ℕ)
      → ((k : ℕ)
          → k < n
          → (f : Factory A W) × ((entry_at c (get_elem? entries (i + k))).factory ≡ some f))
      → find_entry c n i entries scheme ≢ some none
  unfolding find_entry
  find_entry-Complete zero i entries scheme h e = cc
  find_entry-Complete (suc n) i entries scheme h e =
      let start : i + 0 ≡ i = omega arith in
      let (f, k) = h 0 (omega arith) in
      let k' : (entry_at c (get_elem? entries i)).factory ≡ some f = rw start at k in
      elim (Bool-cases (equal_view (entry_at c (get_elem? entries i)).scheme scheme)) [
        | inl m ↦
            let e' : some (entry_at c (get_elem? entries i)).factory ≡ some none = rw m at e in cc
        | inr m ↦
            find_entry-Complete n (suc i) entries scheme
              (λ j l.
                let shift : i + suc j ≡ suc i + j = omega arith in
                let (g, q) = h (suc j) (omega arith) in
                (g, ap (λ x. (entry_at c (get_elem? entries x)).factory) (sym shift) ∙ q))
              (rw m at e)
      ]
