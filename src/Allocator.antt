-- ===== src/Allocator.antt =====
-- include/pipepp/core/pipeline_factory.hpp: a pipeline in memory that the caller provides. A pointer
-- is its address, 0 for a null pointer; the size and the alignment of a pipeline are the compiler's,
-- and so are parameters.
pub mod Lifetime
use pipepp_core.Prelude.{
  ℕ, ◌%◌, ◌≤◌, ◌≡◌, ◌≢◌, ◌⊎◌, inl, inr, Bool, true, false, not, ◌||◌, Option, none, some, List, ltb,
  ◌==◌, if◌then◌else◌, arith, refl, Bool-cases,
}
use pipepp_core.Config.{Config}
use pipepp_core.Pipeline.{Pipeline, make, make_uri}

-- The two guards of `create` and `create_uri`.
abbrev pub is_usable : ℕ → ℕ → ℕ → ℕ → Bool
is_usable required_size required_align buffer buffer_size =
    if buffer == 0 || ltb buffer_size required_size
    then false
    else if not (buffer % required_align == 0)
    then false
    else true

module _ {S W : Type 0} (c : Config) (required_size required_align : ℕ) where
  -- `pipeline_allocator::create`
  unfoldable pub create : ℕ → ℕ → S → Option (Pipeline S W)
  create buffer buffer_size src =
      if is_usable required_size required_align buffer buffer_size then some (make c src) else none

  -- `pipeline_allocator::create_uri`; `uri_at` is where `owned_uri_` comes to stand.
  unfoldable pub create_uri : ℕ → ℕ → ℕ → S → List ℕ → Option (Pipeline S W)
  create_uri buffer buffer_size uri_at src uri_str =
      if is_usable required_size required_align buffer buffer_size
      then some (make_uri c uri_at src uri_str)
      else none

  -- Both ways to create a pipeline succeed exactly on a buffer that is there, large enough and
  -- aligned, and then make the pipeline that the constructor makes; else they return null.
  pub create-is_usable :
      (buffer buffer_size uri_at : ℕ) (src : S) (uri_str : List ℕ)
      → ((buffer ≢ 0)
          × (required_size ≤ buffer_size)
          × (buffer % required_align ≡ 0)
          × (create buffer buffer_size src ≡ some (make c src))
          × (create_uri buffer buffer_size uri_at src uri_str
              ≡ some (make_uri c uri_at src uri_str)))
        ⊎ (¬ ((buffer ≢ 0) × (required_size ≤ buffer_size) × (buffer % required_align ≡ 0))
            × (create buffer buffer_size src ≡ none)
            × (create_uri buffer buffer_size uri_at src uri_str ≡ none))
  unfolding create create_uri
  create-is_usable buffer buffer_size uri_at src uri_str =
      elim (Bool-cases (is_usable required_size required_align buffer buffer_size)) [
        | inl e ↦ rw e (inl ((λ k. ground arith), ground arith, ground arith, refl, refl))
        | inr e ↦ rw e (inr ((λ (p, q, r). ground arith), refl, refl))
      ]
