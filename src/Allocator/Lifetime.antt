-- ===== src/Allocator/Lifetime.antt =====
-- A pipeline in memory of the caller (include/pipepp/core/pipeline_factory.hpp), from its construction
-- to its end.
use mathlib.Core.Option
use pipepp_core.Prelude.{ℕ, ◌≡◌, refl, ap, Bool-cases, inl, inr, Option, none, some, List}
use pipepp_core.Exec.{Exec, done, ◌>>=◌}
use pipepp_core.Config.{Config}
use pipepp_core.Pipeline.{Pipeline, make, BuildStep, build}
use pipepp_core.Pipeline.Build.Chains.{build-make}
use pipepp_core.Pipeline.Closures.{Closures, destroy_closures, objects_of}
use pipepp_core.Pipeline.Closures.Refine.{no_closures, move_closures-objects_of}
use pipepp_core.Allocator.{create, is_usable}

-- `pipeline_allocator::destroy`: the destructor of the pipeline, of which the closures are the part
-- that owns anything.
unfoldable pub destroy : {S W : Type 0} → Option (Pipeline S W) → Exec (Option (Closures S W))
unfolding destroy_closures
destroy none = done none
destroy (some p) = destroy_closures (objects_of p) >>= λ o. done (some o)

-- Whatever the buffer, a pipeline that is created in it, built by any chain of calls and destroyed
-- leaves no closure behind and destroys none twice; where `create` returned null nothing is
-- destroyed.
pub destroy-create :
    {S W : Type 0} (c : Config) (required_size required_align buffer buffer_size : ℕ) (src : S)
    (bs : List (BuildStep S W))
    → let made =
        Option.map
          (λ p. build p bs)
          (create c required_size required_align buffer buffer_size src) in
      destroy made ≡ done (Option.map (λ p. no_closures p.config) made)
unfolding destroy create
destroy-create c required_size required_align buffer buffer_size src bs =
    elim (Bool-cases (is_usable required_size required_align buffer buffer_size)) [
      | inl e ↦ rw e (
          let p = build (make c src) bs in
          let (contents, _) = build-make c src bs in
          ap (λ m. m >>= λ o. done (some o))
            (move_closures-objects_of p p (contents.config_slots.room, contents.stage_slots.room)
              (contents.config_slots.room, contents.stage_slots.room)).2)
      | inr e ↦ rw e refl
    ]
