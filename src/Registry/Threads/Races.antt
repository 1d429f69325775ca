-- ===== src/Registry/Threads/Races.antt =====
-- Two threads that register schemes in a registry of include/pipepp/core/source_registry.hpp at once.
use pipepp_core.Prelude.{
  ℕ, suc, ◌≡◌, refl, ap, inl, inr, Bool-cases, true, Option, none, some, [], ◌∷◌, ltb,
  if◌then◌else◌, arith,
}
use pipepp_core.Config.{Config}
use pipepp_core.Exec.{if_of_true}
use pipepp_core.FixedString.{FixedString, as_view, view_equal, equal_view}
use pipepp_core.Registry.{Factory, new_registry, has_scheme, find_entry, is_found}
use pipepp_core.Registry.Threads.{
  idle, System, loads, stores_scheme, stores_factory, publishes, Reach, here, next,
}

module _ {A W : Type 0} (c : Config) (m : ℕ) (s t : FixedString) (f g : Factory A W) where
  -- A new registry with room, and two threads with a scheme each.
  abbrev pub racing : System A W
  racing = record {
    registry = new_registry (record c { max_schemes = suc m });
    writers = idle [] ((s, f) ∷ []) ∷ idle [] ((t, g) ∷ []) ∷ [];
    readers = [];
  }

  -- Two threads that register a scheme each in a new registry with room can come to a state in which
  -- both were told of success and only the scheme of the second is known: both loaded the same
  -- index.
  pub lost_registration :
      (x : System A W) × Reach racing x
      × (x.writers ≡ idle (true ∷ []) [] ∷ idle (true ∷ []) [] ∷ [])
      × (x.registry.count ≡ 1)
      × (has_scheme x.registry (as_view s) ≡ view_equal (as_view t) (as_view s))
  unfolding has_scheme find_entry equal_view
  lost_registration = (
    _,
    next
        (next
          (next
            (next
              (next
                (next (next (next here (loads 0 s f [] [] refl)) (loads 1 t g [] [] refl))
                  (stores_scheme 0 0 s f [] [] (ap some (if_of_true _ _ room))))
                (stores_factory 0 0 s f [] [] refl))
              (publishes 0 0 s f [] [] refl))
            (stores_scheme 1 0 t g [] [] (ap some (if_of_true _ _ room))))
          (stores_factory 1 0 t g [] [] refl))
        (publishes 1 0 t g [] [] refl),
    refl,
    refl,
    known,
  )
    where
      room : ltb 0 (suc m) ≡ true
      room = ground arith

      second : Option (Option (Factory A W))
      second = if view_equal (as_view t) (as_view s) then some (some g) else none

      known : is_found second ≡ view_equal (as_view t) (as_view s)
      known = elim (Bool-cases (view_equal (as_view t) (as_view s))) [
        | inl e ↦ rw e refl
        | inr e ↦ rw e refl
      ]
