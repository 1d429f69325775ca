-- ===== src/Examples/Registries.antt =====
-- Runs of the theorems on registries of types of sources, by one thread and by several.
use pipepp_core.Prelude.{ℕ, suc, ◌≤◌, ◌≡◌, ◌≢◌, refl, true, none, some, List, [], ◌∷◌, arith}
use pipepp_core.Exec.{done}
use pipepp_core.Config.{embedded_config}
use pipepp_core.FixedString
use pipepp_core.FixedString.{FixedString, as_view, view_equal, equal_view}
use pipepp_core.Uri.{StringView}
use pipepp_core.Text.{find_text}
use pipepp_core.AnySource.{AnySource, no_source}
use pipepp_core.AnySource.Dispatch.{holder}
use pipepp_core.Registry.{Factory, Registry, new_registry, create, find_entry, has_scheme}
use pipepp_core.Registry.Lookup.{new_registry-IsValid}
use pipepp_core.Registry.Types.{register_type, create-register_type}
use pipepp_core.Registry.Threads.{
  idle, answered, System, Reach, here, next, loads, stores_scheme, stores_factory, publishes,
  reads_count, looks,
}
use pipepp_core.Registry.Threads.Lookups.{beginning, lookups}
use pipepp_core.Registry.Threads.Races.{racing, lost_registration}
use pipepp_core.Examples.Pipelines.{Toy, toy, toy_bus}

abbrev types : Registry (AnySource Toy) ℕ
types = new_registry embedded_config

-- "mq", and "mq://"
abbrev mq : List ℕ
mq = b'm' ∷ b'q' ∷ []

abbrev mq_uri : StringView
mq_uri = record { home = 1; start = 0; text = b'm' ∷ b'q' ∷ b':' ∷ b'/' ∷ b'/' ∷ [] }

create-register_type_example :
    let (known, r') = register_type toy_bus types (FixedString.from_view 8 mq) toy in
    (known ≡ true) × (create no_source r' 2 mq_uri 0 ≡ done (holder toy_bus (some toy), 0))
unfolding has_scheme find_entry find_text
create-register_type_example =
    create-register_type toy_bus types mq toy 2 mq_uri 0 (new_registry-IsValid embedded_config)
      (omega arith) (omega arith) refl refl

abbrev stored_mq : FixedString
stored_mq = record { buffer = b'm' ∷ b'q' ∷ 0 ∷ 0 ∷ 0 ∷ 0 ∷ 0 ∷ 0 ∷ 0 ∷ []; size = 2 }

abbrev numbered : Factory ℕ ℕ
numbered uri w = done (w, suc w)

-- One scheme is registered, and is then looked up.
looked_up :
    (x : System ℕ ℕ) × Reach (beginning embedded_config ((stored_mq, numbered) ∷ []) (mq ∷ [])) x
    × (x.readers ≡ answered mq 1 (some (some numbered)) ∷ [])
unfolding equal_view
looked_up = (
  _,
  next
      (next
        (next
          (next
            (next (next here (loads 0 stored_mq numbered [] [] refl))
              (stores_scheme 0 0 stored_mq numbered [] [] refl))
            (stores_factory 0 0 stored_mq numbered [] [] refl))
          (publishes 0 0 stored_mq numbered [] [] refl))
        (reads_count 0 mq refl))
      (looks 0 mq 1 0 refl (omega arith)),
  refl,
)

lookups_example :
    (1 ≤ looked_up.0.registry.count)
    × (some (some numbered)
        ≡ find_entry looked_up.0.registry.config 1 0 looked_up.0.registry.entries mq)
    × (some (some numbered) ≢ some none)
unfolding looked_up equal_view
lookups_example =
    lookups embedded_config ((stored_mq, numbered) ∷ []) (mq ∷ []) looked_up.0 0 mq 1
      (some (some numbered)) looked_up.1 refl

lost_registration_example :
    (x : System ℕ ℕ) × Reach
      (racing embedded_config 3 stored_mq (FixedString.empty_string 8) numbered numbered)
      x
    × (x.writers ≡ idle (true ∷ []) [] ∷ idle (true ∷ []) [] ∷ [])
    × (x.registry.count ≡ 1)
    × (has_scheme x.registry (as_view stored_mq) ≡ view_equal [] (as_view stored_mq))
lost_registration_example =
    lost_registration embedded_config 3 stored_mq (FixedString.empty_string 8) numbered numbered
