-- ===== src/AnySource/Empty.antt =====
-- include/pipepp/core/any_source.hpp: a run over an empty one.
use pipepp_core.Prelude.{◌≡◌, refl, Bool, false, Option, none, List}
use pipepp_core.ErrorCode.{ErrorCode, is_error}
use pipepp_core.Exec.{done}
use pipepp_core.Expected.{fail}
use pipepp_core.Source.{BusSource}
use pipepp_core.Pipeline.{Pipeline}
use pipepp_core.Pipeline.Run.{run}
use pipepp_core.AnySource.{any_bus}

-- `run` of a pipeline over an empty source returns `not_connected`, if no other error is pending,
-- and changes nothing.
pub run-any_bus :
    {S W : Type 0} (bus : BusSource S) (schedule : List Bool) (p : Pipeline (Option S) W) (w : W)
    → p.source ≡ none
    → is_error p.pending_error ≡ false
    → run (any_bus bus) schedule p w ≡ done (fail ErrorCode.not_connected, p, w)
unfolding run
run-any_bus bus schedule p w empty clean = rw (clean, empty) refl
