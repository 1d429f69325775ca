-- ===== src/Examples/Closures.antt =====
-- Runs of the theorems on objects with storage: closures, and results.
use pipepp_core.Prelude.{ℕ, ◌≡◌, refl, none}
use pipepp_core.ErrorCode.{ErrorCode}
use pipepp_core.Exec.{done}
use pipepp_core.Expected.{value, error}
use pipepp_core.Config.{embedded_config}
use pipepp_core.ExpectedObject.OfVoid
use pipepp_core.ExpectedObject.OfVoid.{
  void_object, construct_void, left_void, void_object-lifetimes,
}
use pipepp_core.ExpectedObject.Access.{error_access}
use pipepp_core.FixedString.{checked_from}
use pipepp_core.Pipeline.{
  make, build, build_step, add_stage, configure, subscribe, set_sink, move_into, moved_from,
  assign_from, assigned_from,
}
use pipepp_core.Pipeline.Emit.{process_message}
use pipepp_core.Pipeline.Run.{run_configs}
use pipepp_core.Pipeline.Closures.{
  chain_closures, move_closures, assign_closures, destroy_closures, process_closures, apply_configs,
  objects_of,
}
use pipepp_core.Pipeline.Closures.Refine.{
  chain_closures-build, process_closures-apply_configs, move_closures-objects_of, no_closures,
}
use pipepp_core.Examples.Pipelines.{toy, toy_bus, greeting, steps, pipe, Toy}

chain_closures-build_example :
    chain_closures (make embedded_config toy) (objects_of (make embedded_config toy)) steps
    ≡ done (objects_of pipe)
chain_closures-build_example = chain_closures-build embedded_config toy steps

process_closures-apply_configs_example :
    (process_closures (objects_of pipe) pipe 0 greeting ≡ process_message pipe 0 greeting)
    × (apply_configs pipe.config_count 0 (objects_of pipe).config_ops pipe.source 0
        ≡ run_configs toy_bus pipe.config_count 0 pipe.config_ops pipe.source 0)
process_closures-apply_configs_example = process_closures-apply_configs toy_bus pipe 0 greeting

move_closures-objects_of_example :
    (move_closures (objects_of pipe)
      ≡ done (objects_of (move_into pipe), objects_of (moved_from pipe)))
    × (assign_closures (objects_of pipe) (objects_of pipe)
        ≡ done (objects_of (assign_from pipe), objects_of (assigned_from pipe)))
    × (destroy_closures (objects_of pipe) ≡ done (no_closures {S = Toy} {W = ℕ} pipe.config))
unfolding build build_step add_stage configure subscribe set_sink checked_from
move_closures-objects_of_example = move_closures-objects_of pipe pipe (refl, refl) (refl, refl)

void_object-lifetimes_example :
    let x = error ErrorCode.not_connected in
    let y = value tt in
    let keeps = λ (e : ErrorCode). e in
    (construct_void x ≡ done (void_object x))
    × (OfVoid.copy_expected (void_object x) ≡ done (void_object x))
    × (OfVoid.move_expected keeps (void_object x)
        ≡ done (void_object x, void_object (left_void keeps x)))
    × (OfVoid.copy_assign (void_object x) (void_object y) ≡ done (void_object y))
    × (OfVoid.move_assign keeps (void_object x) (void_object y)
        ≡ done (void_object y, void_object (left_void keeps y)))
    × (OfVoid.error_of (void_object x) ≡ error_access x)
    × (OfVoid.destroy (void_object x) ≡ done none)
void_object-lifetimes_example =
    void_object-lifetimes (λ e. e) (error ErrorCode.not_connected) (value tt)
