-- ===== src/Pipeline/Closures/Arrays.antt =====
-- One closure, or one array of closures, of include/pipepp/core/stages.hpp as objects.
use pipepp_core.Prelude.{
  ℕ, zero, suc, ◌<◌, ◌≡◌, refl, ap, ◌∙◌, inl, inr, Bool-cases, Option, none, some, List, [], ◌∷◌,
  ltb, if◌then◌else◌, arith, tests, get_elem?, set, map, length, replicate,
}
use pipepp_core.Exec.{Exec, done, ◌>>=◌, map_exec}
use pipepp_core.Stages.{callee}
use pipepp_core.SmallFunction.{sets, element, invoke}
use pipepp_core.SmallFunction.Lifetime.{
  object, op-slot_op, move_construct_lem, move_assign_lem, reset_lem, invoke_lem,
}
use pipepp_core.Pipeline.Closures.{assign_new, push_new, move_array, assign_array, reset_array}

module _ {F : Type 0} where
  pub assign_new_lem : (o : Option F) (f : F) → assign_new (object o) f ≡ done (object (some f))
  unfolding assign_new
  assign_new_lem none f = refl
  assign_new_lem (some g) f = refl

  element-inside :
      (xs : List F) (i : ℕ) → i < length xs → (x : F) × (element (get_elem? xs i) ≡ done x)
  element-inside [] i h = absurd (omega arith)
  element-inside (x ∷ xs) zero h = (x, refl)
  element-inside (x ∷ xs) (suc i) h = element-inside xs i (omega arith)

module _ {F : Type 0} where
  pub push_new_lem :
      (n max : ℕ) (slots : List (Option F)) (f : F)
      → length slots ≡ max
      → push_new n max (map object slots) f
        ≡ done (map object (if ltb n max then set slots n (some f) else slots))
  unfolding push_new
  push_new_lem n max slots f room = elim (Bool-cases (ltb n max)) [
    | inl e ↦ rw e (
        let (o, there) = element-inside slots n (omega tests) in
        op-slot_op slots (sets n f)
        ∙ ap (λ m. map_exec (map object) (m >>= λ _. done (set slots n (some f)))) there)
    | inr e ↦ rw e refl
  ]

  pub move_array_lem :
      (slots : List (Option F))
      → move_array (map object slots)
        ≡ done (map object slots, map object (replicate (length slots) none))
  unfolding move_array
  move_array_lem [] = refl
  move_array_lem (o ∷ slots) = rw (move_construct_lem o, move_array_lem slots) refl

  pub assign_array_lem :
      (olds slots : List (Option F))
      → length olds ≡ length slots
      → assign_array (map object olds) (map object slots)
        ≡ done (map object slots, map object (replicate (length slots) none))
  unfolding assign_array
  assign_array_lem [] [] h = refl
  assign_array_lem [] (o ∷ slots) h = absurd (omega arith)
  assign_array_lem (o ∷ olds) [] h = absurd (omega arith)
  assign_array_lem (o' ∷ olds) (o ∷ slots) h =
      rw (move_assign_lem o' o, assign_array_lem olds slots (omega arith)) refl

  pub reset_array_lem :
      (slots : List (Option F))
      → reset_array (map object slots) ≡ done (map object (replicate (length slots) none))
  unfolding reset_array
  reset_array_lem [] = refl
  reset_array_lem (o ∷ slots) = rw (reset_lem o, reset_array_lem slots) refl

module _ {F B : Type 0} where
  pub call_element :
      (slots : List (Option F)) (i : ℕ) (k : F → Exec B)
      → (element (get_elem? (map object slots) i) >>= λ fn. invoke fn >>= k)
        ≡ (callee (get_elem? slots i) >>= k)
  unfolding callee
  call_element [] i k = refl
  call_element (none ∷ slots) zero k = ap (λ m. m >>= k) (invoke_lem none)
  call_element (some f ∷ slots) zero k = ap (λ m. m >>= k) (invoke_lem (some f))
  call_element (o ∷ slots) (suc i) k = call_element slots i k
