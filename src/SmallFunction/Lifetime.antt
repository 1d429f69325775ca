-- ===== src/SmallFunction/Lifetime.antt =====
-- The lifetimes of callables of include/pipepp/core/small_function.hpp, and slots without them.
use pipepp_core.Prelude.{
  ℕ, zero, suc, ◌≡◌, refl, sym, ap, ◌==◌, Bool-cases, inl, inr, map, get_elem?, set, ◌∙◌, Option,
  none, some, List, [], ◌∷◌, if◌then◌else◌,
}
use pipepp_core.Exec.{Exec, done, ◌>>=◌, map_exec, >>=-ext, >>=_assoc}
use pipepp_core.Stages.{callee}
use pipepp_core.SmallFunction.{
  SmallFunction, no_function, function_of, reset, move_construct, move_assign, invoke, Op, sets,
  moves, resets, element, op, run_ops,
}

module _ {F : Type 0} where
  -- The object that stands for an empty or a filled slot.
  abbrev pub object : Option F → SmallFunction F
  object none = no_function
  object (some f) = function_of f

module _ {F : Type 0} where
  pub reset_lem : (o : Option F) → reset (object o) ≡ done (object none)
  unfolding reset
  reset_lem none = refl
  reset_lem (some f) = refl

  pub move_construct_lem : (o : Option F) → move_construct (object o) ≡ done (object o, object none)
  unfolding move_construct
  move_construct_lem none = refl
  move_construct_lem (some f) = refl

  pub move_assign_lem :
      (o o' : Option F) → move_assign (object o) (object o') ≡ done (object o', object none)
  unfolding move_assign
  move_assign_lem none none = refl
  move_assign_lem none (some f) = refl
  move_assign_lem (some g) none = refl
  move_assign_lem (some g) (some f) = refl

  -- The same on slots that are empty or hold a callable.
  abbrev pub slot_op : List (Option F) → Op F → Exec (List (Option F))
  slot_op slots (sets i f) = element (get_elem? slots i) >>= λ o. done (set slots i (some f))
  slot_op slots (moves i j) = do
    o ← element (get_elem? slots i)
    o' ← element (get_elem? slots j)
    if i == j then done slots else done (set (set slots i o') j none)
  slot_op slots (resets i) = element (get_elem? slots i) >>= λ o. done (set slots i none)

  abbrev pub slot_ops : List (Option F) → List (Op F) → Exec (List (Option F))
  slot_ops slots [] = done slots
  slot_ops slots (o ∷ ops) = slot_op slots o >>= λ slots'. slot_ops slots' ops

  pub element-map :
      {B : Type 0} (slots : List (Option F)) (i : ℕ) (k : SmallFunction F → Exec B)
      → (element (get_elem? (map object slots) i) >>= k)
        ≡ (element (get_elem? slots i) >>= λ o. k (object o))
  element-map [] i k = refl
  element-map (o ∷ slots) zero k = refl
  element-map (o ∷ slots) (suc i) k = element-map slots i k

  set-map :
      (slots : List (Option F)) (i : ℕ) (o : Option F)
      → set (map object slots) i (object o) ≡ map object (set slots i o)
  set-map [] i o = refl
  set-map (x ∷ slots) zero o = refl
  set-map (x ∷ slots) (suc i) o = ap (◌∷◌ (object x)) (set-map slots i o)

  moved_slots :
      (slots : List (Option F)) (i j : ℕ) (o o' : Option F)
      → (if i == j
          then done (map object slots)
          else (move_assign (object o) (object o') >>= λ (s', other').
              done (set (set (map object slots) i s') j other')))
        ≡ map_exec (map object) (if i == j then done slots else done (set (set slots i o') j none))
  moved_slots slots i j o o' = elim (Bool-cases (i == j)) [
    | inl e ↦ rw e refl
    | inr e ↦ rw e (
        ap (λ m. m >>= λ (s', other'). done (set (set (map object slots) i s') j other'))
          (move_assign_lem o o')
        ∙ ap done (
            ap (λ xs. set xs j (object none)) (set-map slots i o')
            ∙ set-map (set slots i o') j none))
  ]

  pub op-slot_op :
      (slots : List (Option F)) (o : Op F)
      → op (map object slots) o ≡ map_exec (map object) (slot_op slots o)
  unfolding op
  op-slot_op slots (sets i f) =
      element-map slots i _
      ∙ (>>=-ext (element (get_elem? slots i)) _ _ (λ o.
            ap (λ m. m >>= λ (s', temp). reset temp >>= λ _. done (set (map object slots) i s'))
              (move_assign_lem o (some f))
            ∙ (ap (λ m. m >>= λ _. done (set (map object slots) i (function_of f))) (reset_lem none)
                ∙ ap done (set-map slots i (some f))))
          ∙ sym (>>=_assoc (element (get_elem? slots i)) _ _))
  op-slot_op slots (moves i j) =
      element-map slots i _
      ∙ (>>=-ext (element (get_elem? slots i)) _ _ (λ o.
            element-map slots j _
            ∙ (>>=-ext (element (get_elem? slots j)) _ _ (λ o'. moved_slots slots i j o o')
                ∙ sym (>>=_assoc (element (get_elem? slots j)) _ _)))
          ∙ sym (>>=_assoc (element (get_elem? slots i)) _ _))
  op-slot_op slots (resets i) =
      element-map slots i _
      ∙ (>>=-ext (element (get_elem? slots i)) _ _ (λ o.
            ap (λ m. m >>= λ s'. done (set (map object slots) i s')) (reset_lem o)
            ∙ ap done (set-map slots i none))
          ∙ sym (>>=_assoc (element (get_elem? slots i)) _ _))

  -- However an array of closures is assigned to, moved about and reset, it goes on as slots that are
  -- empty or hold a closure: no object is used or destroyed when it is not alive, none is built over
  -- another, and the only fault is an index out of range.
  pub run_ops-slot_ops :
      (ops : List (Op F)) (slots : List (Option F))
      → run_ops (map object slots) ops ≡ map_exec (map object) (slot_ops slots ops)
  unfolding run_ops
  run_ops-slot_ops [] slots = refl
  run_ops-slot_ops (o ∷ ops) slots =
      ap (λ m. m >>= λ fns. run_ops fns ops) (op-slot_op slots o)
      ∙ (>>=_assoc (slot_op slots o) _ _
          ∙ (>>=-ext (slot_op slots o) _ _ (λ slots'. run_ops-slot_ops ops slots')
              ∙ sym (>>=_assoc (slot_op slots o) _ _)))

  -- A call runs the closure that the slot holds, and an empty slot is a call through a null pointer,
  -- as for a pipeline's arrays.
  pub invoke_lem : (o : Option F) → invoke (object o) ≡ callee (some o)
  unfolding invoke callee
  invoke_lem none = refl
  invoke_lem (some f) = refl
