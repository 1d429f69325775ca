-- ===== src/FixedString/Compare.antt =====
-- The comparisons of include/pipepp/core/fixed_string.hpp against the text that a string holds.
use pipepp_core.Prelude.{
  ℕ, zero, suc, ◌≤◌, ◌≡◌, refl, ap, ◌∙◌, ◌↔◌, ◌⊎◌, inl, inr, true, false, List, [], ◌∷◌, arith,
  ◌==◌, ==_self, Bool-cases, length, length-take, take,
}
use pipepp_core.FixedString.{
  FixedString, as_view, same_front, equal, view_equal, view_less, equal_view, less, IsValid,
}

pub view_equal_refl : (xs : List ℕ) → view_equal xs xs ≡ true
view_equal_refl [] = refl
view_equal_refl (x ∷ xs) = ground (arith, view_equal_refl xs)

pub eq_of_view_equal : (xs ys : List ℕ) → view_equal xs ys ≡ true → xs ≡ ys
eq_of_view_equal [] [] h = refl
eq_of_view_equal [] (y ∷ ys) h = cc
eq_of_view_equal (x ∷ xs) [] h = cc
eq_of_view_equal (x ∷ xs) (y ∷ ys) h = ground (arith, eq_of_view_equal xs ys)

pub view_equal_iff : (xs ys : List ℕ) → (view_equal xs ys ≡ true) ↔ (xs ≡ ys)
view_equal_iff xs ys = (eq_of_view_equal xs ys, λ e. rw e (view_equal_refl ys))

same_front_lem :
    (n : ℕ) (xs ys : List ℕ)
    → n ≤ length xs
    → n ≤ length ys
    → same_front n xs ys ≡ view_equal (take n xs) (take n ys)
unfolding same_front
same_front_lem zero xs ys p q = refl
same_front_lem (suc n) [] ys p q = absurd (omega arith)
same_front_lem (suc n) (x ∷ xs) [] p q = absurd (omega arith)
same_front_lem (suc n) (x ∷ xs) (y ∷ ys) p q = ground (arith, same_front_lem n xs ys)

-- `operator==` on well-formed strings, of one capacity or two, holds exactly when they hold the
-- same text: what lies behind the terminator does not count.
pub equal_iff :
    (M N : ℕ) (s t : FixedString)
    → IsValid M s
    → IsValid N t
    → (equal s t ≡ true) ↔ (as_view s ≡ as_view t)
unfolding equal
equal_iff M N s t v w = elim (Bool-cases (s.size == t.size)) [
  | inl same ↦ rw (same, same_size same) (view_equal_iff (as_view s) (as_view t))
  | inr differ ↦ rw differ (λ e. cc, λ e. absurd (ground (arith, ap length e, size_s, size_t)))
]
  where
    size_s : length (as_view s) ≡ s.size
    size_s = omega (arith, length-take s.size s.buffer, v.room, v.bounded)

    size_t : length (as_view t) ≡ t.size
    size_t = omega (arith, length-take t.size t.buffer, w.room, w.bounded)

    same_size :
        (s.size == t.size) ≡ true
        → same_front s.size s.buffer t.buffer ≡ view_equal (as_view s) (as_view t)
    same_size e =
        let k : s.size ≡ t.size = ground arith in
        same_front_lem s.size s.buffer t.buffer (omega (arith, v.room, v.bounded))
          (omega (arith, w.room, w.bounded))
        ∙ ap (λ n. view_equal (as_view s) (take n t.buffer)) k

-- `operator==` with a view holds exactly when the string's text is the view's.
pub equal_view_iff : (s : FixedString) (sv : List ℕ) → (equal_view s sv ≡ true) ↔ (as_view s ≡ sv)
unfolding equal_view
equal_view_iff s sv = view_equal_iff (as_view s) sv

view_less_irrefl : (xs : List ℕ) → view_less xs xs ≡ false
view_less_irrefl [] = refl
view_less_irrefl (x ∷ xs) = rw (==_self x) (view_less_irrefl xs)

view_less_trans :
    (xs ys zs : List ℕ) → view_less xs ys ≡ true → view_less ys zs ≡ true → view_less xs zs ≡ true
view_less_trans xs [] zs p q = cc
view_less_trans xs (y ∷ ys) [] p q = cc
view_less_trans [] (y ∷ ys) (z ∷ zs) p q = refl
view_less_trans (x ∷ xs) (y ∷ ys) (z ∷ zs) p q = ground (arith, view_less_trans xs ys zs)

view_less_total :
    (xs ys : List ℕ) → (view_less xs ys ≡ true) ⊎ ((xs ≡ ys) ⊎ (view_less ys xs ≡ true))
view_less_total [] [] = inr (inl refl)
view_less_total [] (y ∷ ys) = inl refl
view_less_total (x ∷ xs) [] = inr (inr refl)
view_less_total (x ∷ xs) (y ∷ ys) = ground (arith, view_less_total xs ys)

-- `operator<` is a strict total order on the texts that strings hold: irreflexive, transitive, and
-- of two strings one is less or the texts are equal.
pub less-IsStrictOrder :
    (s t u : FixedString)
    → (less s s ≡ false)
      × (less s t ≡ true → less t u ≡ true → less s u ≡ true)
      × ((less s t ≡ true) ⊎ ((as_view s ≡ as_view t) ⊎ (less t s ≡ true)))
unfolding less
less-IsStrictOrder s t u = (
  view_less_irrefl (as_view s),
  view_less_trans (as_view s) (as_view t) (as_view u),
  view_less_total (as_view s) (as_view t),
)
