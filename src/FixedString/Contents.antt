-- ===== src/FixedString/Contents.antt =====
-- What the writers of include/pipepp/core/fixed_string.hpp leave in the buffer.
use pipepp_core.Prelude.{
  ℕ, zero, suc, ◌≤◌, ◌<◌, ◌≡◌, refl, ap, ◌∙◌, subst, ◌≢◌, inl, inr, ◌⊎◌, List, [], ◌∷◌, ◌++◌, arith,
  tests, ltb, Bool-cases, min, length, take, write_front, length-set, length-write_front,
  length-replicate, length-take, get_elem?-set_self, take-set, take-write_front, take_all,
  length-append,
}
use pipepp_core.ErrorCode.{ErrorCode}
use pipepp_core.Expected.{ok, fail}
use pipepp_core.FixedString.{
  FixedString, empty_string, fill, from_view, scan, from_c_string, as_view, widen, checked_from,
  from_or_truncate, IsValid,
}

pub empty_string-IsValid : (N : ℕ) → IsValid N (empty_string N)
empty_string-IsValid N = record {
  room = length-replicate (suc N) 0;
  bounded = omega arith;
  terminated = refl;
}

module _ (N : ℕ) (s : FixedString) (v : IsValid N s) (sv : List ℕ) (n : ℕ) (fits : n ≤ N) where
  pub fill-IsValid : IsValid N (fill s sv n)
  fill-IsValid = record {
    room =
        length-set (write_front s.buffer (take n sv)) n 0
        ∙ (length-write_front s.buffer (take n sv) ∙ v.room);
    bounded = fits;
    terminated =
        get_elem?-set_self (write_front s.buffer (take n sv)) n 0
          (omega (arith, v.room, length-write_front s.buffer (take n sv)));
  }

  pub as_view-fill : n ≤ length sv → as_view (fill s sv n) ≡ take n sv
  as_view-fill h =
      take-set (write_front s.buffer (take n sv)) n 0
      ∙ subst (λ k. take k (write_front s.buffer (take n sv)) ≡ take n sv) exact
          (take-write_front s.buffer (take n sv) (omega (arith, v.room, exact)))
    where
      exact : length (take n sv) ≡ n
      exact = omega (arith, length-take n sv)

take-min : (xs : List ℕ) (n : ℕ) → take (min (length xs) n) xs ≡ take n xs
take-min [] n = ground (arith, take_all {A = ℕ} [] n)
take-min (x ∷ xs) zero = ground arith
take-min (x ∷ xs) (suc n) =
    let e : min (length (x ∷ xs)) (suc n) ≡ suc (min (length xs) n) = omega arith in
    rw e (ap (◌∷◌ x) (take-min xs n))

-- The constructor from a view keeps the first `N` characters of it, in a well-formed buffer.
pub from_view_lem :
    (N : ℕ) (sv : List ℕ) → IsValid N (from_view N sv) × (as_view (from_view N sv) ≡ take N sv)
unfolding from_view
from_view_lem N sv = (
  fill-IsValid N _ (empty_string-IsValid N) sv (min (length sv) N) (omega arith),
  as_view-fill N _ (empty_string-IsValid N) sv (min (length sv) N) (omega arith) (omega arith)
      ∙ take-min sv N,
)

-- `from_or_truncate` on a well-formed string keeps the first `N` characters of the view, whatever
-- the buffer held, and leaves the string well-formed.
pub from_or_truncate_lem :
    (N : ℕ) (s : FixedString) (sv : List ℕ)
    → IsValid N s
    → IsValid N (from_or_truncate N s sv) × (as_view (from_or_truncate N s sv) ≡ take N sv)
unfolding from_or_truncate
from_or_truncate_lem N s sv v = (
  fill-IsValid N s v sv (min (length sv) N) (omega arith),
  as_view-fill N s v sv (min (length sv) N) (omega arith) (omega arith) ∙ take-min sv N,
)

-- `checked_from` on a well-formed string: a view of at most `N` characters is stored whole, and a
-- longer one is refused with `buffer_overflow` and leaves the string as it was.
pub checked_from_lem :
    (N : ℕ) (s : FixedString) (sv : List ℕ)
    → IsValid N s
    → ((length sv ≤ N)
        × ((checked_from N s sv).0 ≡ ok)
        × (as_view (checked_from N s sv).1 ≡ sv)
        × IsValid N (checked_from N s sv).1)
      ⊎ ((N < length sv) × (checked_from N s sv ≡ (fail ErrorCode.buffer_overflow, s)))
unfolding checked_from
checked_from_lem N s sv v = elim (Bool-cases (ltb N (length sv))) [
  | inl long ↦ rw long (inr (omega tests, refl))
  | inr short ↦ rw short (
      inl (
        omega tests,
        refl,
        as_view-fill N s v sv (length sv) (omega tests) (omega arith)
            ∙ take_all sv (length sv) (omega arith),
        fill-IsValid N s v sv (length sv) (omega tests),
      ))
]

-- A converted string of capacity at most `N` reads the same.
pub widen_lem :
    (M N : ℕ) (s : FixedString)
    → IsValid M s
    → M ≤ N
    → IsValid N (widen N s) × (as_view (widen N s) ≡ as_view s)
unfolding widen
widen_lem M N s v h = (
  fill-IsValid N _ (empty_string-IsValid N) s.buffer s.size (omega (arith, v.bounded)),
  as_view-fill N _ (empty_string-IsValid N) s.buffer s.size (omega (arith, v.bounded))
      (omega (arith, v.room, v.bounded)),
)

-- No character is the terminator.
abbrev pub NoNul : List ℕ → Type 0
NoNul [] = Unit {0}
NoNul (c ∷ xs) = (c ≢ 0) × NoNul xs

scan_lem : (N : ℕ) (xs rest : List ℕ) → NoNul xs → scan N (xs ++ 0 ∷ rest) ≡ min (length xs) N
unfolding scan
scan_lem zero xs rest h = omega arith
scan_lem (suc N) [] rest h = ground arith
scan_lem (suc N) (c ∷ xs) rest h = ground (arith, scan_lem N xs rest h.1)

take-append_of_le : (xs ys : List ℕ) (n : ℕ) → n ≤ length xs → take n (xs ++ ys) ≡ take n xs
take-append_of_le xs ys zero h = refl
take-append_of_le [] ys (suc n) h = absurd (omega arith)
take-append_of_le (x ∷ xs) ys (suc n) h = ap (◌∷◌ x) (take-append_of_le xs ys n (omega arith))

-- The constructor from a C string keeps the first `N` characters before the terminator, in a
-- well-formed buffer; `rest` is the memory behind the terminator.
pub from_c_string_lem :
    (N : ℕ) (xs rest : List ℕ)
    → NoNul xs
    → IsValid N (from_c_string N (xs ++ 0 ∷ rest))
      × (as_view (from_c_string N (xs ++ 0 ∷ rest)) ≡ take N xs)
unfolding from_c_string
from_c_string_lem N xs rest h = rw (scan_lem N xs rest h) (
  fill-IsValid N _ (empty_string-IsValid N) _ (min (length xs) N) (omega arith),
  as_view-fill N _ (empty_string-IsValid N) (xs ++ 0 ∷ rest) (min (length xs) N) (omega arith)
        (omega (arith, length-append xs (0 ∷ rest)))
      ∙ (take-append_of_le xs (0 ∷ rest) (min (length xs) N) (omega arith) ∙ take-min xs N),
)
