-- ===== src/Text/Bounds.antt =====
-- The positions that the searches give lie inside the text.
use mathlib.Core.Option
use pipepp_core.Prelude.{
  ℕ, suc, ◌+◌, ◌≤◌, ◌≡◌, ap, inl, inr, none, some, Option, List, [], ◌∷◌, arith, Bool-cases,
  Option-cases, length, take, drop, length-take, length-drop, ◌==◌,
}
use pipepp_core.Text.{find_char, rfind_char, find_text}
use pipepp_core.Text.Search.{find_text_sound}

-- A position is at least `k` before `n`.
abbrev pub Before : ℕ → Option ℕ → ℕ → Type 0
Before k none n = Unit {0}
Before k (some i) n = i + k ≤ n

pub Before-suc : (k : ℕ) (o : Option ℕ) (n : ℕ) → Before k o n → Before k (Option.map suc o) (suc n)
Before-suc k none n h = tt
Before-suc k (some i) n h = omega arith

pub find_char-Before : (c : ℕ) (xs : List ℕ) → Before 1 (find_char c xs) (length xs)
unfolding find_char
find_char-Before c [] = tt
find_char-Before c (x ∷ xs) = elim (Bool-cases (x == c)) [
  | inl e ↦ rw e (omega arith)
  | inr e ↦ rw e (Before-suc 1 (find_char c xs) (length xs) (find_char-Before c xs))
]

pub rfind_char-Before : (c : ℕ) (xs : List ℕ) → Before 1 (rfind_char c xs) (length xs)
unfolding rfind_char
rfind_char-Before c [] = tt
rfind_char-Before c (x ∷ xs) = elim (Option-cases (rfind_char c xs)) [
  | inl e ↦ elim (Bool-cases (x == c)) [
    | inl here ↦ rw (here, e) (omega arith)
    | inr there ↦ rw (there, e) tt
  ]
  | inr (i, e) ↦
      let h : Before 1 (some i) (length xs) = rw e at (rfind_char-Before c xs) in
      rw e (omega (arith, h))
]

pub find_text-Before :
    (x : ℕ) (s xs : List ℕ) → Before (suc (length s)) (find_text (x ∷ s) xs) (length xs)
find_text-Before x s xs = elim (Option-cases (find_text (x ∷ s) xs)) [
  | inl e ↦ rw e tt
  | inr (i, e) ↦
      let h : length (take (suc (length s)) (drop i xs)) ≡ suc (length s) =
        ap length (find_text_sound (x ∷ s) xs i e) in
      rw e (omega (arith, h, length-take (suc (length s)) (drop i xs), length-drop i xs))
]
