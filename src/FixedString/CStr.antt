-- ===== src/FixedString/CStr.antt =====
-- The string of include/pipepp/core/fixed_string.hpp as a C string, and `fixed_string_literal`.
use pipepp_core.Prelude.{
  ℕ, zero, suc, ◌≡◌, refl, ap, ◌∙◌, sym, subst, Bool, true, not, ◌↔◌, Option, none, some, List, [],
  ◌∷◌, ◌++◌, arith, ◌==◌, if◌then◌else◌, length, take, drop, take_all, get_elem?, length-take,
  length-append,
}
use pipepp_core.FixedString.{
  FixedString, from_view, from_c_string, as_view, equal, view_equal, view_less, IsValid,
}
use pipepp_core.FixedString.Contents.{NoNul, from_view_lem, from_c_string_lem}
use pipepp_core.FixedString.Compare.{view_equal_iff, equal_iff}

-- `size`, `capacity`, `empty`, `c_str` and `data`, `operator[]`
abbrev pub size_of : FixedString → ℕ
size_of s = s.size

abbrev pub is_empty : FixedString → Bool
is_empty s = s.size == 0

abbrev pub c_str : FixedString → List ℕ
c_str s = s.buffer

abbrev pub char_at : FixedString → ℕ → Option ℕ
char_at s i = get_elem? s.buffer i

-- `std::string_view(const char*)`: the characters before the terminator.
abbrev pub c_view : List ℕ → List ℕ
c_view [] = []
c_view (c ∷ cs) = if c == 0 then [] else c ∷ c_view cs

-- `operator==(const char*)`
unfoldable pub equal_c : FixedString → List ℕ → Bool
equal_c s str = view_equal (as_view s) (c_view str)

-- `operator!=(const fixed_string&)`
unfoldable pub not_equal : FixedString → FixedString → Bool
not_equal s t = not (equal s t)

-- `operator<(std::string_view)`
unfoldable pub less_view : FixedString → List ℕ → Bool
less_view s sv = view_less (as_view s) sv

-- `fixed_string_literal<N>`: `N` is the length.
pub record FixedStringLiteral : Type 0 where
  pub data_ : List ℕ

abbrev pub literal_of : List ℕ → FixedStringLiteral
literal_of str = record { data_ = str }

-- `N > 0 && data_[N - 1] == '\0' ? N - 1 : N`
abbrev pub cut_nul : Option ℕ → ℕ → ℕ
cut_nul none n = suc n
cut_nul (some c) n = if c == 0 then n else suc n

abbrev pub size_by : List ℕ → ℕ → ℕ
size_by str zero = 0
size_by str (suc n) = cut_nul (get_elem? str n) n

-- `size`
unfoldable pub literal_size : FixedStringLiteral → ℕ
literal_size l = size_by l.data_ (length l.data_)

-- `empty`, and `operator std::string_view`
abbrev pub literal_empty : FixedStringLiteral → Bool
literal_empty l = literal_size l == 0

unfoldable pub literal_view : FixedStringLiteral → List ℕ
unfolding literal_size
literal_view l = take (literal_size l) l.data_

buffer-cut : (n : ℕ) (xs : List ℕ) → get_elem? xs n ≡ some 0 → xs ≡ take n xs ++ 0 ∷ drop (suc n) xs
buffer-cut zero [] h = absurd (ground arith)
buffer-cut (suc n) [] h = absurd (ground arith)
buffer-cut zero (x ∷ xs) h = ground arith
buffer-cut (suc n) (x ∷ xs) h = ap (◌∷◌ x) (buffer-cut n xs h)

c_view-append : (xs rest : List ℕ) → NoNul xs → c_view (xs ++ 0 ∷ rest) ≡ xs
c_view-append [] rest h = refl
c_view-append (c ∷ xs) rest h = ground (arith, c_view-append xs rest h.1)

module _ (N : ℕ) (s : FixedString) (v : IsValid N s) (text : NoNul (as_view s)) where
  c_view-c_str : c_view (c_str s) ≡ as_view s
  c_view-c_str =
      ap c_view (buffer-cut s.size s.buffer v.terminated)
      ∙ c_view-append (as_view s) (drop (suc s.size) s.buffer) text

  -- A well-formed string whose text has no null character, read again as a C string from `c_str()`,
  -- compares equal to itself, gives in a string of any capacity `M` the first `M` characters of the
  -- text, and in one of its own capacity a string that `operator==` calls equal.
  pub c_str_lem :
      (M : ℕ)
      → (equal_c s (c_str s) ≡ true)
        × (as_view (from_c_string M (c_str s)) ≡ take M (as_view s))
        × (equal (from_c_string N (c_str s)) s ≡ true)
  unfolding equal_c
  c_str_lem M = (
    (view_equal_iff (as_view s) (c_view (c_str s))).1 (sym c_view-c_str),
    (again M).1,
    (equal_iff N N (from_c_string N (c_str s)) s (again N).0 v).1 (
        (again N).1
        ∙ take_all (as_view s) N (omega (arith, v.bounded, length-take s.size s.buffer))),
  )
    where
      again :
          (M : ℕ)
          → IsValid M (from_c_string M (c_str s))
            × (as_view (from_c_string M (c_str s)) ≡ take M (as_view s))
      again M =
          subst
            (λ b.
              IsValid M (from_c_string M b) × (as_view (from_c_string M b) ≡ take M (as_view s)))
            (sym (buffer-cut s.size s.buffer v.terminated))
            (from_c_string_lem M (as_view s) (drop (suc s.size) s.buffer) text)

get_elem?-append : (xs ys : List ℕ) (y : ℕ) → get_elem? (xs ++ y ∷ ys) (length xs) ≡ some y
get_elem?-append [] ys y = refl
get_elem?-append (x ∷ xs) ys y = get_elem?-append xs ys y

take-append : (xs ys : List ℕ) → take (length xs) (xs ++ ys) ≡ xs
take-append [] ys = refl
take-append (x ∷ xs) ys = ap (◌∷◌ x) (take-append xs ys)

literal_size_lem : (xs : List ℕ) → literal_size (literal_of (xs ++ 0 ∷ [])) ≡ length xs
unfolding literal_size
literal_size_lem xs =
    let e : length (xs ++ 0 ∷ []) ≡ suc (length xs) = omega (arith, length-append xs (0 ∷ [])) in
    rw (e, get_elem?-append xs [] 0) refl

is_empty-length : (xs : List ℕ) → ((length xs == 0) ≡ true) ↔ (xs ≡ [])
is_empty-length [] = (λ e. refl, λ e. refl)
is_empty-length (x ∷ xs) = (λ e. absurd (ground arith), λ e. absurd (ground arith))

-- A literal made of an array that ends with a null character reads as what stands before it, and is
-- empty exactly if nothing does; a fixed string of capacity `N` made from it keeps the first `N`
-- characters.
pub literal_view_lem :
    (N : ℕ) (xs : List ℕ)
    → (literal_view (literal_of (xs ++ 0 ∷ [])) ≡ xs)
      × ((literal_empty (literal_of (xs ++ 0 ∷ [])) ≡ true) ↔ (xs ≡ []))
      × (as_view (from_view N (literal_view (literal_of (xs ++ 0 ∷ [])))) ≡ take N xs)
unfolding literal_view
literal_view_lem N xs = (
  view,
  subst (λ n. ((n == 0) ≡ true) ↔ (xs ≡ [])) (sym (literal_size_lem xs)) (is_empty-length xs),
  ap (λ v. as_view (from_view N v)) view ∙ (from_view_lem N xs).1,
)
  where
    view : literal_view (literal_of (xs ++ 0 ∷ [])) ≡ xs
    view = ap (λ n. take n (xs ++ 0 ∷ [])) (literal_size_lem xs) ∙ take-append xs (0 ∷ [])
