-- ===== src/Text/Search.antt =====
-- What the searches find.
use mathlib.Core.Option
use pipepp_core.Prelude.{
  ℕ, suc, ◌+◌, ◌≡◌, refl, sym, ap, ◌∙◌, inl, inr, true, none, some, List, [], ◌∷◌, ◌++◌, arith,
  ==_self, Bool-cases, Option-cases, length, take, drop, append-nil, append_assoc, take-append-drop,
}
use pipepp_core.Text.{find_char, rfind_char, starts_with, find_text, Lacks, Occurs}

pub Lacks-append : (c : ℕ) (xs ys : List ℕ) → Lacks c xs → Lacks c ys → Lacks c (xs ++ ys)
Lacks-append c [] ys p q = q
Lacks-append c (x ∷ xs) ys p q = (p.0, Lacks-append c xs ys p.1 q)

pub find_char-Lacks : (c : ℕ) (xs : List ℕ) → Lacks c xs → find_char c xs ≡ none
unfolding find_char
find_char-Lacks c [] h = refl
find_char-Lacks c (x ∷ xs) h = ground (arith, h.0, find_char-Lacks c xs h.1)

pub find_char-append :
    (c : ℕ) (xs ys : List ℕ) → Lacks c xs → find_char c (xs ++ c ∷ ys) ≡ some (length xs)
unfolding find_char
find_char-append c [] ys h = rw (==_self c)
find_char-append c (x ∷ xs) ys h = ground (arith, h.0, find_char-append c xs ys h.1)

-- A text that lacks `c` is passed over.
pub find_char_past :
    (c : ℕ) (xs ys : List ℕ)
    → Lacks c xs
    → find_char c (xs ++ ys) ≡ Option.map (λ i. length xs + i) (find_char c ys)
unfolding find_char
find_char_past c [] ys h = elim (Option-cases (find_char c ys)) [
  | inl e ↦ rw e
  | inr (i, e) ↦ rw e (ap some (omega arith))
]
find_char_past c (x ∷ xs) ys h = elim (Option-cases (find_char c ys)) [
  | inl e ↦ ground (arith, h.0, find_char_past c xs ys h.1)
  | inr (i, e) ↦ ground (arith, h.0, find_char_past c xs ys h.1)
]

pub rfind_char-Lacks : (c : ℕ) (xs : List ℕ) → Lacks c xs → rfind_char c xs ≡ none
unfolding rfind_char
rfind_char-Lacks c [] h = refl
rfind_char-Lacks c (x ∷ xs) h = ground (arith, h.0, rfind_char-Lacks c xs h.1)

pub rfind_char-append :
    (c : ℕ) (xs ys : List ℕ) → Lacks c ys → rfind_char c (xs ++ c ∷ ys) ≡ some (length xs)
unfolding rfind_char
rfind_char-append c [] ys h = rw (rfind_char-Lacks c ys h, ==_self c)
rfind_char-append c (x ∷ xs) ys h = rw (rfind_char-append c xs ys h)

starts_with-append : (s ys : List ℕ) → starts_with s (s ++ ys) ≡ true
starts_with-append [] ys = refl
starts_with-append (x ∷ s) ys = rw (==_self x) (starts_with-append s ys)

take-starts_with : (s xs : List ℕ) → starts_with s xs ≡ true → take (length s) xs ≡ s
take-starts_with [] xs h = refl
take-starts_with (y ∷ s) [] h = cc
take-starts_with (y ∷ s) (x ∷ xs) h = ground (arith, take-starts_with s xs)

-- Where the search finds `s`, `s` stands.
pub find_text_sound :
    (s xs : List ℕ) (i : ℕ) → find_text s xs ≡ some i → take (length s) (drop i xs) ≡ s
unfolding find_text
find_text_sound s [] i h = ground (arith, take-starts_with s [])
find_text_sound s (x ∷ xs) i h = elim (Bool-cases (starts_with s (x ∷ xs))) [
  | inl here ↦ ground (arith, take-starts_with s (x ∷ xs))
  | inr later ↦ elim (Option-cases (find_text s xs)) [
    | inl e ↦ cc (rw (later, e) at h)
    | inr (j, e) ↦ ground (arith, find_text_sound s xs j e)
  ]
]

-- It finds what stands there.
pub find_text_complete :
    (s before behind : List ℕ) → (i : ℕ) × (find_text s (before ++ (s ++ behind)) ≡ some i)
unfolding find_text
find_text_complete [] [] [] = (0, refl)
find_text_complete [] [] (y ∷ ys) = (0, refl)
find_text_complete (c ∷ s) [] behind = (0, rw (starts_with-append (c ∷ s) behind))
find_text_complete s (x ∷ before) behind =
    elim (Bool-cases (starts_with s (x ∷ (before ++ (s ++ behind))))) [
      | inl here ↦ (0, rw here)
      | inr later ↦ let (i, e) = find_text_complete s before behind in (suc i, rw (later, e))
    ]

pub Occurs-refl : (s : List ℕ) → Occurs s s
Occurs-refl s = ([], [], sym (append-nil s))

pub Occurs-nil : (xs : List ℕ) → Occurs [] xs
Occurs-nil xs = ([], xs, refl)

pub Occurs-take : (n : ℕ) (xs : List ℕ) → Occurs (take n xs) xs
Occurs-take n xs = ([], drop n xs, sym (take-append-drop n xs))

pub Occurs-drop : (n : ℕ) (xs : List ℕ) → Occurs (drop n xs) xs
Occurs-drop n xs = (take n xs, [], rw (append-nil (drop n xs)) (sym (take-append-drop n xs)))

pub Occurs-trans : (r s t : List ℕ) → Occurs r s → Occurs s t → Occurs r t
Occurs-trans r s t (a, b, p) (c, d, q) = (c ++ a, b ++ d, q ∙ (ap (λ k. c ++ (k ++ d)) p ∙ regroup))
  where
    regroup : c ++ ((a ++ (r ++ b)) ++ d) ≡ (c ++ a) ++ (r ++ (b ++ d))
    regroup = simp append_assoc
