-- ===== src/Text.antt =====
-- The searches of `std::string_view` that the library calls, on the list of the characters.
pub mod Search
pub mod Bounds
use mathlib.Core.Option
use pipepp_core.Prelude.{
  ℕ, suc, ◌≡◌, ◌≢◌, Bool, true, false, ◌&&◌, Option, none, some, List, [], ◌∷◌, ◌++◌, ◌==◌,
  if◌then◌else◌,
}

-- `find(c)`: the first position, and `none` for `npos`.
unfoldable pub find_char : ℕ → List ℕ → Option ℕ
find_char c [] = none
find_char c (x ∷ xs) = if x == c then some 0 else Option.map suc (find_char c xs)

-- `rfind(c)`: the last position.
abbrev last_of : Bool → Option ℕ → Option ℕ
last_of here (some i) = some (suc i)
last_of true none = some 0
last_of false none = none

unfoldable pub rfind_char : ℕ → List ℕ → Option ℕ
rfind_char c [] = none
rfind_char c (x ∷ xs) = last_of (x == c) (rfind_char c xs)

-- `starts_with(s)`
abbrev pub starts_with : List ℕ → List ℕ → Bool
starts_with [] xs = true
starts_with (y ∷ ys) [] = false
starts_with (y ∷ ys) (x ∷ xs) = x == y && starts_with ys xs

-- `find(s)`: the first position at which `s` stands.
unfoldable pub find_text : List ℕ → List ℕ → Option ℕ
find_text s [] = if starts_with s [] then some 0 else none
find_text s (x ∷ xs) = if starts_with s (x ∷ xs) then some 0 else Option.map suc (find_text s xs)

-- No character of the text is `c`.
abbrev pub Lacks : ℕ → List ℕ → Type 0
Lacks c [] = Unit {0}
Lacks c (x ∷ xs) = (x ≢ c) × Lacks c xs

-- `s` stands somewhere in `xs`.
abbrev pub Occurs : List ℕ → List ℕ → Type 0
Occurs s xs = (before : List ℕ) × (behind : List ℕ) × (xs ≡ before ++ (s ++ behind))
