-- ===== src/FixedString.antt =====
-- include/pipepp/core/fixed_string.hpp: a string in a buffer of `N + 1` characters.
-- A character is its byte; a `std::string_view` is the list of its characters.
pub mod Contents
pub mod Compare
pub mod CStr
use pipepp_core.Prelude.{
  ℕ, zero, suc, ◌+◌, ◌≤◌, ◌≡◌, Bool, true, false, ◌&&◌, not, Option, some, List, [], ◌∷◌, ltb, ◌==◌,
  if◌then◌else◌, min, length, get_elem?, set, take, replicate, write_front,
}
use pipepp_core.ErrorCode.{ErrorCode}
use pipepp_core.Expected.{Result, ok, fail}

-- `data_` and `size_`
pub record FixedString : Type 0 where
  pub buffer : List ℕ
  pub size : ℕ

-- `char data_[N + 1]{}`, and `data_[0] = '\0'`
abbrev pub empty_string : ℕ → FixedString
empty_string N = record { buffer = replicate (suc N) 0; size = 0 }

-- The copy that every writer makes: the first `n` characters, then the terminator.
abbrev pub fill : FixedString → List ℕ → ℕ → FixedString
fill s sv n = record { buffer = set (write_front s.buffer (take n sv)) n 0; size = n }

-- `fixed_string(const char* str, std::size_t len)` and `fixed_string(std::string_view)`
unfoldable pub from_view : ℕ → List ℕ → FixedString
from_view N sv = fill (empty_string N) sv (min (length sv) N)

-- `while (str[size_] && size_ < N) ++size_`, with `room` for `N - size_`. A list that ends stands
-- for its terminator.
unfoldable pub scan : ℕ → List ℕ → ℕ
scan zero str = 0
scan (suc room) [] = 0
scan (suc room) (c ∷ str) = if c == 0 then 0 else suc (scan room str)

-- `fixed_string(const char* str)`
unfoldable pub from_c_string : ℕ → List ℕ → FixedString
unfolding scan
from_c_string N str = fill (empty_string N) str (scan N str)

-- `operator std::string_view`
abbrev pub as_view : FixedString → List ℕ
as_view s = take s.size s.buffer

-- `fixed_string(const fixed_string<M>& other)` for `M <= N`
unfoldable pub widen : ℕ → FixedString → FixedString
widen N other = fill (empty_string N) other.buffer other.size

-- `checked_from`: an oversized view is refused and leaves the string alone.
unfoldable pub checked_from : ℕ → FixedString → List ℕ → Result × FixedString
checked_from N s sv =
    if ltb N (length sv) then (fail ErrorCode.buffer_overflow, s) else (ok, fill s sv (length sv))

unfoldable pub from_or_truncate : ℕ → FixedString → List ℕ → FixedString
from_or_truncate N s sv = fill s sv (min (length sv) N)

-- The loop of `operator==`: the first `n` characters agree.
unfoldable pub same_front : ℕ → List ℕ → List ℕ → Bool
same_front zero xs ys = true
same_front (suc n) (x ∷ xs) (y ∷ ys) = x == y && same_front n xs ys
same_front (suc n) xs ys = false

-- `operator==(const fixed_string&)`
unfoldable pub equal : FixedString → FixedString → Bool
unfolding same_front
equal s t = if s.size == t.size then same_front s.size s.buffer t.buffer else false

-- `==` and `<` of `std::string_view`
abbrev pub view_equal : List ℕ → List ℕ → Bool
view_equal [] [] = true
view_equal (x ∷ xs) (y ∷ ys) = x == y && view_equal xs ys
view_equal xs ys = false

abbrev pub view_less : List ℕ → List ℕ → Bool
view_less xs [] = false
view_less [] (y ∷ ys) = true
view_less (x ∷ xs) (y ∷ ys) = if x == y then view_less xs ys else ltb x y

-- `operator==(std::string_view)`
unfoldable pub equal_view : FixedString → List ℕ → Bool
equal_view s sv = view_equal (as_view s) sv

-- `operator<(const fixed_string&)`
unfoldable pub less : FixedString → FixedString → Bool
less s t = view_less (as_view s) (as_view t)

-- What every operation keeps: the buffer's length, the bound, and the terminator.
pub record IsValid (N : ℕ) (s : FixedString) : Type 0 where
  pub room : length s.buffer ≡ suc N
  pub bounded : s.size ≤ N
  pub terminated : get_elem? s.buffer s.size ≡ some 0
