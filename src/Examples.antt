-- ===== src/Examples.antt =====
-- Runs of the theorems at concrete inputs, and tests of the definitions against those of the
-- repository.
mod Strings
mod Uris
mod Pipelines
mod Threads
mod Closures
mod Registries
mod Running
mod Networks
mod Tests
mod Parts
use pipepp_core.Prelude.{
  ℕ, ◌≡◌, ◌≢◌, Bool, true, false, ◌&&◌, not, List, [], ◌∷◌, ◌==◌, arith, Bool-cases, inl, inr,
}
use pipepp_core.Text.{Lacks}

abbrev pub lacks : ℕ → List ℕ → Bool
lacks c [] = true
lacks c (x ∷ xs) = not (x == c) && lacks c xs

pub Lacks-lacks : (c : ℕ) (xs : List ℕ) → lacks c xs ≡ true → Lacks c xs
Lacks-lacks c [] h = tt
Lacks-lacks c (x ∷ xs) h = (λ e. ground arith, Lacks-lacks c xs (ground arith))
