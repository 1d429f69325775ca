-- ===== src/Pipeline/Build/Dangling.antt =====
-- The URI that a pipeline of include/pipepp/core/pipeline.hpp holds, and the storage that its views
-- look into.
use pipepp_core.Prelude.{ℕ, ◌≡◌, ◌≢◌, ◌≤◌, sym, subst, List, ◌∷◌, length}
use pipepp_core.Config.{Config}
use pipepp_core.Uri.Basic.{IsOwned, parse_or_default}
use pipepp_core.Uri.Basic.Owned.{parse-IsOwned}
use pipepp_core.Uri.Basic.Stored.{moved-not-IsOwned}
use pipepp_core.Pipeline.{Pipeline, make_uri, connect_uri, move_into}

-- A pipeline that is constructed at `addr` with a text for a URI that is not empty and fits owns what
-- its URI shows. One that is moved to another place does not, and neither does one whose URI was set
-- by `connect_uri`, where the parsed URI was a temporary at `temp`: its views look into an object
-- that it is not.
pub connect_uri-not-IsOwned :
    {S W : Type 0} (c : Config) (addr addr' temp x : ℕ) (xs : List ℕ) (src : S) (p : Pipeline S W)
    → addr ≢ addr'
    → temp ≢ addr
    → length (x ∷ xs) ≤ c.max_uri_len
    → p.config ≡ c
    → IsOwned addr (make_uri {W = W} c addr src (x ∷ xs)).owned_uri
      × (¬ IsOwned addr' (move_into (make_uri {W = W} c addr src (x ∷ xs))).owned_uri)
      × (¬ IsOwned addr (connect_uri p temp (x ∷ xs)).owned_uri)
unfolding make_uri connect_uri parse_or_default
connect_uri-not-IsOwned c addr addr' temp x xs src p apart other fits same = (
  parse-IsOwned c addr (x ∷ xs),
  moved-not-IsOwned c addr addr' x xs apart fits,
  moved-not-IsOwned p.config temp addr x xs other
      (subst (λ d. length (x ∷ xs) ≤ d.max_uri_len) (sym same) fits),
)
