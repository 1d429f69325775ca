-- ===== src/Registry.antt =====
-- include/pipepp/core/source_registry.hpp: a table from URI schemes to factories. `A` is the type of
-- the sources (`any_source`), and `W` what the factories share.
pub mod Lookup
pub mod Types
pub mod Threads
use pipepp_core.Prelude.{
  ℕ, zero, suc, ◌+◌, ◌≤◌, ◌≡◌, Bool, true, false, Option, none, some, List, [], ◌∷◌, ltb,
  if◌then◌else◌, get_elem?, length, set, take, replicate,
}
use pipepp_core.Config.{Config}
use pipepp_core.Exec.{Exec, done, ◌>>=◌}
use pipepp_core.FixedString.{FixedString, empty_string, equal_view}
use pipepp_core.Stages.{callee}
use pipepp_core.Text.{find_text}
use pipepp_core.Uri.{StringView, substr, UriView, no_uri, scheme_mark}
use pipepp_core.Uri.Basic.{parse}

-- `factory_fn`
abbrev pub Factory : Type 0 → Type 0 → Type 0
Factory A W = UriView → W → Exec (A × W)

-- `entry`
pub record Entry (A W : Type 0) : Type 0 where
  pub scheme : FixedString
  pub factory : Option (Factory A W)

-- `source_registry<Config>`
pub record Registry (A W : Type 0) : Type 0 where
  pub config : Config
  pub entries : List (Entry A W)
  pub count : ℕ

-- The scheme before "://", or the whole text.
abbrev pub scheme_of : StringView → Option ℕ → StringView
scheme_of v (some scheme_end) = substr v 0 scheme_end
scheme_of v none = v

-- What the factory is given: the parsed URI, which stands at `addr`, or the scheme alone.
abbrev pub view_for : Config → ℕ → StringView → Option ℕ → UriView
view_for c addr v (some scheme_end) = (parse c addr v.text).view
view_for c addr v none = record no_uri { scheme = v; full_str = v }

module _ {A W : Type 0} where
  abbrev pub no_entry : Config → Entry A W
  no_entry c = record { scheme = empty_string c.max_scheme_len; factory = none }

  -- `source_registry() = default`
  abbrev pub new_registry : Config → Registry A W
  new_registry c = record { config = c; entries = replicate c.max_schemes (no_entry c); count = 0 }

  -- `register_scheme`, for both overloads: the first makes its factory from a type.
  unfoldable pub register_scheme : Registry A W → FixedString → Factory A W → Bool × Registry A W
  register_scheme r scheme factory =
      if ltb r.count r.config.max_schemes
      then (
        true,
        record r {
          entries = set r.entries r.count (record { scheme = scheme; factory = some factory });
          count = suc r.count;
        },
      )
      else (false, r)

  -- An entry of the array; the code never reads one behind the end.
  abbrev pub entry_at : Config → Option (Entry A W) → Entry A W
  entry_at c none = no_entry c
  entry_at c (some e) = e

  -- The loop of `create` and `has_scheme`, with `rounds` for `count - i`: the factory of the first
  -- entry with the scheme.
  unfoldable pub find_entry :
      Config → ℕ → ℕ → List (Entry A W) → List ℕ → Option (Option (Factory A W))
  find_entry c zero i entries scheme = none
  find_entry c (suc rounds) i entries scheme =
      let e = entry_at c (get_elem? entries i) in
      let rest = find_entry c rounds (suc i) entries scheme in
      if equal_view e.scheme scheme then some e.factory else rest

  abbrev pub is_found : Option (Option (Factory A W)) → Bool
  is_found none = false
  is_found (some f) = true

  -- `has_scheme`
  unfoldable pub has_scheme : Registry A W → List ℕ → Bool
  has_scheme r scheme = is_found (find_entry r.config r.count 0 r.entries scheme)

  -- The call of the factory that was found; `source_type{}` where there is none.
  abbrev pub call_factory : A → Option (Option (Factory A W)) → UriView → W → Exec (A × W)
  call_factory empty none uri w = done (empty, w)
  call_factory empty (some f) uri w = callee (some f) >>= λ g. g uri w

  -- `create`
  unfoldable pub create : A → Registry A W → ℕ → StringView → W → Exec (A × W)
  create empty r addr v w =
      let scheme_end = find_text scheme_mark v.text in
      call_factory empty (find_entry r.config r.count 0 r.entries (scheme_of v scheme_end).text)
        (view_for r.config addr v scheme_end) w
