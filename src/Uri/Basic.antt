-- ===== src/Uri/Basic.antt =====
-- include/pipepp/core/uri.hpp, lines 188 to 246: `basic_uri`, a URI in its own storage with a view
-- into it. `addr` is where the object stands, so a view into its storage has `addr` as its home.
pub mod Owned
pub mod Stored
use pipepp_core.Prelude.{
  ℕ, zero, suc, ◌≡◌, ◌⊎◌, Bool, true, false, not, Option, none, some, List, [], ◌∷◌, length, take,
  drop, if◌then◌else◌,
}
use pipepp_core.Text.{find_text}
use pipepp_core.Expected.{Result, has_value}
use pipepp_core.Config.{Config}
use pipepp_core.FixedString.{FixedString, empty_string, checked_from, as_view}
use pipepp_core.Uri.{StringView, no_view, substr, is_empty, UriView, no_uri, uri_empty, parse_by}

-- `basic_uri<Config>`
pub record BasicUri : Type 0 where
  pub storage : FixedString
  pub view : UriView
  pub truncated : Bool

-- `basic_uri() = default`
abbrev pub default_uri : Config → BasicUri
default_uri c = record { storage = empty_string c.max_uri_len; view = no_uri; truncated = false }

-- `std::string_view(storage_)` in the object at `addr`
abbrev pub stored_view : ℕ → FixedString → StringView
stored_view addr s = record { home = addr; start = 0; text = as_view s }

-- The lambda `rebind`
abbrev pub rebind_at : StringView → StringView → Option ℕ → StringView
rebind_at base sv (some offset) = substr base offset (length sv.text)
rebind_at base sv none = sv

abbrev pub rebind : StringView → StringView → StringView
rebind base sv = if is_empty sv then sv else rebind_at base sv (find_text sv.text base.text)

-- `rebind_view`
unfoldable pub rebind_view : StringView → UriView → UriView
rebind_view base u = if is_empty u.full_str then u else record {
  scheme = rebind base u.scheme;
  authority = rebind base u.authority;
  host = rebind base u.host;
  port = rebind base u.port;
  path = rebind base u.path;
  query = rebind base u.query;
  fragment = rebind base u.fragment;
  full_str = base;
}

-- `parse`, behind `checked_from`
abbrev pub parse_stored : Config → ℕ → FixedString → BasicUri
parse_stored c addr s =
    let base = stored_view addr s in
    record { storage = s; view = rebind_view base (parse_by c.uri_parser base); truncated = false }

-- `parse`: the result is built in place at `addr`.
unfoldable pub parse : Config → ℕ → List ℕ → BasicUri
parse c addr uri_str =
    let r = checked_from c.max_uri_len (empty_string c.max_uri_len) uri_str in
    if has_value r.0
    then parse_stored c addr r.1
    else record { storage = empty_string c.max_uri_len; view = no_uri; truncated = true }

-- `parse_or_default`
unfoldable pub parse_or_default : Config → ℕ → List ℕ → BasicUri
parse_or_default c addr [] = default_uri c
parse_or_default c addr (x ∷ xs) = parse c addr (x ∷ xs)

-- `operator bool`
abbrev pub is_set : BasicUri → Bool
is_set u = not (uri_empty u.view)

-- The copy and the move that the compiler supplies: member by member, the views as they are.
unfoldable pub moved : BasicUri → BasicUri
moved other = record { storage = other.storage; view = other.view; truncated = other.truncated }

-- A view that is empty, or shows what stands in the storage of the object at `addr`.
abbrev pub Owned : ℕ → FixedString → StringView → Type 0
Owned addr s v =
    (v.text ≡ []) ⊎ ((v.home ≡ addr) × (v.text ≡ take (length v.text) (drop v.start (as_view s))))

-- Every view of a URI looks into its own storage.
pub record IsOwned (addr : ℕ) (u : BasicUri) : Type 0 where
  pub scheme : Owned addr u.storage u.view.scheme
  pub authority : Owned addr u.storage u.view.authority
  pub host : Owned addr u.storage u.view.host
  pub port : Owned addr u.storage u.view.port
  pub path : Owned addr u.storage u.view.path
  pub query : Owned addr u.storage u.view.query
  pub fragment : Owned addr u.storage u.view.fragment
  pub full_str : Owned addr u.storage u.view.full_str
