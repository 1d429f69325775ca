-- ===== src/Uri.antt =====
-- include/pipepp/core/uri.hpp, lines 13 to 186: the view of a URI and the two parsers.
-- A view keeps the object that it looks into and the offset there, besides the text that it shows,
-- so that what becomes of a view when its object moves can be said (`Uri.Basic`).
pub mod Fields
pub mod Pieces
pub mod Bounds
pub mod PathQuery
pub mod Authority
pub mod Brackets
pub mod Written
pub mod RoundTrip
pub mod Rfc3986
pub mod Agreement
pub mod Basic
use pipepp_core.Prelude.{
  ℕ, suc, ◌+◌, ◌-◌, ◌≤◌, Bool, true, false, ◌&&◌, Option, none, some, List, [], ◌∷◌, ltb, leb, ◌==◌,
  if◌then◌else◌, length, take, drop,
}
use pipepp_core.Text.{find_char, rfind_char, find_text}
use pipepp_core.Config.{UriParserTag, minimal_uri_tag, rfc3986_uri_tag}

-- `std::string_view`: `home` names the object whose characters are viewed, 0 for none.
pub record StringView : Type 0 where
  pub home : ℕ
  pub start : ℕ
  pub text : List ℕ

-- `std::string_view{}`
abbrev pub no_view : StringView
no_view = record { home = 0; start = 0; text = [] }

-- `substr(pos, n)` and `substr(pos)`; the code never passes a `pos` behind the end.
abbrev pub substr : StringView → ℕ → ℕ → StringView
substr v pos n = record v { start = v.start + pos; text = take n (drop pos v.text) }

abbrev pub suffix : StringView → ℕ → StringView
suffix v pos = record v { start = v.start + pos; text = drop pos v.text }

abbrev pub is_empty : StringView → Bool
is_empty v = elim v.text [ [] ↦ true | c ∷ cs ↦ false ]

-- `uri_view`
pub record UriView : Type 0 where
  pub scheme : StringView
  pub authority : StringView
  pub host : StringView
  pub port : StringView
  pub path : StringView
  pub query : StringView
  pub fragment : StringView
  pub full_str : StringView

abbrev pub no_uri : UriView
no_uri = record {
  scheme = no_view;
  authority = no_view;
  host = no_view;
  port = no_view;
  path = no_view;
  query = no_view;
  fragment = no_view;
  full_str = no_view;
}

-- `uri_view::empty`
abbrev pub uri_empty : UriView → Bool
uri_empty u = is_empty u.scheme && is_empty u.authority && is_empty u.path

-- What stands before and behind an '@' that was found.
abbrev pub before_at : StringView → Option ℕ → StringView
before_at v (some at) = substr v 0 at
before_at v none = no_view

abbrev pub behind_at : StringView → Option ℕ → StringView
behind_at v (some at) = suffix v (at + 1)
behind_at v none = v

-- `uri_view::userinfo`
abbrev pub userinfo : UriView → StringView
userinfo u = before_at u.authority (find_char b'@' u.authority.text)

-- `detail::parsed_path`
pub record ParsedPath : Type 0 where
  pub path : StringView
  pub query : StringView
  pub fragment : StringView

-- `if (pos != npos) len = pos` and `if (pos != npos && pos < len) len = pos`
abbrev pub cut_at : Option ℕ → ℕ → ℕ
cut_at none len = len
cut_at (some pos) len = pos

abbrev pub cut_before : Option ℕ → ℕ → ℕ
cut_before none len = len
cut_before (some pos) len = if ltb pos len then pos else len

-- The query and the fragment behind a '?'.
abbrev pub split_fragment : StringView → Option ℕ → StringView × StringView
split_fragment after_q (some hpos) = (substr after_q 0 hpos, suffix after_q (hpos + 1))
split_fragment after_q none = (after_q, no_view)

-- The query and the fragment, from the first '?' and the first '#'.
abbrev pub query_fragment : StringView → Option ℕ → Option ℕ → StringView × StringView
query_fragment str (some qpos) hpos =
    let after_q = suffix str (qpos + 1) in split_fragment after_q (find_char b'#' after_q.text)
query_fragment str none (some hpos) = (no_view, suffix str (hpos + 1))
query_fragment str none none = (no_view, no_view)

-- `detail::parse_path_query_fragment`
unfoldable pub parse_path_query_fragment : StringView → ParsedPath
parse_path_query_fragment str =
    let qpos = find_char b'?' str.text in
    let hpos = find_char b'#' str.text in
    let path_len = cut_before hpos (cut_at qpos (length str.text)) in
    let tail = query_fragment str qpos hpos in
    record {
      path = if ltb 0 path_len then substr str 0 path_len else no_view;
      query = tail.0;
      fragment = tail.1;
    }

-- The host and the port around the last ':'; without one the port stays as it was.
abbrev pub split_port : StringView → Option ℕ → UriView → UriView
split_port host_port (some colon) out = record out {
  host = substr host_port 0 colon;
  port = suffix host_port (colon + 1);
}
split_port host_port none out = record out { host = host_port }

abbrev pub after_userinfo : StringView → StringView
after_userinfo auth = behind_at auth (find_char b'@' auth.text)

-- `detail::parse_authority_minimal`
unfoldable pub parse_authority_minimal : StringView → UriView → UriView
parse_authority_minimal auth out =
    let host_port = after_userinfo auth in
    split_port host_port (rfind_char b':' host_port.text) (record out { authority = auth })

abbrev pub front_is : ℕ → List ℕ → Bool
front_is c [] = false
front_is c (x ∷ xs) = x == c

-- The host and the port of an address in brackets; without ']' nothing is set.
abbrev pub split_bracket : StringView → Option ℕ → UriView → UriView
split_bracket host_port (some bracket_end) out =
    let after = suffix host_port (bracket_end + 1) in
    record out {
      host = substr host_port 0 (bracket_end + 1);
      port = if front_is b':' after.text then suffix after 1 else out.port;
    }
split_bracket host_port none out = out

-- The branch on a leading '['.
abbrev pub set_host : StringView → UriView → UriView
set_host host_port out =
    if leb 2 (length host_port.text) && front_is b'[' host_port.text
    then split_bracket host_port (find_char b']' host_port.text) out
    else split_port host_port (rfind_char b':' host_port.text) out

-- `detail::parse_authority_rfc3986`
unfoldable pub parse_authority_rfc3986 : StringView → UriView → UriView
parse_authority_rfc3986 auth out =
    let result = record out { authority = auth } in
    if is_empty auth then result else set_host (after_userinfo auth) result

-- The three assignments of `pp` to the result.
abbrev pub set_path : UriView → ParsedPath → UriView
set_path u pp = record u { path = pp.path; query = pp.query; fragment = pp.fragment }

-- `detail::parse_schemeless`
unfoldable pub parse_schemeless : StringView → UriView → UriView
parse_schemeless uri result = set_path result (parse_path_query_fragment uri)

-- "://"
abbrev pub scheme_mark : List ℕ
scheme_mark = b':' ∷ b'/' ∷ b'/' ∷ []

-- `minimal_uri_parser::parse` behind the scheme: the authority ends at the first '/'.
abbrev pub minimal_split : StringView → Option ℕ → UriView → UriView
minimal_split rest (some path_start) result =
    set_path (parse_authority_minimal (substr rest 0 path_start) result)
      (parse_path_query_fragment (suffix rest path_start))
minimal_split rest none result = parse_authority_minimal rest result

unfoldable pub minimal_rest : StringView → UriView → UriView
minimal_rest rest result = minimal_split rest (find_char b'/' rest.text) result

-- `rfc3986_uri_parser::parse` behind the scheme: the authority ends at the first '/', '?' or '#'.
unfoldable pub rfc3986_rest : StringView → UriView → UriView
rfc3986_rest rest result =
    let path_start = find_char b'/' rest.text in
    let query_start = find_char b'?' rest.text in
    let frag_start = find_char b'#' rest.text in
    let auth_end =
      cut_before frag_start (cut_before query_start (cut_at path_start (length rest.text))) in
    let out = parse_authority_rfc3986 (substr rest 0 auth_end) result in
    let after_auth = suffix rest auth_end in
    if is_empty after_auth then out else set_path out (parse_path_query_fragment after_auth)

-- The frame of both parsers: nothing for the empty text, and a path where there is no "://".
abbrev pub by_scheme : (StringView → UriView → UriView) → StringView → Option ℕ → UriView
by_scheme parse_rest uri (some scheme_end) =
    parse_rest (suffix uri (scheme_end + 3))
      (record no_uri { full_str = uri; scheme = substr uri 0 scheme_end })
by_scheme parse_rest uri none = parse_schemeless uri (record no_uri { full_str = uri })

unfoldable pub parse_with : (StringView → UriView → UriView) → StringView → UriView
parse_with parse_rest uri =
    if is_empty uri then no_uri else by_scheme parse_rest uri (find_text scheme_mark uri.text)

-- `minimal_uri_parser::parse`
unfoldable pub minimal_parse : StringView → UriView
minimal_parse = parse_with minimal_rest

-- `rfc3986_uri_parser::parse`
unfoldable pub rfc3986_parse : StringView → UriView
rfc3986_parse = parse_with rfc3986_rest

-- `uri_parser_map`
unfoldable pub parse_by : UriParserTag → StringView → UriView
parse_by minimal_uri_tag = minimal_parse
parse_by rfc3986_uri_tag = rfc3986_parse
