-- ===== src/Uri/Fields.antt =====
-- What holds of the text of a URI, of the empty view and of all parts that are cut out of a view
-- holds of every field that the parsers of include/pipepp/core/uri.hpp set.
pub mod Authority
pub mod Parsers
use pipepp_core.Prelude.{
  ℕ, ◌+◌, ◌≤◌, Bool, true, false, Option, none, some, List, [], ◌∷◌, length, if◌then◌else◌, ltb,
  leb, ◌&&◌, ◌≡◌, arith, Bool-cases, inl, inr,
}
use pipepp_core.Text.{find_char, rfind_char}
use pipepp_core.Text.Bounds.{Before, find_char-Before, rfind_char-Before, find_text-Before}
use pipepp_core.Config.{UriParserTag, minimal_uri_tag, rfc3986_uri_tag}
use pipepp_core.Uri.{
  StringView, no_view, substr, suffix, is_empty, cut_at, cut_before, front_is, UriView, no_uri,
  behind_at, after_userinfo, split_fragment, query_fragment, parse_path_query_fragment, split_port,
  split_bracket, set_host, parse_authority_minimal, parse_authority_rfc3986, set_path,
  parse_schemeless, minimal_split, minimal_rest, rfc3986_rest, by_scheme, parse_with, minimal_parse,
  rfc3986_parse, parse_by,
}

-- A property of views that the parts of a view inherit, as far as they are cut inside of it.
pub record PartLaws (P : StringView → Type 0) : Type 0 where
  pub nothing : P no_view
  pub behind : (v : StringView) (n : ℕ) → n ≤ length v.text → P v → P (suffix v n)
  pub front : (v : StringView) (n : ℕ) → n ≤ length v.text → P v → P (substr v 0 n)

-- Every field of a URI has it.
pub record AllFields (P : StringView → Type 0) (u : UriView) : Type 0 where
  pub scheme : P u.scheme
  pub authority : P u.authority
  pub host : P u.host
  pub port : P u.port
  pub path : P u.path
  pub query : P u.query
  pub fragment : P u.fragment
  pub full_str : P u.full_str

pub cut_at-bounded : (k : ℕ) (o : Option ℕ) (n : ℕ) → Before k o n → cut_at o n ≤ n
cut_at-bounded k none n h = omega arith
cut_at-bounded k (some i) n h = omega arith

pub cut_before-bounded : (o : Option ℕ) (len n : ℕ) → len ≤ n → cut_before o len ≤ n
cut_before-bounded none len n h = h
cut_before-bounded (some i) len n h = ground arith

module _ (P : StringView → Type 0) (laws : PartLaws P) where
  pub if-Part : (b : Bool) (x y : StringView) → P x → P y → P (if b then x else y)
  if-Part true x y p q = p
  if-Part false x y p q = q

  pub colon-Part :
      (v port : StringView) → P v → P port → P (if front_is b':' v.text then suffix v 1 else port)
  colon-Part v port p q = elim (Bool-cases (front_is b':' v.text)) [
    | inl e ↦ rw e (laws.behind v 1 (front-length v.text e) p)
    | inr e ↦ rw e q
  ]
    where
      front-length : (xs : List ℕ) → front_is b':' xs ≡ true → 1 ≤ length xs
      front-length [] e = cc
      front-length (x ∷ xs) e = omega arith

  pub if-AllFields :
      (b : Bool) (x y : UriView) → AllFields P x → AllFields P y → AllFields P (if b then x else y)
  if-AllFields true x y p q = p
  if-AllFields false x y p q = q

  pub split_fragment-Part :
      (v : StringView) (o : Option ℕ)
      → Before 1 o (length v.text)
      → P v
      → P (split_fragment v o).0 × P (split_fragment v o).1
  split_fragment-Part v (some i) k p = (laws.front v i (omega arith) p, laws.behind v (i + 1) k p)
  split_fragment-Part v none k p = (p, laws.nothing)

  pub query_fragment-Part :
      (v : StringView) (q h : Option ℕ)
      → Before 1 q (length v.text)
      → Before 1 h (length v.text)
      → P v
      → P (query_fragment v q h).0 × P (query_fragment v q h).1
  query_fragment-Part v (some i) h k l p =
      split_fragment-Part (suffix v (i + 1)) _ (find_char-Before b'#' _) (laws.behind v (i + 1) k p)
  query_fragment-Part v none (some i) k l p = (laws.nothing, laws.behind v (i + 1) l p)
  query_fragment-Part v none none k l p = (laws.nothing, laws.nothing)

  pub set_path-AllFields :
      (u : UriView) (v : StringView)
      → AllFields P u
      → P v
      → AllFields P (set_path u (parse_path_query_fragment v))
  unfolding parse_path_query_fragment
  set_path-AllFields u v h p = record {
    scheme = h.scheme;
    authority = h.authority;
    host = h.host;
    port = h.port;
    path =
        if-Part (ltb 0 path_len) (substr v 0 path_len) no_view (laws.front v path_len inside p)
          laws.nothing;
    query = tail.0;
    fragment = tail.1;
    full_str = h.full_str;
  }
    where
      path_len : ℕ
      path_len = cut_before (find_char b'#' v.text) (cut_at (find_char b'?' v.text) (length v.text))

      inside : path_len ≤ length v.text
      inside =
          cut_before-bounded _ _ _
            (cut_at-bounded 1 _ (length v.text) (find_char-Before b'?' v.text))

      tail :
          P (query_fragment v (find_char b'?' v.text) (find_char b'#' v.text)).0
          × P (query_fragment v (find_char b'?' v.text) (find_char b'#' v.text)).1
      tail =
          query_fragment-Part v (find_char b'?' v.text) (find_char b'#' v.text)
            (find_char-Before b'?' v.text) (find_char-Before b'#' v.text) p
