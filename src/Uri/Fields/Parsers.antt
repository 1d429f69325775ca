-- ===== src/Uri/Fields/Parsers.antt =====
-- The fields that the two parsers of include/pipepp/core/uri.hpp set.
use pipepp_core.Prelude.{ℕ, ◌+◌, ◌≤◌, Option, none, some, [], ◌∷◌, length, arith}
use pipepp_core.Text.{find_char}
use pipepp_core.Text.Bounds.{Before, find_char-Before, find_text-Before}
use pipepp_core.Config.{UriParserTag, minimal_uri_tag, rfc3986_uri_tag}
use pipepp_core.Uri.{
  StringView, substr, suffix, cut_at, cut_before, UriView, no_uri, parse_schemeless, minimal_split,
  minimal_rest, rfc3986_rest, by_scheme, parse_with, minimal_parse, rfc3986_parse, parse_by,
}
use pipepp_core.Uri.Fields.{
  PartLaws, AllFields, if-AllFields, set_path-AllFields, cut_at-bounded, cut_before-bounded,
}
use pipepp_core.Uri.Fields.Authority.{minimal-AllFields, rfc3986-AllFields}

module _ (P : StringView → Type 0) (laws : PartLaws P) where
  pub minimal_rest-AllFields :
      (v : StringView) (u : UriView) → P v → AllFields P u → AllFields P (minimal_rest v u)
  unfolding minimal_rest
  minimal_rest-AllFields v u p h = go (find_char b'/' v.text) (find_char-Before b'/' v.text)
    where
      go : (o : Option ℕ) → Before 1 o (length v.text) → AllFields P (minimal_split v o u)
      go (some i) k =
          set_path-AllFields P laws _ (suffix v i)
            (minimal-AllFields P laws (substr v 0 i) u (laws.front v i (omega arith) p) h)
            (laws.behind v i (omega arith) p)
      go none k = minimal-AllFields P laws v u p h

  pub rfc3986_rest-AllFields :
      (v : StringView) (u : UriView) → P v → AllFields P u → AllFields P (rfc3986_rest v u)
  unfolding rfc3986_rest
  rfc3986_rest-AllFields v u p h =
      let out = rfc3986-AllFields P laws (substr v 0 _) u (laws.front v auth_end inside p) h in
      if-AllFields P laws _ _ _ out
        (set_path-AllFields P laws _ (suffix v _) out (laws.behind v auth_end inside p))
    where
      auth_end : ℕ
      auth_end =
          cut_before (find_char b'#' v.text)
            (cut_before (find_char b'?' v.text) (cut_at (find_char b'/' v.text) (length v.text)))

      inside : auth_end ≤ length v.text
      inside = cut_before-bounded (find_char b'#' v.text) _ (length v.text) (
          cut_before-bounded (find_char b'?' v.text) _ (length v.text) (
            cut_at-bounded 1 (find_char b'/' v.text) (length v.text)
              (find_char-Before b'/' v.text)))

  pub no_uri-AllFields : AllFields P no_uri
  no_uri-AllFields = record {
    scheme = laws.nothing;
    authority = laws.nothing;
    host = laws.nothing;
    port = laws.nothing;
    path = laws.nothing;
    query = laws.nothing;
    fragment = laws.nothing;
    full_str = laws.nothing;
  }

  module _ (parse_rest : StringView → UriView → UriView)
      (keeps : (v : StringView) (u : UriView)
        → P v
        → AllFields P u
        → AllFields P (parse_rest v u)) where
    pub by_scheme-AllFields :
        (v : StringView) (o : Option ℕ)
        → Before 3 o (length v.text)
        → P v
        → AllFields P (by_scheme parse_rest v o)
    unfolding parse_schemeless
    by_scheme-AllFields v (some i) k p = keeps _ _ (laws.behind v (i + 3) k p) (record {
      scheme = laws.front v i (omega arith) p;
      authority = laws.nothing;
      host = laws.nothing;
      port = laws.nothing;
      path = laws.nothing;
      query = laws.nothing;
      fragment = laws.nothing;
      full_str = p;
    })
    by_scheme-AllFields v none k p =
        set_path-AllFields P laws (record no_uri { full_str = v }) v
          (record {
            scheme = laws.nothing;
            authority = laws.nothing;
            host = laws.nothing;
            port = laws.nothing;
            path = laws.nothing;
            query = laws.nothing;
            fragment = laws.nothing;
            full_str = p;
          })
          p

    pub parse_with-AllFields : (v : StringView) → P v → AllFields P (parse_with parse_rest v)
    unfolding parse_with
    parse_with-AllFields v p =
        if-AllFields P laws _ _ _ no_uri-AllFields
          (by_scheme-AllFields v _ (find_text-Before b':' (b'/' ∷ b'/' ∷ []) v.text) p)

-- The fields that either parser sets have every property of the text that its parts inherit.
pub parse_by-AllFields :
    (P : StringView → Type 0) (laws : PartLaws P) (tag : UriParserTag) (uri : StringView)
    → P uri
    → AllFields P (parse_by tag uri)
unfolding parse_by minimal_parse rfc3986_parse
parse_by-AllFields P laws minimal_uri_tag uri p =
    parse_with-AllFields P laws minimal_rest (minimal_rest-AllFields P laws) uri p
parse_by-AllFields P laws rfc3986_uri_tag uri p =
    parse_with-AllFields P laws rfc3986_rest (rfc3986_rest-AllFields P laws) uri p
