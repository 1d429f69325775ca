-- ===== src/Uri/Fields/Authority.antt =====
-- The fields that the authority parsers of include/pipepp/core/uri.hpp set.
use pipepp_core.Prelude.{ℕ, ◌+◌, Option, none, some, length, leb, ◌&&◌, arith}
use pipepp_core.Text.{find_char, rfind_char}
use pipepp_core.Text.Bounds.{Before, find_char-Before, rfind_char-Before}
use pipepp_core.Uri.{
  StringView, suffix, is_empty, front_is, UriView, behind_at, after_userinfo, split_port,
  split_bracket, set_host, parse_authority_minimal, parse_authority_rfc3986,
}
use pipepp_core.Uri.Fields.{PartLaws, AllFields, colon-Part, if-AllFields}

module _ (P : StringView → Type 0) (laws : PartLaws P) where
  pub behind_at-Part :
      (v : StringView) (o : Option ℕ) → Before 1 o (length v.text) → P v → P (behind_at v o)
  behind_at-Part v (some i) k p = laws.behind v (i + 1) k p
  behind_at-Part v none k p = p

  -- An authority parser sets three fields.
  pub authority-AllFields :
      (u : UriView) (a h p : StringView)
      → AllFields P u
      → P a
      → P h
      → P p
      → AllFields P (record u { authority = a; host = h; port = p })
  authority-AllFields u a h p k pa ph pp = record {
    scheme = k.scheme;
    authority = pa;
    host = ph;
    port = pp;
    path = k.path;
    query = k.query;
    fragment = k.fragment;
    full_str = k.full_str;
  }

  pub split_port-AllFields :
      (v : StringView) (o : Option ℕ) (u : UriView)
      → Before 1 o (length v.text)
      → P v
      → AllFields P u
      → AllFields P (split_port v o u)
  split_port-AllFields v (some i) u k p h =
      authority-AllFields u u.authority _ _ h h.authority (laws.front v i (omega arith) p)
        (laws.behind v (i + 1) k p)
  split_port-AllFields v none u k p h =
      authority-AllFields u u.authority v u.port h h.authority p h.port

  pub split_bracket-AllFields :
      (v : StringView) (o : Option ℕ) (u : UriView)
      → Before 1 o (length v.text)
      → P v
      → AllFields P u
      → AllFields P (split_bracket v o u)
  split_bracket-AllFields v (some i) u k p h =
      authority-AllFields u u.authority _ _ h h.authority (laws.front v (i + 1) k p)
        (colon-Part P laws (suffix v (i + 1)) u.port (laws.behind v (i + 1) k p) h.port)
  split_bracket-AllFields v none u k p h = h

  pub minimal-AllFields :
      (v : StringView) (u : UriView)
      → P v
      → AllFields P u
      → AllFields P (parse_authority_minimal v u)
  unfolding parse_authority_minimal
  minimal-AllFields v u p h =
      split_port-AllFields (after_userinfo v) _ _ (rfind_char-Before b':' _)
        (behind_at-Part v (find_char b'@' v.text) (find_char-Before b'@' v.text) p)
        (authority-AllFields u v u.host u.port h p h.host h.port)

  pub rfc3986-AllFields :
      (v : StringView) (u : UriView)
      → P v
      → AllFields P u
      → AllFields P (parse_authority_rfc3986 v u)
  unfolding parse_authority_rfc3986
  rfc3986-AllFields v u p h =
      let started = authority-AllFields u v u.host u.port h p h.host h.port in
      let q = behind_at-Part v (find_char b'@' v.text) (find_char-Before b'@' v.text) p in
      if-AllFields P laws (is_empty v) result (set_host host_port result) started (
        if-AllFields P laws (leb 2 (length host_port.text) && front_is b'[' host_port.text)
          (split_bracket host_port (find_char b']' host_port.text) result)
          (split_port host_port (rfind_char b':' host_port.text) result)
          (split_bracket-AllFields host_port (find_char b']' host_port.text) result
            (find_char-Before b']' host_port.text) q started)
          (split_port-AllFields host_port (rfind_char b':' host_port.text) result
            (rfind_char-Before b':' host_port.text) q started))
    where
      host_port : StringView
      host_port = after_userinfo v

      result : UriView
      result = record u { authority = v }
