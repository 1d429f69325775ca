-- ===== src/Uri/RoundTrip.antt =====
-- The minimal parser of include/pipepp/core/uri.hpp on URIs that are written from parts.
use pipepp_core.Prelude.{
  ℕ, ◌≡◌, refl, ap, ◌∙◌, ◌⊎◌, inl, inr, none, some, List, [], ◌∷◌, ◌++◌, length, take, drop,
  take-append, drop-append,
}
use pipepp_core.Text.{find_char}
use pipepp_core.Text.Search.{find_char-Lacks, find_char-append}
use pipepp_core.Uri.{
  after_userinfo, StringView, substr, suffix, UriView, parse_authority_minimal, minimal_rest,
  minimal_split, minimal_parse,
}
use pipepp_core.Uri.PathQuery.{marked, text_of}
use pipepp_core.Uri.Authority.{authority_texts, IsPort, parse_authority_minimal_lem}
use pipepp_core.Uri.Written.{
  Parts, authority_of, tail_of, rest_of, written, texts, parts_texts, IsUri, parse_with_lem,
  KeepsRest, split_port-KeepsRest, texts-set_path, path_read, Kept, texts-no_path, rest-no_path,
}

-- Where the path of a written URI begins, for the minimal parser: at a '/', or nothing follows the
-- authority.
abbrev pub MinimalTail : Parts → Type 0
MinimalTail u =
    ((p : List ℕ) × (u.path ≡ b'/' ∷ p)) ⊎ ((u.path ≡ []) × (u.query ≡ none) × (u.fragment ≡ none))

pub minimal-KeepsRest :
    (v : StringView) (out : UriView) → KeepsRest (parse_authority_minimal v out) out
unfolding parse_authority_minimal
minimal-KeepsRest v out = split_port-KeepsRest (after_userinfo v) _ (record out { authority = v })

module _ (u : Parts) (h : IsUri u) (out : UriView) (scheme_out : out.scheme.text ≡ u.scheme)
    (port_out : out.port.text ≡ []) where
  minimal_authority :
      (v : StringView)
      → v.text ≡ authority_of u
      → IsPort u.host u.port
      → authority_texts (parse_authority_minimal v out)
        ≡ (authority_of u, u.host, text_of u.port, text_of u.user)
  minimal_authority v e c =
      ap
        (λ t.
          authority_texts
            (parse_authority_minimal (record { home = v.home; start = v.start; text = t }) out))
        e
      ∙ parse_authority_minimal_lem v.home v.start u.user u.host u.port out h.user_plain c port_out

  minimal_rest_lem :
      (rest : StringView)
      → rest.text ≡ rest_of u
      → IsPort u.host u.port
      → MinimalTail u
      → Kept out
      → texts (minimal_rest rest out) ≡ parts_texts u
  unfolding minimal_rest
  minimal_rest_lem rest r c (inl (p, e)) k =
      ap (λ o. texts (minimal_split rest o out)) found
      ∙ texts-set_path (parse_authority_minimal auth out) behind u
          (ap (λ v. v.text) (minimal-KeepsRest auth out).0 ∙ scheme_out)
          (minimal_authority auth
            (ap (take (length (authority_of u))) r ∙ take-append (authority_of u) (tail_of u)) c)
          (path_read behind u h
            (ap (drop (length (authority_of u))) r ∙ drop-append (authority_of u) (tail_of u)))
    where
      auth : StringView
      auth = substr rest 0 (length (authority_of u))

      behind : StringView
      behind = suffix rest (length (authority_of u))

      found : find_char b'/' rest.text ≡ some (length (authority_of u))
      found =
          ap (find_char b'/') r
          ∙ (ap
                (λ t.
                  find_char b'/'
                    (authority_of u ++ (t ++ (marked b'?' u.query ++ marked b'#' u.fragment))))
                e
              ∙ find_char-append b'/' (authority_of u) _ h.no_slash)
  minimal_rest_lem rest r c (inr n) k =
      ap (λ o. texts (minimal_split rest o out)) missing
      ∙ texts-no_path (parse_authority_minimal rest out) out u (minimal-KeepsRest rest out) k
          scheme_out n (minimal_authority rest (r ∙ rest-no_path u n) c)
    where
      missing : find_char b'/' rest.text ≡ none
      missing =
          ap (find_char b'/') (r ∙ rest-no_path u n)
          ∙ find_char-Lacks b'/' (authority_of u) h.no_slash

-- The minimal parser reads a written URI back as its parts, wherever the text stands: the scheme
-- has no ':', the user part ends at the first '@', the port begins at the last ':', the authority
-- has no '/', the path has no '?' or '#' and begins with '/', or nothing follows the authority, the
-- query has no '#', and a fragment with no query before it no '?'.
pub minimal_parse-written :
    (home start : ℕ) (u : Parts)
    → IsUri u
    → IsPort u.host u.port
    → MinimalTail u
    → texts (minimal_parse (record { home = home; start = start; text = written u }))
      ≡ parts_texts u
unfolding minimal_parse
minimal_parse-written home start u h c m =
    ap texts (parse_with_lem minimal_rest home start u h.scheme_plain)
    ∙ minimal_rest_lem u h _ refl refl _ refl c m (refl, refl, refl)
