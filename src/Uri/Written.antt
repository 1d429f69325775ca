-- ===== src/Uri/Written.antt =====
-- URIs of include/pipepp/core/uri.hpp that are written from parts, and what both parsers share on
-- them.
use pipepp_core.Prelude.{
  ℕ, suc, ◌+◌, ◌≡◌, refl, sym, ap, ◌∙◌, false, Option, none, some, List, [], ◌∷◌, ◌++◌, arith,
  length, drop, take-append, append-nil,
}
use pipepp_core.Text.{find_text, Lacks}
use pipepp_core.Uri.{
  parse_schemeless, split_port, StringView, is_empty, UriView, no_uri, userinfo,
  parse_path_query_fragment, scheme_mark, parse_with, set_path,
}
use pipepp_core.Uri.PathQuery.{marked, text_of, IsTail, path_texts, parse_path_query_fragment_lem}
use pipepp_core.Uri.Authority.{authority_text, authority_texts, host_port_text, IsUser}

-- The parts that a URI with an authority is written from.
pub record Parts : Type 0 where
  pub scheme : List ℕ
  pub user : Option (List ℕ)
  pub host : List ℕ
  pub port : Option (List ℕ)
  pub path : List ℕ
  pub query : Option (List ℕ)
  pub fragment : Option (List ℕ)

abbrev pub authority_of : Parts → List ℕ
authority_of u = authority_text u.user u.host u.port

abbrev pub tail_of : Parts → List ℕ
tail_of u = u.path ++ (marked b'?' u.query ++ marked b'#' u.fragment)

abbrev pub rest_of : Parts → List ℕ
rest_of u = authority_of u ++ tail_of u

-- `scheme://user@host:port/path?query#fragment`
abbrev pub written : Parts → List ℕ
written u = u.scheme ++ (scheme_mark ++ rest_of u)

-- The texts of a parsed URI: scheme, authority, host, port, user part, path, query, fragment.
pub record Texts : Type 0 where
  pub scheme : List ℕ
  pub authority : List ℕ
  pub host : List ℕ
  pub port : List ℕ
  pub user : List ℕ
  pub path : List ℕ
  pub query : List ℕ
  pub fragment : List ℕ

abbrev pub texts : UriView → Texts
texts v = record {
  scheme = v.scheme.text;
  authority = v.authority.text;
  host = v.host.text;
  port = v.port.text;
  user = (userinfo v).text;
  path = v.path.text;
  query = v.query.text;
  fragment = v.fragment.text;
}

abbrev pub parts_texts : Parts → Texts
parts_texts u = record {
  scheme = u.scheme;
  authority = authority_of u;
  host = u.host;
  port = text_of u.port;
  user = text_of u.user;
  path = u.path;
  query = text_of u.query;
  fragment = text_of u.fragment;
}

-- The conditions that the two parsers share.
pub record IsUri (u : Parts) : Type 0 where
  pub scheme_plain : Lacks b':' u.scheme
  pub user_plain : IsUser u.user (host_port_text u.host u.port)
  pub no_slash : Lacks b'/' (authority_of u)
  pub path_query : Lacks b'?' u.path
  pub path_hash : Lacks b'#' u.path
  pub tail_plain : IsTail u.query u.fragment

find_text-scheme :
    (s rest : List ℕ)
    → Lacks b':' s
    → find_text scheme_mark (s ++ (scheme_mark ++ rest)) ≡ some (length s)
unfolding find_text
find_text-scheme [] rest h = refl
find_text-scheme (x ∷ s) rest h = ground (arith, h.0, find_text-scheme s rest h.1)

drop_three : (s rest : List ℕ) → drop (length s + 3) (s ++ (scheme_mark ++ rest)) ≡ rest
drop_three [] rest = refl
drop_three (x ∷ s) rest =
    let e : length (x ∷ s) + 3 ≡ suc (length s + 3) = omega arith in rw e (drop_three s rest)

pub not-is_empty :
    (home start : ℕ) (xs : List ℕ) (c : ℕ) (ys : List ℕ)
    → is_empty (record { home = home; start = start; text = xs ++ c ∷ ys }) ≡ false
not-is_empty home start [] c ys = refl
not-is_empty home start (x ∷ xs) c ys = refl

-- Where the scheme is found, the parser goes on behind it.
pub parse_with_lem :
    (parse_rest : StringView → UriView → UriView) (home start : ℕ) (u : Parts)
    → Lacks b':' u.scheme
    → parse_with parse_rest (record { home = home; start = start; text = written u })
      ≡ parse_rest
          (record { home = home; start = start + (length u.scheme + 3); text = rest_of u })
          (record no_uri {
            full_str = record { home = home; start = start; text = written u };
            scheme = record { home = home; start = start + 0; text = u.scheme };
          })
unfolding parse_with parse_schemeless
parse_with_lem parse_rest home start u h =
    rw
      (
        not-is_empty home start u.scheme b':' (b'/' ∷ b'/' ∷ rest_of u),
        find_text-scheme u.scheme (rest_of u) h,
      )
      λ i.
        parse_rest
          (record {
            home = home;
            start = start + (length u.scheme + 3);
            text = drop_three u.scheme (rest_of u) i;
          })
          (record no_uri {
            full_str = record { home = home; start = start; text = written u };
            scheme = record {
              home = home;
              start = start + 0;
              text = take-append u.scheme (scheme_mark ++ rest_of u) i;
            };
          })

-- The fields that an authority parser leaves alone.
abbrev pub KeepsRest : UriView → UriView → Type 0
KeepsRest a b =
    (a.scheme ≡ b.scheme)
    × (a.path ≡ b.path)
    × (a.query ≡ b.query)
    × (a.fragment ≡ b.fragment)
    × (a.full_str ≡ b.full_str)

pub split_port-KeepsRest :
    (v : StringView) (o : Option ℕ) (out : UriView) → KeepsRest (split_port v o out) out
split_port-KeepsRest v none out = (refl, refl, refl, refl, refl)
split_port-KeepsRest v (some i) out = (refl, refl, refl, refl, refl)

-- From the texts of an authority and of a path to those of the URI.
pub texts-set_path :
    (a : UriView) (v : StringView) (u : Parts)
    → a.scheme.text ≡ u.scheme
    → authority_texts a ≡ (authority_of u, u.host, text_of u.port, text_of u.user)
    → path_texts (parse_path_query_fragment v) ≡ (u.path, text_of u.query, text_of u.fragment)
    → texts (set_path a (parse_path_query_fragment v)) ≡ parts_texts u
texts-set_path a v u s e p = λ i. record {
  scheme = s i;
  authority = (e i).0;
  host = (e i).1;
  port = (e i).2;
  user = (e i).3;
  path = (p i).0;
  query = (p i).1;
  fragment = (p i).2;
}

pub path_read :
    (v : StringView) (u : Parts)
    → IsUri u
    → v.text ≡ tail_of u
    → path_texts (parse_path_query_fragment v) ≡ (u.path, text_of u.query, text_of u.fragment)
path_read v u h e =
    ap
      (λ t.
        path_texts
          (parse_path_query_fragment (record { home = v.home; start = v.start; text = t })))
      e
    ∙ parse_path_query_fragment_lem v.home v.start u.path u.query u.fragment h.path_query
        h.path_hash h.tail_plain

-- The result with the scheme set and nothing else, as the parsers hand it on.
abbrev pub Kept : UriView → Type 0
Kept out = (out.path.text ≡ []) × (out.query.text ≡ []) × (out.fragment.text ≡ [])

-- From the texts of an authority with no path behind it to those of the URI.
pub texts-no_path :
    (a out : UriView) (u : Parts)
    → KeepsRest a out
    → Kept out
    → out.scheme.text ≡ u.scheme
    → (u.path ≡ []) × (u.query ≡ none) × (u.fragment ≡ none)
    → authority_texts a ≡ (authority_of u, u.host, text_of u.port, text_of u.user)
    → texts a ≡ parts_texts u
texts-no_path a out u k e s n r = λ i. record {
  scheme = (ap (λ v. v.text) k.0 ∙ s) i;
  authority = (r i).0;
  host = (r i).1;
  port = (r i).2;
  user = (r i).3;
  path = (ap (λ v. v.text) k.1 ∙ (e.0 ∙ sym n.0)) i;
  query = (ap (λ v. v.text) k.2 ∙ (e.1 ∙ sym (ap text_of n.1))) i;
  fragment = (ap (λ v. v.text) k.3 ∙ (e.2 ∙ sym (ap text_of n.2))) i;
}

pub rest-no_path :
    (u : Parts)
    → (u.path ≡ []) × (u.query ≡ none) × (u.fragment ≡ none)
    → rest_of u ≡ authority_of u
rest-no_path u (a, b, c) = rw (a, b, c) (append-nil (authority_of u))
