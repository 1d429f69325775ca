-- ===== src/Uri/Rfc3986.antt =====
-- The RFC 3986 parser of include/pipepp/core/uri.hpp on URIs that are written from parts.
use pipepp_core.Prelude.{
  ℕ, ◌≤◌, ◌≡◌, refl, ap, ◌∙◌, ◌⊎◌, Option-cases, inl, inr, Bool, true, false, Option, none, some,
  List, [], ◌∷◌, ◌++◌, arith, if◌then◌else◌, length, take, drop, take-append, drop-append,
  length-append,
}
use pipepp_core.Text.{find_char, Lacks}
use pipepp_core.Text.Search.{find_char-append, find_char_past, find_char-Lacks}
use pipepp_core.Uri.{
  StringView, substr, suffix, is_empty, UriView, cut_at, cut_before, after_userinfo, split_bracket,
  parse_authority_rfc3986, parse_path_query_fragment, rfc3986_rest, rfc3986_parse, set_path,
}
use pipepp_core.Uri.PathQuery.{marked, text_of}
use pipepp_core.Uri.Authority.{authority_texts}
use pipepp_core.Uri.Brackets.{IsHost, parse_authority_rfc3986_lem}
use pipepp_core.Uri.Written.{
  Parts, authority_of, tail_of, rest_of, written, texts, parts_texts, IsUri, KeepsRest,
  split_port-KeepsRest, texts-set_path, path_read, texts-no_path, rest-no_path, parse_with_lem,
  Kept,
}

-- A search that finds nothing before `n`.
abbrev AtLeast : ℕ → Option ℕ → Type 0
AtLeast n none = Unit {0}
AtLeast n (some i) = n ≤ i

cut_exact :
    (n len : ℕ) (a b c : Option ℕ)
    → AtLeast n a
    → AtLeast n b
    → AtLeast n c
    → n ≤ len
    → (a ≡ some n) ⊎ ((b ≡ some n) ⊎ (c ≡ some n))
    → cut_before c (cut_before b (cut_at a len)) ≡ n
cut_exact n len none none none p q r h e = ground arith
cut_exact n len none none (some k) p q r h e = ground arith
cut_exact n len none (some j) none p q r h e = ground arith
cut_exact n len none (some j) (some k) p q r h e = ground arith
cut_exact n len (some i) none none p q r h e = ground arith
cut_exact n len (some i) none (some k) p q r h e = ground arith
cut_exact n len (some i) (some j) none p q r h e = ground arith
cut_exact n len (some i) (some j) (some k) p q r h e = ground arith

find_char-AtLeast :
    (c : ℕ) (xs ys : List ℕ) → Lacks c xs → AtLeast (length xs) (find_char c (xs ++ ys))
find_char-AtLeast c xs ys h =
    rw (find_char_past c xs ys h)
      (elim (Option-cases (find_char c ys)) [ inl e ↦ rw e tt | inr (i, e) ↦ rw e (omega arith) ])

if-KeepsRest :
    (b : Bool) (x y out : UriView)
    → KeepsRest x out
    → KeepsRest y out
    → KeepsRest (if b then x else y) out
if-KeepsRest true x y out p q = p
if-KeepsRest false x y out p q = q

split_bracket-KeepsRest :
    (v : StringView) (o : Option ℕ) (out : UriView) → KeepsRest (split_bracket v o out) out
split_bracket-KeepsRest v none out = (refl, refl, refl, refl, refl)
split_bracket-KeepsRest v (some i) out = (refl, refl, refl, refl, refl)

pub rfc3986-KeepsRest :
    (v : StringView) (out : UriView) → KeepsRest (parse_authority_rfc3986 v out) out
unfolding parse_authority_rfc3986
rfc3986-KeepsRest v out =
    if-KeepsRest (is_empty v) _ _ out (refl, refl, refl, refl, refl)
      (if-KeepsRest _ _ _ out (split_bracket-KeepsRest (after_userinfo v) _ _)
        (split_port-KeepsRest (after_userinfo v) _ _))

-- Where the path of a written URI begins, for the RFC 3986 parser: at a '/', or there is none.
abbrev pub RfcPath : Parts → Type 0
RfcPath u = (u.path ≡ []) ⊎ ((p : List ℕ) × (u.path ≡ b'/' ∷ p))

-- An authority that none of the three marks cuts short.
pub record IsAuthority (u : Parts) : Type 0 where
  pub no_slash : Lacks b'/' (authority_of u)
  pub no_query : Lacks b'?' (authority_of u)
  pub no_hash : Lacks b'#' (authority_of u)

-- What follows the authority begins with a mark that ends it, or is nothing.
data Stop (u : Parts) : Type 0 where
  ends : (u.path ≡ []) × (u.query ≡ none) × (u.fragment ≡ none) → Stop u
  slash : (more : List ℕ) → tail_of u ≡ b'/' ∷ more → Stop u
  question : (more : List ℕ) → tail_of u ≡ b'?' ∷ more → Stop u
  hash : (more : List ℕ) → tail_of u ≡ b'#' ∷ more → Stop u

Stop-of : (u : Parts) (q f : Option (List ℕ)) → u.query ≡ q → u.fragment ≡ f → RfcPath u → Stop u
Stop-of u q f a b (inr (p, e)) =
    slash _ (ap (λ t. t ++ (marked b'?' u.query ++ marked b'#' u.fragment)) e)
Stop-of u (some q) f a b (inl e) = question (q ++ marked b'#' u.fragment) (rw (e, a))
Stop-of u none (some f) a b (inl e) = hash f (rw (e, a, b))
Stop-of u none none a b (inl e) = ends (e, a, b)

abbrev auth_end_of : List ℕ → ℕ
auth_end_of t =
    cut_before (find_char b'#' t)
      (cut_before (find_char b'?' t) (cut_at (find_char b'/' t) (length t)))

module _ (u : Parts) (h : IsAuthority u) where
  auth_end_exact :
      ((find_char b'/' (rest_of u) ≡ some (length (authority_of u)))
        ⊎ ((find_char b'?' (rest_of u) ≡ some (length (authority_of u)))
            ⊎ (find_char b'#' (rest_of u) ≡ some (length (authority_of u)))))
      → auth_end_of (rest_of u) ≡ length (authority_of u)
  auth_end_exact e =
      cut_exact (length (authority_of u)) _ _ _ _
        (find_char-AtLeast b'/' (authority_of u) (tail_of u) h.no_slash)
        (find_char-AtLeast b'?' (authority_of u) (tail_of u) h.no_query)
        (find_char-AtLeast b'#' (authority_of u) (tail_of u) h.no_hash)
        (omega (arith, length-append (authority_of u) (tail_of u))) e

  auth_end_lem : Stop u → auth_end_of (rest_of u) ≡ length (authority_of u)
  auth_end_lem (slash more e) = auth_end_exact (
      inl (
        ap (λ t. find_char b'/' (authority_of u ++ t)) e
        ∙ find_char-append b'/' (authority_of u) more h.no_slash))
  auth_end_lem (question more e) = auth_end_exact (
      inr (
        inl (
          ap (λ t. find_char b'?' (authority_of u ++ t)) e
          ∙ find_char-append b'?' (authority_of u) more h.no_query)))
  auth_end_lem (hash more e) = auth_end_exact (
      inr (
        inr (
          ap (λ t. find_char b'#' (authority_of u ++ t)) e
          ∙ find_char-append b'#' (authority_of u) more h.no_hash)))
  auth_end_lem (ends n) =
      rw
        (
          rest-no_path u n,
          find_char-Lacks b'/' (authority_of u) h.no_slash,
          find_char-Lacks b'?' (authority_of u) h.no_query,
          find_char-Lacks b'#' (authority_of u) h.no_hash,
        )
        refl

module _ (u : Parts) (w : IsUri u) (h : IsAuthority u) (out : UriView)
    (scheme_out : out.scheme.text ≡ u.scheme) (host_out : out.host.text ≡ [])
    (port_out : out.port.text ≡ []) (k : Kept out) (c : IsHost u.host u.port) where
  rfc3986_authority :
      (v : StringView)
      → v.text ≡ authority_of u
      → authority_texts (parse_authority_rfc3986 v out)
        ≡ (authority_of u, u.host, text_of u.port, text_of u.user)
  rfc3986_authority v e =
      ap
        (λ t.
          authority_texts
            (parse_authority_rfc3986 (record { home = v.home; start = v.start; text = t }) out))
        e
      ∙ parse_authority_rfc3986_lem v.home v.start u.user u.host u.port out w.user_plain c host_out
          port_out

  -- The parser behind the cut, at the view of the authority and of what follows it.
  after_cut : StringView → StringView → UriView
  after_cut auth behind =
      if is_empty behind
      then parse_authority_rfc3986 auth out
      else set_path (parse_authority_rfc3986 auth out) (parse_path_query_fragment behind)

  with_path :
      (auth behind : StringView)
      → auth.text ≡ authority_of u
      → behind.text ≡ tail_of u
      → (x : ℕ) (more : List ℕ) → tail_of u ≡ x ∷ more
      → texts (after_cut auth behind) ≡ parts_texts u
  unfolding after_cut
  with_path auth behind e b x more t =
      let some_left : is_empty behind ≡ false =
        ap (λ r. is_empty (record { home = 0; start = 0; text = r })) (b ∙ t) in
      rw some_left (
        texts-set_path (parse_authority_rfc3986 auth out) behind u
          (ap (λ v. v.text) (rfc3986-KeepsRest auth out).0 ∙ scheme_out) (rfc3986_authority auth e)
          (path_read behind u w b))

  after_cut_lem :
      (auth behind : StringView)
      → auth.text ≡ authority_of u
      → behind.text ≡ tail_of u
      → Stop u
      → texts (after_cut auth behind) ≡ parts_texts u
  unfolding after_cut
  after_cut_lem auth behind e b (slash more t) = with_path auth behind e b b'/' more t
  after_cut_lem auth behind e b (question more t) = with_path auth behind e b b'?' more t
  after_cut_lem auth behind e b (hash more t) = with_path auth behind e b b'#' more t
  after_cut_lem auth behind e b (ends n) =
      let nothing_left : is_empty behind ≡ true =
        ap (λ r. is_empty (record { home = 0; start = 0; text = r })) (b ∙ no_tail n) in
      rw nothing_left (
        texts-no_path (parse_authority_rfc3986 auth out) out u (rfc3986-KeepsRest auth out) k
          scheme_out n (rfc3986_authority auth e))
    where
      no_tail : (u.path ≡ []) × (u.query ≡ none) × (u.fragment ≡ none) → tail_of u ≡ []
      no_tail (x, y, z) = rw (x, y, z)

  rfc3986_rest_lem :
      (rest : StringView)
      → rest.text ≡ rest_of u
      → RfcPath u
      → texts (rfc3986_rest rest out) ≡ parts_texts u
  unfolding rfc3986_rest after_cut
  rfc3986_rest_lem rest r p =
      ap (λ n. texts (after_cut (substr rest 0 n) (suffix rest n))) cut
      ∙ after_cut_lem (substr rest 0 (length (authority_of u)))
          (suffix rest (length (authority_of u)))
          (ap (take (length (authority_of u))) r ∙ take-append (authority_of u) (tail_of u))
          (ap (drop (length (authority_of u))) r ∙ drop-append (authority_of u) (tail_of u)) s
    where
      s : Stop u
      s = Stop-of u u.query u.fragment refl refl p

      cut : auth_end_of rest.text ≡ length (authority_of u)
      cut = ap auth_end_of r ∙ auth_end_lem u h s

-- The RFC 3986 parser reads a written URI back as its parts, wherever the text stands: the scheme
-- has no ':', the user part ends at the first '@', the host stands in brackets or does not begin
-- with '[' and leaves the port at the last ':', the authority has no '/', '?' or '#', the path has
-- no '?' or '#' and is empty or begins with '/', the query has no '#', and a fragment with no query
-- before it no '?'.
pub rfc3986_parse-written :
    (home start : ℕ) (u : Parts)
    → IsUri u
    → IsAuthority u
    → IsHost u.host u.port
    → RfcPath u
    → texts (rfc3986_parse (record { home = home; start = start; text = written u }))
      ≡ parts_texts u
unfolding rfc3986_parse
rfc3986_parse-written home start u w h c p =
    ap texts (parse_with_lem rfc3986_rest home start u w.scheme_plain)
    ∙ rfc3986_rest_lem u w h _ refl refl refl (refl, refl, refl) c _ refl p
