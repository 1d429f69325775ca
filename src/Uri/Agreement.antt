-- ===== src/Uri/Agreement.antt =====
-- Where the two parsers of include/pipepp/core/uri.hpp agree.
use pipepp_core.Prelude.{
  ℕ, ◌+◌, ◌≤◌, ◌<◌, ◌≡◌, refl, sym, ap, ◌∙◌, Bool, true, false, ◌&&◌, Option, none, some, List, [],
  ◌∷◌, inl, inr, Bool-cases, length, take, take_all, length-drop, leb, arith, if◌then◌else◌,
}
use native.Mathlib.Nat.{add-zero}
use pipepp_core.Exec.{if_of_true, if_of_false}
use pipepp_core.Text.{find_char, rfind_char, find_text}
use pipepp_core.Text.Bounds.{Before, find_char-Before}
use pipepp_core.Uri.{
  StringView, UriView, is_empty, substr, suffix, cut_at, cut_before, front_is, after_userinfo,
  set_path, ParsedPath, scheme_mark, by_scheme, parse_path_query_fragment, parse_authority_minimal,
  parse_authority_rfc3986, minimal_rest, minimal_split, rfc3986_rest, parse_with, minimal_parse,
  rfc3986_parse,
}

-- What a URI's views show.
abbrev pub uri_texts :
    UriView → List ℕ × List ℕ × List ℕ × List ℕ × List ℕ × List ℕ × List ℕ × List ℕ
uri_texts u = (
  u.scheme.text, u.authority.text, u.host.text, u.port.text, u.path.text, u.query.text,
  u.fragment.text, u.full_str.text,
)

-- A mark that is not before `n`.
abbrev pub NotBefore : Option ℕ → ℕ → Type 0
NotBefore none n = Unit {0}
NotBefore (some m) n = n ≤ m

-- Behind the scheme: no '?' and no '#' before the first '/', or at all if there is no '/', and no
-- '[' at the front of the host.
abbrev pub PlainAuthority : StringView → Type 0
PlainAuthority rest =
    let n = cut_at (find_char b'/' rest.text) (length rest.text) in
    NotBefore (find_char b'?' rest.text) n
    × NotBefore (find_char b'#' rest.text) n
    × (front_is b'[' (after_userinfo (substr rest 0 n)).text ≡ false)

abbrev pub PlainBehind : StringView → Option ℕ → Type 0
PlainBehind v none = Unit {0}
PlainBehind v (some scheme_end) = PlainAuthority (suffix v (scheme_end + 3))

cut_before_none : (o : Option ℕ) (n : ℕ) → NotBefore o n → cut_before o n ≡ n
cut_before_none none n h = refl
cut_before_none (some m) n h = ground arith

is_empty-cons : (v : StringView) → 0 < length v.text → is_empty v ≡ false
is_empty-cons v h = go v.text h
  where
    go : (xs : List ℕ) → 0 < length xs → is_empty (record v { text = xs }) ≡ false
    go [] h = absurd (omega arith)
    go (x ∷ xs) h = refl

is_empty-nil : (v : StringView) → length v.text ≡ 0 → is_empty v ≡ true
is_empty-nil v h = go v.text h
  where
    go : (xs : List ℕ) → length xs ≡ 0 → is_empty (record v { text = xs }) ≡ true
    go [] h = refl
    go (x ∷ xs) h = absurd (omega arith)

and_false : (a b : Bool) → b ≡ false → (a && b) ≡ false
and_false true b h = h
and_false false b h = refl

-- The two parsers of an authority show the same, if the host is not in brackets and was not set.
authority_agree :
    (home start : ℕ) (xs : List ℕ) (out : UriView)
    → let auth : StringView = record { home = home; start = start; text = xs } in
      front_is b'[' (after_userinfo auth).text ≡ false
      → out.host.text ≡ []
      → uri_texts (parse_authority_minimal auth out) ≡ uri_texts (parse_authority_rfc3986 auth out)
unfolding parse_authority_minimal parse_authority_rfc3986 find_char rfind_char
authority_agree home start [] out h k = λ i. (
  out.scheme.text,
  [],
  sym k i,
  out.port.text,
  out.path.text,
  out.query.text,
  out.fragment.text,
  out.full_str.text,
)
authority_agree home start (x ∷ xs) out h k =
    let auth : StringView = record { home = home; start = start; text = x ∷ xs } in
    ap uri_texts (sym (if_of_false _ _ (and_false (leb 2 (length (after_userinfo auth).text)) _ h)))

-- What `set_path` shows is told by what the URI shows.
set_path_texts :
    (u v : UriView) (pp : ParsedPath)
    → uri_texts u ≡ uri_texts v
    → uri_texts (set_path u pp) ≡ uri_texts (set_path v pp)
set_path_texts u v pp h =
    ap (λ t. (t.0, t.1, t.2, t.3, pp.path.text, pp.query.text, pp.fragment.text, t.7)) h

-- `rfc3986_uri_parser::parse` behind the scheme, for an authority that ends at `n`.
abbrev split_at : StringView → UriView → ℕ → UriView
split_at rest out n =
    let after_auth = suffix rest n in
    let u = parse_authority_rfc3986 (substr rest 0 n) out in
    if is_empty after_auth then u else set_path u (parse_path_query_fragment after_auth)

split_agree :
    (rest : StringView) (out : UriView) (slash : Option ℕ)
    → Before 1 slash (length rest.text)
    → front_is b'[' (after_userinfo (substr rest 0 (cut_at slash (length rest.text)))).text ≡ false
    → out.host.text ≡ []
    → uri_texts (minimal_split rest slash out)
      ≡ uri_texts (split_at rest out (cut_at slash (length rest.text)))
split_agree rest out (some p) inside plain k =
    let full = is_empty-cons (suffix rest p) (omega (arith, inside, length-drop p rest.text)) in
    set_path_texts (parse_authority_minimal (substr rest 0 p) out)
      (parse_authority_rfc3986 (substr rest 0 p) out) (parse_path_query_fragment (suffix rest p))
      (authority_agree rest.home (rest.start + 0) (take p rest.text) out plain k)
    ∙ ap uri_texts (sym (if_of_false _ _ full))
split_agree rest out none inside plain k =
    let n = length rest.text in
    let whole : substr rest 0 n ≡ rest = λ i. record rest {
      start = add-zero rest.start i;
      text = take_all rest.text n (omega arith) i;
    } in
    ap (λ v. uri_texts (parse_authority_minimal v out)) (sym whole)
    ∙ (authority_agree rest.home (rest.start + 0) (take n rest.text) out plain k
        ∙ ap uri_texts (
            sym (
              if_of_true _ _
                (is_empty-nil (suffix rest n) (omega (arith, length-drop n rest.text))))))

rest_agree :
    (rest : StringView) (out : UriView)
    → PlainAuthority rest
    → out.host.text ≡ []
    → uri_texts (minimal_rest rest out) ≡ uri_texts (rfc3986_rest rest out)
unfolding minimal_rest rfc3986_rest
rest_agree rest out (no_q, no_h, plain) k =
    let slash = find_char b'/' rest.text in
    let q = find_char b'?' rest.text in
    let f = find_char b'#' rest.text in
    let n = cut_at slash (length rest.text) in
    split_agree rest out slash (find_char-Before b'/' rest.text) plain k
    ∙ ap (λ m. uri_texts (split_at rest out m))
        (sym (ap (cut_before f) (cut_before_none q n no_q) ∙ cut_before_none f n no_h))

by_scheme_agree :
    (v : StringView) (scheme_end : Option ℕ)
    → PlainBehind v scheme_end
    → uri_texts (by_scheme minimal_rest v scheme_end)
      ≡ uri_texts (by_scheme rfc3986_rest v scheme_end)
by_scheme_agree v none h = refl
by_scheme_agree v (some k) h = rest_agree (suffix v (k + 3)) _ h refl

-- Both parsers show the same of a text, if behind its scheme there is no '?' and no '#' before the
-- first '/', or at all if there is no '/', and the host does not begin with '['; and of any text
-- without "://".
pub minimal_parse-rfc3986_parse :
    (v : StringView)
    → PlainBehind v (find_text scheme_mark v.text)
    → uri_texts (minimal_parse v) ≡ uri_texts (rfc3986_parse v)
unfolding minimal_parse rfc3986_parse parse_with
minimal_parse-rfc3986_parse v h = elim (Bool-cases (is_empty v)) [
  | inl e ↦ ap uri_texts (if_of_true _ _ e ∙ sym (if_of_true _ _ e))
  | inr e ↦
      ap uri_texts (if_of_false _ _ e)
      ∙ (by_scheme_agree v (find_text scheme_mark v.text) h
          ∙ ap uri_texts (sym (if_of_false _ _ e)))
]
