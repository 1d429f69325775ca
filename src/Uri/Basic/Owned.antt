-- ===== src/Uri/Basic/Owned.antt =====
-- Which storage the views of a `basic_uri` (include/pipepp/core/uri.hpp) look into.
use pipepp_core.Prelude.{
  ℕ, ◌+◌, ◌≡◌, refl, sym, ap, ◌∙◌, inl, inr, Bool, true, false, Option, none, some, List, [], ◌++◌,
  length, take, drop, arith, if◌then◌else◌, Bool-cases, take_all,
}
use pipepp_core.Text.{find_char, find_text, Occurs}
use pipepp_core.Text.Search.{find_text_sound, find_text_complete}
use pipepp_core.Expected.{has_value}
use pipepp_core.Config.{Config, UriParserTag, minimal_uri_tag, rfc3986_uri_tag}
use pipepp_core.FixedString.{FixedString, empty_string, checked_from, as_view}
use pipepp_core.Uri.{
  StringView, substr, is_empty, UriView, no_uri, parse_by, before_at, minimal_split, minimal_rest,
  rfc3986_rest, by_scheme, parse_with, parse_schemeless, minimal_parse, rfc3986_parse,
}
use pipepp_core.Uri.Pieces.{HasPieces, parse_by-HasPieces}
use pipepp_core.Uri.Written.{texts}
use pipepp_core.Uri.RoundTrip.{minimal-KeepsRest}
use pipepp_core.Uri.Rfc3986.{rfc3986-KeepsRest}
use pipepp_core.Uri.Basic.{stored_view, rebind, rebind_view, parse_stored, parse, Owned, IsOwned}

before_at-text :
    (v w : StringView) (o : Option ℕ)
    → v.text ≡ w.text
    → (before_at v o).text ≡ (before_at w o).text
before_at-text v w (some i) e = ap (take i) e
before_at-text v w none e = refl

user-text :
    (v w : StringView)
    → v.text ≡ w.text
    → (before_at v (find_char b'@' v.text)).text ≡ (before_at w (find_char b'@' w.text)).text
user-text v w e =
    before_at-text v w (find_char b'@' v.text) e ∙ ap (λ t. (before_at w (find_char b'@' t)).text) e

minimal_split-full_str :
    (rest : StringView) (o : Option ℕ) (out : UriView)
    → (minimal_split rest o out).full_str ≡ out.full_str
minimal_split-full_str rest (some i) out = (minimal-KeepsRest (substr rest 0 i) out).4
minimal_split-full_str rest none out = (minimal-KeepsRest rest out).4

if-full_str :
    (b : Bool) (x y : UriView) (v : StringView)
    → x.full_str ≡ v
    → y.full_str ≡ v
    → (if b then x else y).full_str ≡ v
if-full_str true x y v p q = p
if-full_str false x y v p q = q

rfc3986_rest-full_str :
    (rest : StringView) (out : UriView) → (rfc3986_rest rest out).full_str ≡ out.full_str
unfolding rfc3986_rest
rfc3986_rest-full_str rest out =
    let kept = λ (n : ℕ). (rfc3986-KeepsRest (substr rest 0 n) out).4 in
    if-full_str _ _ _ out.full_str (kept _) (kept _)

by_scheme-full_str :
    (parse_rest : StringView → UriView → UriView)
    → ((v : StringView) (u : UriView) → (parse_rest v u).full_str ≡ u.full_str)
    → (v : StringView) (o : Option ℕ) → (by_scheme parse_rest v o).full_str ≡ v
unfolding parse_schemeless
by_scheme-full_str parse_rest keeps v (some i) = keeps _ _
by_scheme-full_str parse_rest keeps v none = refl

parse_by-full_str :
    (tag : UriParserTag) (v : StringView) → is_empty v ≡ false → (parse_by tag v).full_str ≡ v
unfolding parse_by minimal_parse rfc3986_parse parse_with minimal_rest
parse_by-full_str minimal_uri_tag v h =
    rw h (by_scheme-full_str minimal_rest (λ r u. minimal_split-full_str r _ u) v _)
parse_by-full_str rfc3986_uri_tag v h =
    rw h (by_scheme-full_str rfc3986_rest rfc3986_rest-full_str v _)

parse_by-empty : (tag : UriParserTag) (v : StringView) → is_empty v ≡ true → parse_by tag v ≡ no_uri
unfolding parse_by minimal_parse rfc3986_parse parse_with
parse_by-empty minimal_uri_tag v h = rw h
parse_by-empty rfc3986_uri_tag v h = rw h

nothing-IsOwned :
    (addr : ℕ) (s : FixedString) (t : Bool)
    → IsOwned addr (record { storage = s; view = no_uri; truncated = t })
nothing-IsOwned addr s t = record {
  scheme = inl refl;
  authority = inl refl;
  host = inl refl;
  port = inl refl;
  path = inl refl;
  query = inl refl;
  fragment = inl refl;
  full_str = inl refl;
}

module _ (addr : ℕ) (s : FixedString) where
  abbrev base : StringView
  base = stored_view addr s

  empty_text : (v : StringView) → is_empty v ≡ true → v.text ≡ []
  empty_text v h = ground arith

  -- A rebound piece shows the same text, from this storage.
  rebind_lem :
      (v : StringView)
      → Occurs v.text (as_view s)
      → ((rebind base v).text ≡ v.text) × Owned addr s (rebind base v)
  rebind_lem v (before, behind, e) = elim (Bool-cases (is_empty v)) [
    | inl nothing ↦ rw nothing (refl, inl (empty_text v nothing))
    | inr something ↦ rw something (rw (ap (find_text v.text) e ∙ at.1) (shown, inr (refl, back)))
  ]
    where
      at : (i : ℕ) × (find_text v.text (before ++ (v.text ++ behind)) ≡ some i)
      at = find_text_complete v.text before behind

      shown : take (length v.text) (drop at.0 (as_view s)) ≡ v.text
      shown = find_text_sound v.text (as_view s) at.0 (ap (find_text v.text) e ∙ at.1)

      back :
          take (length v.text) (drop at.0 (as_view s))
          ≡ take
              (length (take (length v.text) (drop at.0 (as_view s))))
              (drop (0 + at.0) (as_view s))
      back =
          let k : 0 + at.0 ≡ at.0 = omega arith in
          rw k (sym (ap (λ n. take n (drop at.0 (as_view s))) (ap length shown)))

  pub rebind_view-texts :
      (u : UriView) → HasPieces (as_view s) u → texts (rebind_view (stored_view addr s) u) ≡ texts u
  unfolding rebind_view
  rebind_view-texts u h = elim (Bool-cases (is_empty u.full_str)) [
    | inl nothing ↦ rw nothing
    | inr something ↦ rw something λ i. record {
      scheme = (rebind_lem u.scheme h.scheme).0 i;
      authority = (rebind_lem u.authority h.authority).0 i;
      host = (rebind_lem u.host h.host).0 i;
      port = (rebind_lem u.port h.port).0 i;
      user =
          user-text (rebind base u.authority) u.authority (rebind_lem u.authority h.authority).0 i;
      path = (rebind_lem u.path h.path).0 i;
      query = (rebind_lem u.query h.query).0 i;
      fragment = (rebind_lem u.fragment h.fragment).0 i;
    }
  ]

  rebind_view-IsOwned :
      (u : UriView)
      → HasPieces (as_view s) u
      → is_empty u.full_str ≡ false
      → IsOwned addr (record { storage = s; view = rebind_view base u; truncated = false })
  unfolding rebind_view
  rebind_view-IsOwned u h full = rw full (record {
    scheme = (rebind_lem u.scheme h.scheme).1;
    authority = (rebind_lem u.authority h.authority).1;
    host = (rebind_lem u.host h.host).1;
    port = (rebind_lem u.port h.port).1;
    path = (rebind_lem u.path h.path).1;
    query = (rebind_lem u.query h.query).1;
    fragment = (rebind_lem u.fragment h.fragment).1;
    full_str = inr (refl, sym (take_all (as_view s) (length (as_view s)) (omega arith)));
  })

  -- The whole text of a stored URI is viewed in this storage.
  pub rebind_view-full_str :
      (tag : UriParserTag)
      → is_empty (stored_view addr s) ≡ false
      → (rebind_view (stored_view addr s) (parse_by tag (stored_view addr s))).full_str
        ≡ stored_view addr s
  unfolding rebind_view
  rebind_view-full_str tag something =
      let full : is_empty (parse_by tag base).full_str ≡ false =
        ap is_empty (parse_by-full_str tag base something) ∙ something in
      rw full

  parse_stored-IsOwned : (c : Config) → IsOwned addr (parse_stored c addr s)
  unfolding rebind_view
  parse_stored-IsOwned c = elim (Bool-cases (is_empty base)) [
    | inl nothing ↦ rw (parse_by-empty c.uri_parser base nothing) (nothing-IsOwned addr s false)
    | inr something ↦
        rebind_view-IsOwned (parse_by c.uri_parser base) (parse_by-HasPieces c.uri_parser base)
          (ap is_empty (parse_by-full_str c.uri_parser base something) ∙ something)
  ]

-- `parse` leaves an object whose views are empty or look into its own storage, on every branch.
pub parse-IsOwned : (c : Config) (addr : ℕ) (uri_str : List ℕ) → IsOwned addr (parse c addr uri_str)
unfolding parse
parse-IsOwned c addr uri_str =
    elim (Bool-cases
      (has_value (checked_from c.max_uri_len (empty_string c.max_uri_len) uri_str).0)) [
        | inl good ↦ rw good (parse_stored-IsOwned addr _ c)
        | inr bad ↦ rw bad (nothing-IsOwned addr _ true)
      ]
