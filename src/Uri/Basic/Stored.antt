-- ===== src/Uri/Basic/Stored.antt =====
-- What `basic_uri::parse` (include/pipepp/core/uri.hpp) stores, and what a copy of it views.
use pipepp_core.Prelude.{
  ℕ, ◌≤◌, ◌<◌, ◌≡◌, refl, sym, ap, ◌∙◌, ◌≢◌, ◌⊎◌, inl, inr, true, false, List, ◌∷◌, length, arith,
}
use pipepp_core.Config.{Config, minimal_uri_tag}
use pipepp_core.FixedString.{empty_string, checked_from, as_view}
use pipepp_core.FixedString.Contents.{checked_from_lem, empty_string-IsValid}
use pipepp_core.Uri.{no_uri, is_empty, parse_by}
use pipepp_core.Uri.Pieces.{parse_by-HasPieces}
use pipepp_core.Uri.Authority.{IsPort}
use pipepp_core.Uri.Written.{Parts, written, texts, parts_texts, IsUri}
use pipepp_core.Uri.RoundTrip.{MinimalTail, minimal_parse-written}
use pipepp_core.Uri.Basic.{stored_view, parse, moved, IsOwned}
use pipepp_core.Uri.Basic.Owned.{rebind_view-full_str, rebind_view-texts}

-- A text of at most `max_uri_len` characters is stored whole and shows the parts that the
-- configured parser reads in it; a longer one leaves an empty view and sets the flag.
pub parse_lem :
    (c : Config) (addr : ℕ) (uri_str : List ℕ)
    → ((length uri_str ≤ c.max_uri_len)
        × ((parse c addr uri_str).truncated ≡ false)
        × (as_view (parse c addr uri_str).storage ≡ uri_str)
        × (texts (parse c addr uri_str).view
            ≡ texts (parse_by c.uri_parser (record { home = addr; start = 0; text = uri_str }))))
      ⊎ ((c.max_uri_len < length uri_str)
          × ((parse c addr uri_str).truncated ≡ true)
          × ((parse c addr uri_str).view ≡ no_uri))
unfolding parse
parse_lem c addr uri_str =
    elim (checked_from_lem c.max_uri_len (empty_string c.max_uri_len) uri_str
      (empty_string-IsValid c.max_uri_len)) [
        | inl (fits, good, stored, valid) ↦ rw good (
            inl (
              fits,
              refl,
              stored,
              rebind_view-texts addr _ _ (parse_by-HasPieces c.uri_parser (stored_view addr _))
                  ∙ ap
                      (λ t.
                        texts (parse_by c.uri_parser (record { home = addr; start = 0; text = t })))
                      stored,
            ))
        | inr (long, refused) ↦ rw refused (inr (long, refl, refl))
      ]

-- A written URI that fits comes back as its parts from a `basic_uri` with the minimal parser, under
-- the conditions of that parser.
pub parse-written :
    (c : Config) (addr : ℕ) (u : Parts)
    → c.uri_parser ≡ minimal_uri_tag
    → length (written u) ≤ c.max_uri_len
    → IsUri u
    → IsPort u.host u.port
    → MinimalTail u
    → texts (parse c addr (written u)).view ≡ parts_texts u
parse-written c addr u minimal fits h p m = elim (parse_lem c addr (written u)) [
  | inl (_, _, _, read) ↦
      read
      ∙ (ap (λ tag. texts (parse_by tag (record { home = addr; start = 0; text = written u })))
            minimal
          ∙ by_minimal)
  | inr (long, _, _) ↦ absurd (omega arith)
]
  where
    by_minimal :
        texts (parse_by minimal_uri_tag (record { home = addr; start = 0; text = written u }))
        ≡ parts_texts u
    by_minimal = unfold parse_by in minimal_parse-written addr 0 u h p m

parse-full_str :
    (c : Config) (addr x : ℕ) (xs : List ℕ)
    → length (x ∷ xs) ≤ c.max_uri_len
    → ((parse c addr (x ∷ xs)).view.full_str.home ≡ addr)
      × ((parse c addr (x ∷ xs)).view.full_str.text ≡ x ∷ xs)
unfolding parse
parse-full_str c addr x xs fits =
    elim (checked_from_lem c.max_uri_len (empty_string c.max_uri_len) (x ∷ xs)
      (empty_string-IsValid c.max_uri_len)) [
        | inl (_, good, stored, _) ↦
            let whole =
              rebind_view-full_str addr
                (checked_from c.max_uri_len (empty_string c.max_uri_len) (x ∷ xs)).1 c.uri_parser
                (ap (λ t. is_empty (record { home = addr; start = 0; text = t })) stored) in
            rw good (ap (λ v. v.home) whole, ap (λ v. v.text) whole ∙ stored)
        | inr (long, _) ↦ absurd (omega arith)
      ]

-- A copy or a move keeps the views on the old object: after any text that is not empty and fits,
-- the object at the new place does not own what it shows. `connect_uri` moves its result so.
pub moved-not-IsOwned :
    (c : Config) (addr addr' : ℕ) (x : ℕ) (xs : List ℕ)
    → addr ≢ addr'
    → length (x ∷ xs) ≤ c.max_uri_len
    → ¬ IsOwned addr' (moved (parse c addr (x ∷ xs)))
unfolding moved
moved-not-IsOwned c addr addr' x xs other fits o =
    let (at, shown) = parse-full_str c addr x xs fits in
    elim o.full_str [ inl nothing ↦ cc (shown, nothing) | inr (here, _) ↦ other (sym at ∙ here) ]
