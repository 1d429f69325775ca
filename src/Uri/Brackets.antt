-- ===== src/Uri/Brackets.antt =====
-- How `detail::parse_authority_rfc3986` of include/pipepp/core/uri.hpp cuts `user@[host]:port`.
use pipepp_core.Prelude.{
  ℕ, suc, ◌+◌, ◌≡◌, refl, sym, ap, ◌∙◌, subst, ◌≢◌, ◌⊎◌, inl, inr, true, false, ◌&&◌, Option, none,
  some, List, [], ◌∷◌, ◌++◌, arith, leb, if◌then◌else◌, length, take, length-append, append_assoc,
}
use pipepp_core.Text.{find_char, rfind_char, Lacks}
use pipepp_core.Text.Search.{find_char-append}
use pipepp_core.Uri.{
  StringView, suffix, front_is, UriView, after_userinfo, before_at, set_host,
  parse_authority_rfc3986,
}
use pipepp_core.Uri.PathQuery.{marked, text_of, drop_past}
use pipepp_core.Uri.Authority.{
  authority_text, authority_texts, host_port_text, IsUser, IsPort, user_lem, port_lem,
}

unguarded :
    (home start : ℕ) (w : List ℕ) (out : UriView)
    → out.host.text ≡ []
    → let auth : StringView = record { home = home; start = start; text = w } in
      authority_texts (parse_authority_rfc3986 auth out)
      ≡ authority_texts (set_host (after_userinfo auth) (record out { authority = auth }))
unfolding parse_authority_rfc3986 find_char rfind_char
unguarded home start [] out k = λ i. ([], k i, out.port.text, [])
unguarded home start (c ∷ w) out k = refl

-- A host in brackets, or one that does not begin with '[' and leaves the port at the last ':'.
abbrev pub IsBracketed : List ℕ → Type 0
IsBracketed h = (inner : List ℕ) × (h ≡ b'[' ∷ (inner ++ b']' ∷ [])) × Lacks b']' inner

abbrev pub NotFront : ℕ → List ℕ → Type 0
NotFront c [] = Unit {0}
NotFront c (x ∷ xs) = x ≢ c

abbrev pub IsHost : List ℕ → Option (List ℕ) → Type 0
IsHost h p = IsBracketed h ⊎ (NotFront b'[' h × IsPort h p)

abbrev SetsHost : StringView → List ℕ → Option (List ℕ) → UriView → Type 0
SetsHost v h p out =
    let r = set_host v out in
    (r.authority ≡ out.authority) × (r.host.text ≡ h) × (r.port.text ≡ text_of p)

take_past : (xs ys : List ℕ) (c : ℕ) → take (length xs + 1) (xs ++ c ∷ ys) ≡ xs ++ c ∷ []
take_past [] ys c = refl
take_past (x ∷ xs) ys c =
    let e : length (x ∷ xs) + 1 ≡ suc (length xs + 1) = omega arith in
    rw e (ap (◌∷◌ x) (take_past xs ys c))

front_is-host :
    (h : List ℕ) (p : Option (List ℕ))
    → NotFront b'[' h
    → front_is b'[' (host_port_text h p) ≡ false
front_is-host [] none f = refl
front_is-host [] (some p) f = refl
front_is-host (x ∷ h) p f = ground arith

plain_lem :
    (v : StringView) (h : List ℕ) (p : Option (List ℕ)) (out : UriView)
    → v.text ≡ host_port_text h p
    → NotFront b'[' h
    → IsPort h p
    → out.port.text ≡ []
    → SetsHost v h p out
plain_lem v h p out e f c k =
    let plain : (leb 2 (length v.text) && front_is b'[' v.text) ≡ false =
      ground (arith, e, ap (front_is b'[') e ∙ front_is-host h p f) in
    rw plain (port_lem v h p out e c k)

port_behind :
    (after : StringView) (p : Option (List ℕ)) (old : StringView)
    → after.text ≡ marked b':' p
    → old.text ≡ []
    → (if front_is b':' after.text then suffix after 1 else old).text ≡ text_of p
port_behind after none old e k = rw e k
port_behind after (some p) old e k = rw e

bracket_lem :
    (home start : ℕ) (inner : List ℕ) (p : Option (List ℕ)) (out : UriView)
    → Lacks b']' inner
    → out.port.text ≡ []
    → let h = b'[' ∷ (inner ++ b']' ∷ []) in
      SetsHost (record { home = home; start = start; text = host_port_text h p }) h p out
bracket_lem home start inner p out c k =
    rw (append_assoc inner (b']' ∷ []) (marked b':' p), long, find_end)
      (
        refl,
        take_past front rest b']',
        port_behind (suffix (record { home = home; start = start; text = text }) (length front + 1))
            p out.port (drop_past front rest b']') k,
      )
  where
    front : List ℕ
    front = b'[' ∷ inner

    rest : List ℕ
    rest = marked b':' p

    text : List ℕ
    text = front ++ b']' ∷ rest

    long : leb 2 (length text) ≡ true
    long = ground (arith, length-append inner (b']' ∷ rest))

    find_end : find_char b']' text ≡ some (length front)
    find_end = find_char-append b']' front rest (omega arith, c)

set_host_lem :
    (v : StringView) (h : List ℕ) (p : Option (List ℕ)) (out : UriView)
    → v.text ≡ host_port_text h p
    → IsHost h p
    → out.port.text ≡ []
    → SetsHost v h p out
set_host_lem v h p out e (inl (inner, shape, c)) k =
    subst (λ h'. SetsHost v h' p out) (sym shape)
      (subst
        (λ w.
          SetsHost (record { home = v.home; start = v.start; text = w })
            (b'[' ∷ (inner ++ b']' ∷ [])) p out)
        (sym (e ∙ ap (λ h'. host_port_text h' p) shape))
        (bracket_lem v.home v.start inner p out c k))
set_host_lem v h p out e (inr (f, c)) k = plain_lem v h p out e f c k

-- The RFC 3986 parser reads an authority of a user part, a host and a port, the first and the last
-- with their marks or absent, back as these parts, where the user part ends at the first '@', the
-- host stands in brackets or does not begin with '[' and leaves the port at the last ':', and no
-- host or port was set before.
pub parse_authority_rfc3986_lem :
    (home start : ℕ) (u : Option (List ℕ)) (h : List ℕ) (p : Option (List ℕ)) (out : UriView)
    → IsUser u (host_port_text h p)
    → IsHost h p
    → out.host.text ≡ []
    → out.port.text ≡ []
    → authority_texts (
        parse_authority_rfc3986
          (record { home = home; start = start; text = authority_text u h p })
          out)
      ≡ (authority_text u h p, h, text_of p, text_of u)
parse_authority_rfc3986_lem home start u h p out a b n k =
    let (user_behind, user_before) = user_lem home start u (host_port_text h p) a in
    let (kept, host_read, port_read) =
      set_host_lem (after_userinfo auth) h p (record out { authority = auth }) user_behind b k in
    unguarded home start (authority_text u h p) out n ∙ λ i. (
      (kept i).text,
      host_read i,
      port_read i,
      (ap (λ v. (before_at v (find_char b'@' v.text)).text) kept ∙ user_before) i,
    )
  where
    auth : StringView
    auth = record { home = home; start = start; text = authority_text u h p }
