-- ===== src/Uri/Authority.antt =====
-- How `detail::parse_authority_minimal` of include/pipepp/core/uri.hpp cuts `user@host:port`.
use pipepp_core.Prelude.{
  ℕ, ◌≡◌, refl, ap, ◌∙◌, Option, none, some, List, [], ◌∷◌, ◌++◌, take-append, append-nil,
  append_assoc,
}
use pipepp_core.Text.{find_char, rfind_char, Lacks}
use pipepp_core.Text.Search.{find_char-Lacks, find_char-append, rfind_char-Lacks, rfind_char-append}
use pipepp_core.Uri.{
  StringView, UriView, userinfo, after_userinfo, before_at, behind_at, split_port,
  parse_authority_minimal,
}
use pipepp_core.Uri.PathQuery.{marked, text_of, drop_past}

abbrev pub user_text : Option (List ℕ) → List ℕ
user_text none = []
user_text (some u) = u ++ b'@' ∷ []

abbrev pub host_port_text : List ℕ → Option (List ℕ) → List ℕ
host_port_text h p = h ++ marked b':' p

abbrev pub authority_text : Option (List ℕ) → List ℕ → Option (List ℕ) → List ℕ
authority_text u h p = user_text u ++ host_port_text h p

-- The user part ends at the first '@', or there is none.
abbrev pub IsUser : Option (List ℕ) → List ℕ → Type 0
IsUser none rest = Lacks b'@' rest
IsUser (some u) rest = Lacks b'@' u

-- The port begins at the last ':', or there is none.
abbrev pub IsPort : List ℕ → Option (List ℕ) → Type 0
IsPort h none = Lacks b':' h
IsPort h (some p) = Lacks b':' p

abbrev pub authority_texts : UriView → List ℕ × List ℕ × List ℕ × List ℕ
authority_texts u = (u.authority.text, u.host.text, u.port.text, (userinfo u).text)

pub user_lem :
    (home start : ℕ) (u : Option (List ℕ)) (rest : List ℕ)
    → IsUser u rest
    → let auth : StringView = record { home = home; start = start; text = user_text u ++ rest } in
      ((behind_at auth (find_char b'@' auth.text)).text ≡ rest)
      × ((before_at auth (find_char b'@' auth.text)).text ≡ text_of u)
user_lem home start none rest h = rw (find_char-Lacks b'@' rest h) (refl, refl)
user_lem home start (some u) rest h =
    rw (regroup, find_char-append b'@' u rest h)
      (drop_past u rest b'@', take-append u (b'@' ∷ rest))
  where
    regroup : (u ++ b'@' ∷ []) ++ rest ≡ u ++ b'@' ∷ rest
    regroup = append_assoc u (b'@' ∷ []) rest

pub port_lem :
    (v : StringView) (h : List ℕ) (p : Option (List ℕ)) (out : UriView)
    → v.text ≡ host_port_text h p
    → IsPort h p
    → out.port.text ≡ []
    → let r = split_port v (rfind_char b':' v.text) out in
      (r.authority ≡ out.authority) × (r.host.text ≡ h) × (r.port.text ≡ text_of p)
port_lem v h none out e c k =
    let clean : v.text ≡ h = e ∙ append-nil h in
    rw (clean, rfind_char-Lacks b':' h c) (refl, refl, k)
port_lem v h (some p) out e c k =
    rw (e, rfind_char-append b':' h p c) (refl, take-append h (b':' ∷ p), drop_past h p b':')

-- The minimal parser reads an authority of a user part, a host and a port, the first and the last
-- with their marks or absent, back as these parts, where the user part ends at the first '@' and
-- the port begins at the last ':', and no port was set before.
pub parse_authority_minimal_lem :
    (home start : ℕ) (u : Option (List ℕ)) (h : List ℕ) (p : Option (List ℕ)) (out : UriView)
    → IsUser u (host_port_text h p)
    → IsPort h p
    → out.port.text ≡ []
    → authority_texts (
        parse_authority_minimal
          (record { home = home; start = start; text = authority_text u h p })
          out)
      ≡ (authority_text u h p, h, text_of p, text_of u)
unfolding parse_authority_minimal
parse_authority_minimal_lem home start u h p out a b k =
    let (user_behind, user_before) = user_lem home start u (host_port_text h p) a in
    let (kept, host_read, port_read) =
      port_lem (after_userinfo auth) h p (record out { authority = auth }) user_behind b k in
    λ i. (
      (kept i).text,
      host_read i,
      port_read i,
      (ap (λ v. (before_at v (find_char b'@' v.text)).text) kept ∙ user_before) i,
    )
  where
    auth : StringView
    auth = record { home = home; start = start; text = authority_text u h p }
