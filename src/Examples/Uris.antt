-- ===== src/Examples/Uris.antt =====
-- Runs of the theorems on URIs.
use pipepp_core.Prelude.{ℕ, ◌≡◌, refl, inl, inr, some, List, [], ◌∷◌, ◌++◌, arith}
use pipepp_core.Config.{rfc3986_uri_tag, default_config}
use pipepp_core.Uri.{parse_path_query_fragment, minimal_parse, rfc3986_parse, parse_by}
use pipepp_core.Uri.Fields.{AllFields}
use pipepp_core.Pipeline.{make, make_uri, connect_uri, move_into}
use pipepp_core.Pipeline.Build.Dangling.{connect_uri-not-IsOwned}
use pipepp_core.Uri.Bounds.{Within, parse_by-Within}
use pipepp_core.Uri.PathQuery.{path_texts, fragment_question_mark}
use pipepp_core.Uri.Written.{Parts, authority_of, written, texts, parts_texts, IsUri}
use pipepp_core.Uri.RoundTrip.{minimal_parse-written}
use pipepp_core.Text.{find_text, find_char}
use pipepp_core.Uri.Agreement.{uri_texts, minimal_parse-rfc3986_parse}
use pipepp_core.Uri.Rfc3986.{rfc3986_parse-written, IsAuthority}
use pipepp_core.Uri.Basic.{parse, IsOwned}
use pipepp_core.Uri.Basic.Owned.{parse-IsOwned}
use pipepp_core.Examples.{Lacks-lacks}

-- "m://u@h:1/p?q#f"
abbrev parts : Parts
parts = record {
  scheme = b'm' ∷ [];
  user = some (b'u' ∷ []);
  host = b'h' ∷ [];
  port = some (b'1' ∷ []);
  path = b'/' ∷ b'p' ∷ [];
  query = some (b'q' ∷ []);
  fragment = some (b'f' ∷ []);
}

abbrev p_path : List ℕ
p_path = b'/' ∷ b'p' ∷ []

parts-IsUri : IsUri parts
parts-IsUri = record {
  scheme_plain = Lacks-lacks b':' parts.scheme refl;
  user_plain = Lacks-lacks _ (b'u' ∷ []) refl;
  no_slash = Lacks-lacks b'/' (authority_of parts) refl;
  path_query = Lacks-lacks b'?' p_path refl;
  path_hash = Lacks-lacks b'#' p_path refl;
  tail_plain = Lacks-lacks b'#' (b'q' ∷ []) refl;
}

parts-IsAuthority : IsAuthority parts
parts-IsAuthority = record {
  no_slash = Lacks-lacks b'/' (authority_of parts) refl;
  no_query = Lacks-lacks b'?' (authority_of parts) refl;
  no_hash = Lacks-lacks b'#' (authority_of parts) refl;
}

-- "/p#f?g"
fragment_question_mark_example :
    path_texts (
      parse_path_query_fragment (record {
        home = 1;
        start = 0;
        text = p_path ++ (b'#' ∷ ((b'f' ∷ []) ++ b'?' ∷ b'g' ∷ []));
      }))
    ≡ (p_path, b'g' ∷ [], [])
fragment_question_mark_example =
    fragment_question_mark 1 0 p_path (b'f' ∷ []) (b'g' ∷ []) (Lacks-lacks b'?' p_path refl)
      (Lacks-lacks b'#' p_path refl) (Lacks-lacks b'?' (b'f' ∷ []) refl)
      (Lacks-lacks b'#' (b'g' ∷ []) refl)

minimal_parse-written_example :
    texts (minimal_parse (record { home = 1; start = 0; text = written parts })) ≡ parts_texts parts
minimal_parse-written_example =
    minimal_parse-written 1 0 parts parts-IsUri (Lacks-lacks b':' (b'1' ∷ []) refl) (inl (_, refl))

rfc3986_parse-written_example :
    texts (rfc3986_parse (record { home = 1; start = 0; text = written parts })) ≡ parts_texts parts
rfc3986_parse-written_example =
    rfc3986_parse-written 1 0 parts parts-IsUri parts-IsAuthority
      (inr ((λ e. ground arith), Lacks-lacks b':' (b'1' ∷ []) refl)) (inr (_, refl))

parse-IsOwned_example : IsOwned 1 (parse default_config 1 (written parts))
parse-IsOwned_example = parse-IsOwned default_config 1 (written parts)

parse_by-Within_example :
    AllFields
      (Within (record { home = 1; start = 0; text = b'a' ∷ b':' ∷ b'/' ∷ b'/' ∷ b'[' ∷ [] }))
      (parse_by rfc3986_uri_tag
        (record { home = 1; start = 0; text = b'a' ∷ b':' ∷ b'/' ∷ b'/' ∷ b'[' ∷ [] }))
parse_by-Within_example =
    parse_by-Within rfc3986_uri_tag
      (record { home = 1; start = 0; text = b'a' ∷ b':' ∷ b'/' ∷ b'/' ∷ b'[' ∷ [] })

connect_uri-not-IsOwned_example :
    IsOwned 1 (make_uri {S = ℕ} {W = ℕ} default_config 1 0 (b'm' ∷ b':' ∷ [])).owned_uri
    × (¬ IsOwned 2
        (move_into (make_uri {S = ℕ} {W = ℕ} default_config 1 0 (b'm' ∷ b':' ∷ []))).owned_uri)
    × (¬ IsOwned 1
        (connect_uri (make {S = ℕ} {W = ℕ} default_config 0) 3 (b'm' ∷ b':' ∷ [])).owned_uri)
connect_uri-not-IsOwned_example =
    connect_uri-not-IsOwned default_config 1 2 3 b'm' (b':' ∷ []) 0
      (make {S = ℕ} {W = ℕ} default_config 0) (λ e. ground arith) (λ e. ground arith) (omega arith)
      refl

minimal_parse-rfc3986_parse_example :
    uri_texts (minimal_parse (record { home = 1; start = 0; text = written parts }))
    ≡ uri_texts (rfc3986_parse (record { home = 1; start = 0; text = written parts }))
unfolding find_text find_char
minimal_parse-rfc3986_parse_example =
    minimal_parse-rfc3986_parse (record { home = 1; start = 0; text = written parts })
      (omega arith, omega arith, refl)
