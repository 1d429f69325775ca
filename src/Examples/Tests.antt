-- ===== src/Examples/Tests.antt =====
-- Tests of the parsers, some in the manner of test/unit/test_uri.cpp, and of the strings.
use pipepp_core.Prelude.{◌≡◌, refl, true, [], ◌∷◌}
use pipepp_core.FixedString.{from_view, as_view, less}
use pipepp_core.Text.{find_char, rfind_char, find_text}
use pipepp_core.Uri.{
  uri_empty, userinfo, parse_path_query_fragment, parse_authority_minimal, parse_authority_rfc3986,
  parse_schemeless, minimal_rest, rfc3986_rest, parse_with, minimal_parse, rfc3986_parse,
}

-- "mqtt://b:18/t#f"
fragment_test :
    (minimal_parse (record {
      home = 1;
      start = 0;
      text =
          (b'm' ∷ b'q' ∷ b't' ∷ b't' ∷ b':' ∷ b'/' ∷ b'/' ∷ b'b' ∷ b':' ∷ b'1' ∷ b'8' ∷ b'/' ∷ b't'
            ∷ b'#' ∷ b'f' ∷ []);
    })).fragment.text
    ≡ (b'f' ∷ [])
unfolding minimal_parse parse_with minimal_rest parse_authority_minimal parse_path_query_fragment
    find_char rfind_char find_text
fragment_test = refl

port_test :
    (minimal_parse (record {
      home = 1;
      start = 0;
      text =
          (b'm' ∷ b'q' ∷ b't' ∷ b't' ∷ b':' ∷ b'/' ∷ b'/' ∷ b'b' ∷ b':' ∷ b'1' ∷ b'8' ∷ b'/' ∷ b't'
            ∷ b'#' ∷ b'f' ∷ []);
    })).port.text
    ≡ (b'1' ∷ b'8' ∷ [])
unfolding minimal_parse parse_with minimal_rest parse_authority_minimal parse_path_query_fragment
    find_char rfind_char find_text
port_test = refl

empty_test : uri_empty (minimal_parse (record { home = 1; start = 0; text = [] })) ≡ true
unfolding minimal_parse parse_with
empty_test = refl

-- "/path?q=1#f"
schemeless_test :
    (minimal_parse (record {
      home = 1;
      start = 0;
      text = (b'/' ∷ b'p' ∷ b'a' ∷ b't' ∷ b'h' ∷ b'?' ∷ b'q' ∷ b'=' ∷ b'1' ∷ b'#' ∷ b'f' ∷ []);
    })).query.text
    ≡ (b'q' ∷ b'=' ∷ b'1' ∷ [])
unfolding minimal_parse parse_with parse_schemeless parse_path_query_fragment find_char find_text
schemeless_test = refl

-- "mqtt://user@h"
userinfo_test :
    (userinfo (
      minimal_parse (record {
        home = 1;
        start = 0;
        text =
            (b'm' ∷ b'q' ∷ b't' ∷ b't' ∷ b':' ∷ b'/' ∷ b'/' ∷ b'u' ∷ b's' ∷ b'e' ∷ b'r' ∷ b'@'
              ∷ b'h' ∷ []);
      }))).text
    ≡ (b'u' ∷ b's' ∷ b'e' ∷ b'r' ∷ [])
unfolding minimal_parse parse_with minimal_rest parse_authority_minimal find_char rfind_char
    find_text
userinfo_test = refl

-- "a://[::1]:2?q"
brackets_test :
    (rfc3986_parse (record {
      home = 1;
      start = 0;
      text =
          (b'a' ∷ b':' ∷ b'/' ∷ b'/' ∷ b'[' ∷ b':' ∷ b':' ∷ b'1' ∷ b']' ∷ b':' ∷ b'2' ∷ b'?' ∷ b'q'
            ∷ []);
    })).host.text
    ≡ (b'[' ∷ b':' ∷ b':' ∷ b'1' ∷ b']' ∷ [])
unfolding rfc3986_parse parse_with rfc3986_rest parse_authority_rfc3986 parse_path_query_fragment
    find_char rfind_char find_text
brackets_test = refl

truncated_test :
    as_view (from_view 3 (b'h' ∷ b'e' ∷ b'l' ∷ b'l' ∷ b'o' ∷ [])) ≡ (b'h' ∷ b'e' ∷ b'l' ∷ [])
unfolding from_view
truncated_test = refl

less_test : less (from_view 4 (b'a' ∷ b'b' ∷ [])) (from_view 4 (b'a' ∷ b'b' ∷ b'c' ∷ [])) ≡ true
unfolding less from_view
less_test = refl
