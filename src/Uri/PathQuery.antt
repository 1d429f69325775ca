-- ===== src/Uri/PathQuery.antt =====
-- How `detail::parse_path_query_fragment` of include/pipepp/core/uri.hpp cuts a text.
use pipepp_core.Prelude.{
  ℕ, suc, ◌+◌, ◌≡◌, refl, sym, ap, ◌∙◌, Option-cases, inl, inr, Option, none, some, List, [], ◌∷◌,
  ◌++◌, arith, ltb, lt→ltb, if◌then◌else◌, length, drop, take-append, length-append, append-nil,
  append_assoc,
}
use pipepp_core.Text.{find_char, Lacks}
use pipepp_core.Text.Search.{find_char-Lacks, find_char-append, find_char_past, Lacks-append}
use pipepp_core.Uri.{
  StringView, no_view, substr, suffix, ParsedPath, cut_at, cut_before, split_fragment,
  query_fragment, parse_path_query_fragment,
}

-- A component with its mark in front, or nothing.
abbrev pub marked : ℕ → Option (List ℕ) → List ℕ
marked c none = []
marked c (some xs) = c ∷ xs

abbrev pub text_of : Option (List ℕ) → List ℕ
text_of none = []
text_of (some xs) = xs

-- What a query and a fragment must lack for the text to be read back: the query a '#', and the
-- fragment, where there is no query, a '?'.
abbrev pub IsTail : Option (List ℕ) → Option (List ℕ) → Type 0
IsTail (some q) f = Lacks b'#' q
IsTail none (some f) = Lacks b'?' f
IsTail none none = Unit {0}

abbrev pub path_texts : ParsedPath → List ℕ × List ℕ × List ℕ
path_texts pp = (pp.path.text, pp.query.text, pp.fragment.text)

pub drop_past : (xs ys : List ℕ) (c : ℕ) → drop (length xs + 1) (xs ++ c ∷ ys) ≡ ys
drop_past [] ys c = refl
drop_past (x ∷ xs) ys c =
    let e : length (x ∷ xs) + 1 ≡ suc (length xs + 1) = omega arith in rw e (drop_past xs ys c)

-- The path that the parser sets.
abbrev path_of : StringView → StringView
path_of str =
    let path_len =
      cut_before (find_char b'#' str.text) (cut_at (find_char b'?' str.text) (length str.text)) in
    if ltb 0 path_len then substr str 0 path_len else no_view

-- The path is the text before the cut, also where the code leaves it unset.
path-text :
    (v : StringView) (p rest : List ℕ) (n : ℕ)
    → v.text ≡ p ++ rest
    → n ≡ length p
    → (if ltb 0 n then substr v 0 n else no_view).text ≡ p
path-text v [] rest n e k = rw k
path-text v (c ∷ cs) rest n e k =
    rw (k, lt→ltb 0 (length (c ∷ cs)) (omega arith), e) (take-append (c ∷ cs) rest)

split_fragment_lem :
    (v : StringView) (q : List ℕ) (f : Option (List ℕ))
    → v.text ≡ q ++ marked b'#' f
    → Lacks b'#' q
    → ((split_fragment v (find_char b'#' v.text)).0.text ≡ q)
      × ((split_fragment v (find_char b'#' v.text)).1.text ≡ text_of f)
split_fragment_lem v q none e h =
    let clean : v.text ≡ q = e ∙ append-nil q in rw (clean, find_char-Lacks b'#' q h) (refl, refl)
split_fragment_lem v q (some f) e h =
    rw (e, find_char-append b'#' q f h) (take-append q (b'#' ∷ f), drop_past q f b'#')

-- A text that begins with `p` is cut behind `p`, where a mark or the end follows.
module _ (home start : ℕ) (p : List ℕ) (no_q : Lacks b'?' p) (no_h : Lacks b'#' p) where
  abbrev view_of : List ℕ → StringView
  view_of rest = record { home = home; start = start; text = p ++ rest }

  cut_at_query :
      (rest : List ℕ)
      → cut_before
          (find_char b'#' (p ++ b'?' ∷ rest))
          (cut_at (find_char b'?' (p ++ b'?' ∷ rest)) (length (p ++ b'?' ∷ rest)))
        ≡ length p
  unfolding find_char
  cut_at_query rest = elim (Option-cases (find_char b'#' rest)) [
    | inl e ↦
        ground
          (arith, e, find_char_past b'#' p (b'?' ∷ rest) no_h, find_char-append b'?' p rest no_q)
    | inr (i, e) ↦
        ground
          (arith, e, find_char_past b'#' p (b'?' ∷ rest) no_h, find_char-append b'?' p rest no_q)
  ]

  cut_at_fragment :
      (rest : List ℕ)
      → cut_before
          (find_char b'#' (p ++ b'#' ∷ rest))
          (cut_at (find_char b'?' (p ++ b'#' ∷ rest)) (length (p ++ b'#' ∷ rest)))
        ≡ length p
  unfolding find_char
  cut_at_fragment rest = elim (Option-cases (find_char b'?' rest)) [
    | inl e ↦ ground (
      arith,
      e,
      find_char_past b'?' p (b'#' ∷ rest) no_q,
      find_char-append b'#' p rest no_h,
      length-append p (b'#' ∷ rest),
    )
    | inr (i, e) ↦
        ground
          (arith, e, find_char_past b'?' p (b'#' ∷ rest) no_q, find_char-append b'#' p rest no_h)
  ]

  parse-query :
      (q : List ℕ) (f : Option (List ℕ))
      → Lacks b'#' q
      → path_texts (parse_path_query_fragment (view_of (b'?' ∷ (q ++ marked b'#' f))))
        ≡ (p, q, text_of f)
  unfolding parse_path_query_fragment
  parse-query q f h = λ i. (cut i, (parts.0) i, (parts.1) i)
    where
      rest : List ℕ
      rest = q ++ marked b'#' f

      str : StringView
      str = view_of (b'?' ∷ rest)

      cut : (path_of str).text ≡ p
      cut = path-text str p (b'?' ∷ rest) _ refl (cut_at_query rest)

      parts :
          ((query_fragment str (find_char b'?' str.text) (find_char b'#' str.text)).0.text ≡ q)
          × ((query_fragment str (find_char b'?' str.text) (find_char b'#' str.text)).1.text
              ≡ text_of f)
      parts =
          rw (find_char-append b'?' p rest no_q)
            (split_fragment_lem (suffix str (length p + 1)) q f (drop_past p rest b'?') h)

  parse-fragment :
      (f : List ℕ)
      → Lacks b'?' f
      → path_texts (parse_path_query_fragment (view_of (b'#' ∷ f))) ≡ (p, [], f)
  unfolding parse_path_query_fragment
  parse-fragment f h = λ i. (cut i, (parts.0) i, (parts.1) i)
    where
      str : StringView
      str = view_of (b'#' ∷ f)

      cut : (path_of str).text ≡ p
      cut = path-text str p (b'#' ∷ f) _ refl (cut_at_fragment f)

      none_found : find_char b'?' str.text ≡ none
      none_found =
          find_char-Lacks b'?' str.text (Lacks-append b'?' p (b'#' ∷ f) no_q ((omega arith), h))

      parts :
          ((query_fragment str (find_char b'?' str.text) (find_char b'#' str.text)).0.text ≡ [])
          × ((query_fragment str (find_char b'?' str.text) (find_char b'#' str.text)).1.text ≡ f)
      parts = rw (none_found, find_char-append b'#' p f no_h) (refl, drop_past p f b'#')

  parse-path : path_texts (parse_path_query_fragment (view_of [])) ≡ (p, [], [])
  unfolding parse_path_query_fragment
  parse-path =
      let whole : p ++ [] ≡ p = append-nil p in
      let no_mark : find_char b'?' (p ++ []) ≡ none = rw whole (find_char-Lacks b'?' p no_q) in
      let no_hash : find_char b'#' (p ++ []) ≡ none = rw whole (find_char-Lacks b'#' p no_h) in
      λ i. (cut no_mark no_hash i, (parts no_mark no_hash).0 i, (parts no_mark no_hash).1 i)
    where
      str : StringView
      str = view_of []

      cut : find_char b'?' str.text ≡ none → find_char b'#' str.text ≡ none → (path_of str).text ≡ p
      cut a b = path-text str p [] _ refl (rw (a, b) (ap length (append-nil p)))

      parts :
          find_char b'?' str.text ≡ none
          → find_char b'#' str.text ≡ none
          → ((query_fragment str (find_char b'?' str.text) (find_char b'#' str.text)).0.text ≡ [])
            × ((query_fragment str (find_char b'?' str.text) (find_char b'#' str.text)).1.text ≡ [])
      parts a b = rw (a, b) (refl, refl)

-- A text of a path, a query and a fragment, each of the last two with its mark or absent, is read
-- back as these parts, if the path has no mark, the query no '#', and a fragment with no query
-- before it no '?'.
pub parse_path_query_fragment_lem :
    (home start : ℕ) (p : List ℕ) (q f : Option (List ℕ))
    → Lacks b'?' p
    → Lacks b'#' p
    → IsTail q f
    → path_texts (
        parse_path_query_fragment
          (record { home = home; start = start; text = p ++ (marked b'?' q ++ marked b'#' f) }))
      ≡ (p, text_of q, text_of f)
parse_path_query_fragment_lem home start p (some q) f a b h = parse-query home start p a b q f h
parse_path_query_fragment_lem home start p none (some f) a b h = parse-fragment home start p a b f h
parse_path_query_fragment_lem home start p none none a b h = parse-path home start p a b

-- A '?' inside a fragment that no query precedes is taken for the mark of a query: the fragment is
-- lost, and what follows the '?' becomes the query. Here the path has no mark, the fragment's part
-- before the '?' has no '?', and the part behind it no '#'.
pub fragment_question_mark :
    (home start : ℕ) (p f g : List ℕ)
    → Lacks b'?' p
    → Lacks b'#' p
    → Lacks b'?' f
    → Lacks b'#' g
    → path_texts (
        parse_path_query_fragment
          (record { home = home; start = start; text = p ++ (b'#' ∷ (f ++ b'?' ∷ g)) }))
      ≡ (p, g, [])
unfolding parse_path_query_fragment
fragment_question_mark home start p f g a b no_q no_h = λ i. (cut i, parts.0 i, parts.1 i)
  where
    str : StringView
    str = record { home = home; start = start; text = p ++ (b'#' ∷ (f ++ b'?' ∷ g)) }

    front : List ℕ
    front = p ++ b'#' ∷ f

    regroup : str.text ≡ front ++ b'?' ∷ g
    regroup = sym (append_assoc p (b'#' ∷ f) (b'?' ∷ g))

    at_query : find_char b'?' str.text ≡ some (length front)
    at_query =
        ap (find_char b'?') regroup
        ∙ find_char-append b'?' front g (Lacks-append b'?' p (b'#' ∷ f) a (omega arith, no_q))

    at_hash : find_char b'#' str.text ≡ some (length p)
    at_hash = find_char-append b'#' p (f ++ b'?' ∷ g) b

    cut : (path_of str).text ≡ p
    cut = path-text str p (b'#' ∷ (f ++ b'?' ∷ g)) _ refl (
        rw (at_query, at_hash)
          (rw (lt→ltb (length p) (length front) (omega (arith, length-append p (b'#' ∷ f)))) refl))

    behind : drop (length front + 1) str.text ≡ g
    behind = ap (drop (length front + 1)) regroup ∙ drop_past front g b'?'

    parts :
        ((query_fragment str (find_char b'?' str.text) (find_char b'#' str.text)).0.text ≡ g)
        × ((query_fragment str (find_char b'?' str.text) (find_char b'#' str.text)).1.text ≡ [])
    parts = rw at_query (
        split_fragment_lem (suffix str (length front + 1)) g none (behind ∙ sym (append-nil g))
          no_h)
