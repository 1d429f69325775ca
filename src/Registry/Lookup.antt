-- ===== src/Registry/Lookup.antt =====
-- What a registry of include/pipepp/core/source_registry.hpp finds.
use pipepp_core.Prelude.{
  ℕ, zero, suc, ◌≤◌, ◌<◌, ◌≡◌, refl, sym, ap, ◌∙◌, ◌⊎◌, inl, inr, true, false, ◌||◌, Option, none,
  some, List, [], ◌∷◌, ◌++◌, map, ltb, if◌then◌else◌, length, take, drop, take-drop_cons,
  take-set_last, length-set, length-take, length-replicate, Bool-cases, arith, tests,
}
use mathlib.Core.List.{map-append}
use pipepp_core.Config.{Config}
use pipepp_core.FixedString
use pipepp_core.FixedString.{FixedString, as_view, equal_view, view_equal}
use pipepp_core.FixedString.Compare.{eq_of_view_equal}
use pipepp_core.FixedString.Contents.{from_view_lem}
use pipepp_core.Text.{find_text}
use pipepp_core.Uri.{StringView, scheme_mark}
use pipepp_core.Registry.{
  Factory, Entry, Registry, register_scheme, no_entry, new_registry, find_entry, is_found,
  has_scheme, create, call_factory, scheme_of, view_for,
}

pub record IsValid {A W : Type 0} (r : Registry A W) : Type 0 where
  pub room : length r.entries ≡ r.config.max_schemes
  pub bounded : r.count ≤ r.config.max_schemes

differs : (n : ℕ) (xs : List ℕ) → n < length xs → view_equal (take n xs) xs ≡ false
differs n xs h = elim (Bool-cases (view_equal (take n xs) xs)) [
  | inl e ↦
      let same : length (take n xs) ≡ length xs = ap length (eq_of_view_equal (take n xs) xs e) in
      absurd (omega (arith, length-take n xs))
  | inr e ↦ e
]

module _ {A W : Type 0} where
  abbrev told : Entry A W → List ℕ × Option (Factory A W)
  told e = (as_view e.scheme, e.factory)

  -- The schemes and factories that a registry holds, in order.
  abbrev pub table : Registry A W → List (List ℕ × Option (Factory A W))
  table r = map told (take r.count r.entries)

  -- The first that has the scheme.
  abbrev pub first : List ℕ → List (List ℕ × Option (Factory A W)) → Option (Option (Factory A W))
  first scheme [] = none
  first scheme ((s, f) ∷ rows) = if view_equal s scheme then some f else first scheme rows

  pub new_registry-IsValid : (c : Config) → IsValid (new_registry {A = A} {W = W} c)
  new_registry-IsValid c = record {
    room = length-replicate c.max_schemes (no_entry c);
    bounded = omega arith;
  }

  -- `register_scheme` puts the scheme and its factory behind those that are there and keeps the
  -- registry well-formed, or, if it is full, returns false and changes nothing.
  pub register_scheme_lem :
      (r : Registry A W) (scheme : FixedString) (f : Factory A W)
      → IsValid r
      → let (res, r') = register_scheme r scheme f in
        ((res ≡ true) × (table r' ≡ table r ++ (as_view scheme, some f) ∷ []) × IsValid r')
        ⊎ ((r.count ≡ r.config.max_schemes) × (res ≡ false) × (r' ≡ r))
  unfolding register_scheme
  register_scheme_lem r scheme f v = elim (Bool-cases (ltb r.count r.config.max_schemes)) [
    | inl room ↦
        let e : Entry A W = record { scheme = scheme; factory = some f } in
        rw room (
          inl (
            refl,
            ap (map told) (take-set_last r.entries r.count e (omega (tests, v.room)))
                ∙ map-append told (take r.count r.entries) (e ∷ []),
            record { room = length-set r.entries r.count e ∙ v.room; bounded = omega tests },
          ))
    | inr full ↦ rw full (inr (omega (tests, v.bounded), refl, refl))
  ]

  find_entry_lem :
      (c : Config) (n i : ℕ) (entries es : List (Entry A W)) (scheme : List ℕ)
      → take n (drop i entries) ≡ es
      → length es ≡ n
      → find_entry c n i entries scheme ≡ first scheme (map told es)
  unfolding find_entry equal_view
  find_entry_lem c zero i entries [] scheme h k = refl
  find_entry_lem c zero i entries (e ∷ es) scheme h k = absurd (omega arith)
  find_entry_lem c (suc n) i entries [] scheme h k = absurd (omega arith)
  find_entry_lem c (suc n) i entries (e ∷ es) scheme h k =
      let (here, later) = take-drop_cons entries n i e es h in
      rw here (
        ap (λ rest. if view_equal (as_view e.scheme) scheme then some e.factory else rest)
          (find_entry_lem c n (suc i) entries es scheme later (omega arith)))

  pub find_entry-table :
      (r : Registry A W) (scheme : List ℕ)
      → IsValid r
      → find_entry r.config r.count 0 r.entries scheme ≡ first scheme (table r)
  find_entry-table r scheme v =
      find_entry_lem r.config r.count 0 r.entries (take r.count r.entries) scheme refl
        (omega (arith, length-take r.count r.entries, v.room, v.bounded))

  -- `create` on a well-formed registry calls the factory that was first registered for the scheme,
  -- the text before "://" or all of it, with the parsed URI or with the scheme alone; with no such
  -- factory it returns the empty source.
  pub create_lem :
      (empty : A) (r : Registry A W) (addr : ℕ) (v : StringView) (w : W)
      → IsValid r
      → let scheme_end = find_text scheme_mark v.text in
        create empty r addr v w
        ≡ call_factory empty
            (first (scheme_of v scheme_end).text (table r))
            (view_for r.config addr v scheme_end)
            w
  unfolding create
  create_lem empty r addr v w h =
      ap (λ o. call_factory empty o (view_for r.config addr v (find_text scheme_mark v.text)) w)
        (find_entry-table r _ h)

  first-append :
      (scheme s : List ℕ) (f : Option (Factory A W)) (rows : List (List ℕ × Option (Factory A W)))
      → is_found (first scheme (rows ++ (s, f) ∷ []))
        ≡ (is_found (first scheme rows) || view_equal s scheme)
  first-append scheme s f [] = elim (Bool-cases (view_equal s scheme)) [
    | inl e ↦ rw e refl
    | inr e ↦ rw e refl
  ]
  first-append scheme s f ((t, g) ∷ rows) = elim (Bool-cases (view_equal t scheme)) [
    | inl e ↦ rw e refl
    | inr e ↦ rw e (first-append scheme s f rows)
  ]

  -- A scheme is known after a registration with room exactly if it was known before or is the one
  -- that was stored.
  pub has_scheme-register_scheme :
      (r : Registry A W) (s : FixedString) (f : Factory A W) (scheme : List ℕ)
      → IsValid r
      → r.count < r.config.max_schemes
      → has_scheme (register_scheme r s f).1 scheme
        ≡ (has_scheme r scheme || view_equal (as_view s) scheme)
  unfolding has_scheme
  has_scheme-register_scheme r s f scheme v room = elim (register_scheme_lem r s f v) [
    | inl (_, grown, valid) ↦
        ap is_found
          (find_entry-table (register_scheme r s f).1 scheme valid ∙ ap (first scheme) grown)
        ∙ (first-append scheme (as_view s) (some f) (table r)
            ∙ ap (λ o. is_found o || view_equal (as_view s) scheme)
                (sym (find_entry-table r scheme v)))
    | inr (full, _, _) ↦ absurd (omega arith)
  ]

  -- A scheme that is longer than `max_scheme_len` and given as a text is cut to fit: the
  -- registration succeeds, and still the scheme is not known, if it was not before.
  pub register_scheme-too_long :
      (r : Registry A W) (f : Factory A W) (scheme : List ℕ)
      → IsValid r
      → r.count < r.config.max_schemes
      → r.config.max_scheme_len < length scheme
      → has_scheme r scheme ≡ false
      → let (res, r') =
          register_scheme r (FixedString.from_view r.config.max_scheme_len scheme) f in
        (res ≡ true) × (has_scheme r' scheme ≡ false)
  register_scheme-too_long r f scheme v room long unknown =
      let s = FixedString.from_view r.config.max_scheme_len scheme in
      let cut = (from_view_lem r.config.max_scheme_len scheme).1 in
      elim (register_scheme_lem r s f v) [
        | inl (good, _, _) ↦ (
          good,
          has_scheme-register_scheme r s f scheme v room
              ∙ (rw unknown (
                  ap (λ t. view_equal t scheme) cut ∙ differs r.config.max_scheme_len scheme long)),
        )
        | inr (full, _, _) ↦ absurd (omega arith)
      ]
