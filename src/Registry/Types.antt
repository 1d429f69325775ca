-- ===== src/Registry/Types.antt =====
-- include/pipepp/core/source_registry.hpp: factories made from a type of source, `source_factory`,
-- and what a registry of them creates. `src` stands for `Source{}`.
use pipepp_core.Prelude.{
  ℕ, ◌≤◌, ◌<◌, ◌≡◌, refl, sym, ap, ◌∙◌, inl, inr, Bool, true, false, Option, some, List, [], ◌∷◌,
  ◌++◌, Bool-cases, length, take_all, arith,
}
use pipepp_core.Exec.{Exec, done, ◌>>=◌}
use pipepp_core.FixedString
use pipepp_core.FixedString.{FixedString, as_view, view_equal}
use pipepp_core.FixedString.Compare.{view_equal_refl}
use pipepp_core.FixedString.Contents.{from_view_lem}
use pipepp_core.Source.{BusSource}
use pipepp_core.Stages.{callee}
use pipepp_core.Text.{find_text}
use pipepp_core.Uri.{StringView, UriView, scheme_mark}
use pipepp_core.AnySource.{AnySource, any_source_of, no_source}
use pipepp_core.AnySource.Dispatch.{holder}
use pipepp_core.Registry.{
  Factory, Registry, register_scheme, has_scheme, is_found, create, call_factory, scheme_of,
  view_for,
}
use pipepp_core.Registry.Lookup.{
  IsValid, table, first, register_scheme_lem, find_entry-table, create_lem,
}

module _ {A W : Type 0} where
  -- `create<Uri>()`, for a fixed string that stands at `home`
  abbrev pub create_literal : A → Registry A W → ℕ → ℕ → FixedString → W → Exec (A × W)
  create_literal empty r addr home uri w =
      create empty r addr (record { home = home; start = 0; text = as_view uri }) w

  -- `size`
  abbrev pub size : Registry A W → ℕ
  size r = r.count

-- `source_factory::create<Source>()`
abbrev pub create_source : {S : Type 0} → BusSource S → S → Exec (AnySource S)
create_source bus src = any_source_of bus src

module _ {S W : Type 0} (bus : BusSource S) where
  -- `make_factory<Source>()`
  abbrev pub make_factory : S → Factory (AnySource S) W
  make_factory src uri w = any_source_of bus src >>= λ a. done (a, w)

  -- `register_scheme<Source>(scheme)`
  unfoldable pub register_type :
      Registry (AnySource S) W → FixedString → S → Bool × Registry (AnySource S) W
  unfolding register_scheme
  register_type r scheme src = register_scheme r scheme (make_factory src)

  first-last :
      (scheme : List ℕ) (f : Option (Factory (AnySource S) W))
      (rows : List (List ℕ × Option (Factory (AnySource S) W)))
      → is_found (first scheme rows) ≡ false
      → first scheme (rows ++ (scheme, f) ∷ []) ≡ some f
  first-last scheme f [] h = rw (view_equal_refl scheme) refl
  first-last scheme f ((s, g) ∷ rows) h = elim (Bool-cases (view_equal s scheme)) [
    | inl e ↦ cc (rw e at h)
    | inr e ↦ rw e (first-last scheme f rows (rw e at h))
  ]

  factory_made :
      (src : S) (uri : UriView) (w : W)
      → call_factory no_source (some (some (make_factory src))) uri w
        ≡ done (holder bus (some src), w)
  unfolding callee any_source_of
  factory_made src uri w = refl

  -- A type of source that is registered, with room in a well-formed registry, for a scheme that fits
  -- and was not known, is what `create` makes from then on of the scheme and of every URI with that
  -- scheme: an `any_source` that holds a new source of the type.
  pub create-register_type :
      (r : Registry (AnySource S) W) (scheme : List ℕ) (src : S) (addr : ℕ) (v : StringView) (w : W)
      → IsValid r
      → r.count < r.config.max_schemes
      → length scheme ≤ r.config.max_scheme_len
      → has_scheme r scheme ≡ false
      → (scheme_of v (find_text scheme_mark v.text)).text ≡ scheme
      → let (known, r') =
          register_type r (FixedString.from_view r.config.max_scheme_len scheme) src in
        (known ≡ true) × (create no_source r' addr v w ≡ done (holder bus (some src), w))
  unfolding register_type has_scheme
  create-register_type r scheme src addr v w valid room fits unknown same =
      let s = FixedString.from_view r.config.max_scheme_len scheme in
      let text =
        (from_view_lem r.config.max_scheme_len scheme).1
        ∙ take_all scheme r.config.max_scheme_len fits in
      let made = some (make_factory src) in
      let new = ap is_found (sym (find_entry-table r scheme valid)) ∙ unknown in
      elim (register_scheme_lem r s (make_factory src) valid) [
        | inl (good, grown, valid') ↦
            let r' = (register_scheme r s (make_factory src)).1 in
            let scheme_end = find_text scheme_mark v.text in
            let found : first (scheme_of v scheme_end).text (table r') ≡ some made =
              ap (λ t. first t (table r')) same
              ∙ (ap (first scheme) (grown ∙ ap (λ t. table r ++ (t, made) ∷ []) text)
                  ∙ first-last scheme made (table r) new) in
            (
              good,
              create_lem no_source r' addr v w valid'
                  ∙ (ap (λ o. call_factory no_source o (view_for r'.config addr v scheme_end) w)
                        found
                      ∙ factory_made src (view_for r'.config addr v scheme_end) w),
            )
        | inr (full, _, _) ↦ absurd (omega arith)
      ]
