-- ===== src/Uri/Bounds.antt =====
-- Where the views that the parsers of include/pipepp/core/uri.hpp set look, beside their input.
use pipepp_core.Prelude.{
  ℕ, zero, suc, ◌+◌, ◌-◌, ◌≤◌, ◌≡◌, refl, sym, ap, ◌∙◌, ◌⊎◌, inl, inr, List, [], ◌∷◌, arith, length,
  take, drop, take_all, drop-drop, length-take,
}
use pipepp_core.Config.{UriParserTag}
use pipepp_core.Uri.{StringView, no_view, substr, suffix, parse_by}
use pipepp_core.Uri.Fields.{PartLaws, AllFields}
use pipepp_core.Uri.Fields.Parsers.{parse_by-AllFields}

take-take : (m n : ℕ) (xs : List ℕ) → m ≤ n → take m (take n xs) ≡ take m xs
take-take zero n xs h = refl
take-take (suc m) zero xs h = absurd (omega arith)
take-take (suc m) (suc n) [] h = refl
take-take (suc m) (suc n) (x ∷ xs) h = ap (◌∷◌ x) (take-take m n xs (omega arith))

take-nil : (n : ℕ) → take {A = ℕ} n [] ≡ []
take-nil zero = refl
take-nil (suc n) = refl

drop-take : (m k : ℕ) (xs : List ℕ) → drop m (take (m + k) xs) ≡ take k (drop m xs)
drop-take zero k xs = ground arith
drop-take (suc m) k [] = ap (drop (suc m)) (take-nil (suc m + k)) ∙ sym (take-nil k)
drop-take (suc m) k (x ∷ xs) =
    let e : suc m + k ≡ suc (m + k) = omega arith in rw e (drop-take m k xs)

module _ (w : StringView) where
  -- A view is the default one, or shows the characters of `w` from an offset on, all of which `w`
  -- has.
  abbrev pub Within : StringView → Type 0
  Within v =
      (v ≡ no_view)
      ⊎ ((offset : ℕ) × (len : ℕ) × (offset + len ≤ length w.text) × (v ≡ substr w offset len))

  view_eq :
      {m n : ℕ} {xs ys : List ℕ}
      → m ≡ n
      → xs ≡ ys
      → ◌≡◌ {A = StringView}
          (record { home = w.home; start = m; text = xs })
          (record { home = w.home; start = n; text = ys })
  view_eq p q = λ i. record { home = w.home; start = p i; text = q i }

  suffix-substr :
      (offset len n : ℕ)
      → n ≤ len
      → suffix (substr w offset len) n ≡ substr w (offset + n) (len - n)
  suffix-substr offset len n h =
      let e : len ≡ n + (len - n) = omega arith in
      view_eq (omega arith) (
        ap (λ k. drop n (take k (drop offset w.text))) e
        ∙ (drop-take n (len - n) (drop offset w.text)
            ∙ ap (take (len - n)) (drop-drop n offset w.text)))

  substr-substr :
      (offset len n : ℕ) → n ≤ len → substr (substr w offset len) 0 n ≡ substr w offset n
  substr-substr offset len n h = view_eq (omega arith) (take-take n len (drop offset w.text) h)

  in_range :
      (v : StringView) (offset len n : ℕ) → n ≤ length v.text → v ≡ substr w offset len → n ≤ len
  in_range v offset len n h e =
      omega (arith, ap (λ x. length x.text) e, length-take len (drop offset w.text))

  is_zero : (v : StringView) (n : ℕ) → n ≤ length v.text → v ≡ no_view → n ≡ 0
  is_zero v n h e = omega (arith, ap (λ x. length x.text) e)

  Within-behind : (v : StringView) (n : ℕ) → n ≤ length v.text → Within v → Within (suffix v n)
  Within-behind v n h (inl e) = inl (λ i. suffix (e i) (is_zero v n h e i))
  Within-behind v n h (inr (offset, len, fits, e)) =
      let k = in_range v offset len n h e in
      inr (offset + n, len - n, omega arith, ap (λ x. suffix x n) e ∙ suffix-substr offset len n k)

  Within-front : (v : StringView) (n : ℕ) → n ≤ length v.text → Within v → Within (substr v 0 n)
  Within-front v n h (inl e) = inl (λ i. substr (e i) 0 (is_zero v n h e i))
  Within-front v n h (inr (offset, len, fits, e)) =
      let k = in_range v offset len n h e in
      inr (offset, n, omega arith, ap (λ x. substr x 0 n) e ∙ substr-substr offset len n k)

  Within-laws : PartLaws Within
  Within-laws = record { nothing = inl refl; behind = Within-behind; front = Within-front }

  Within-self : Within w
  Within-self = inr (
    0,
    length w.text,
    omega arith,
    view_eq (omega arith) (sym (take_all w.text (length w.text) (omega arith))),
  )

-- Whatever the text, each view that either parser sets is empty or looks at a range of the text that
-- was parsed, from its own offset on and within its bounds.
pub parse_by-Within :
    (tag : UriParserTag) (uri : StringView) → AllFields (Within uri) (parse_by tag uri)
parse_by-Within tag uri =
    parse_by-AllFields (Within uri) (Within-laws uri) tag uri (Within-self uri)
