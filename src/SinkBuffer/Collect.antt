-- ===== src/SinkBuffer/Collect.antt =====
-- What a buffer of include/pipepp/core/as_range.hpp collects.
use pipepp_core.Prelude.{
  ℕ, zero, suc, ◌≤◌, ◌≡◌, refl, sym, ap, ◌∙◌, inl, inr, Bool, true, false, ◌&&◌, List, [], ◌∷◌,
  ◌++◌, map, ltb, if◌then◌else◌, get_elem?, length, set, take, take-set, take-set_last, take-append,
  take_all, length-set, length-take, length-replicate, replicate, append_assoc, append-nil,
  Bool-cases, arith, tests,
}
use mathlib.Core.List.{map-append}
use pipepp_core.Config.{Config}
use pipepp_core.Expected.{has_value}
use pipepp_core.Message
use pipepp_core.Message.{MessageView, default_message, from_view, as_view}
use pipepp_core.Message.RoundTrip.{as_view-from_view, default_message-IsValid}
use pipepp_core.Pipeline.Emit.Flow.{fits, has_value-from_view}
use pipepp_core.SinkBuffer.{SinkBuffer, max_messages, new_buffer, message_at, push, push_all}

abbrev pub AllValid : Config → List Message.Message → Type 0
AllValid c [] = Unit {0}
AllValid c (m ∷ ms) = Message.IsValid c m × AllValid c ms

AllValid-set :
    (c : Config) (ms : List Message.Message) (i : ℕ) (m : Message.Message)
    → AllValid c ms
    → Message.IsValid c m
    → AllValid c (set ms i m)
AllValid-set c [] i m h k = tt
AllValid-set c (x ∷ ms) zero m h k = (k, h.1)
AllValid-set c (x ∷ ms) (suc i) m h k = (h.0, AllValid-set c ms i m h.1 k)

AllValid-at :
    (c : Config) (ms : List Message.Message) (i : ℕ)
    → AllValid c ms
    → Message.IsValid c (message_at c (get_elem? ms i))
AllValid-at c [] i h = default_message-IsValid c
AllValid-at c (x ∷ ms) zero h = h.0
AllValid-at c (x ∷ ms) (suc i) h = AllValid-at c ms i h.1

AllValid-replicate : (c : Config) (n : ℕ) → AllValid c (replicate n (default_message c))
AllValid-replicate c zero = tt
AllValid-replicate c (suc n) = (default_message-IsValid c, AllValid-replicate c n)

pub record IsValid (b : SinkBuffer) : Type 0 where
  pub room : length b.messages ≡ max_messages b.config
  pub bounded : b.count ≤ max_messages b.config
  pub all_valid : AllValid b.config b.messages

-- The messages that a buffer holds, in order.
abbrev pub contents : SinkBuffer → List MessageView
contents b = map as_view (take b.count b.messages)

-- The messages that are within the limits.
abbrev pub fitting : Config → List MessageView → List MessageView
fitting c [] = []
fitting c (mv ∷ mvs) = if fits c mv then mv ∷ fitting c mvs else fitting c mvs

-- What a push makes of the contents.
abbrev pushed : SinkBuffer → MessageView → List MessageView
pushed b mv =
    if fits b.config mv && ltb b.count (max_messages b.config)
    then contents b ++ mv ∷ []
    else contents b

never : {A : Type 0} (b : Bool) (x y : A) → (if b && false then x else y) ≡ y
never true x y = refl
never false x y = refl

push_lem :
    (b : SinkBuffer) (mv : MessageView)
    → IsValid b
    → IsValid (push b mv) × ((push b mv).config ≡ b.config) × (contents (push b mv) ≡ pushed b mv)
unfolding push
push_lem b mv v = elim (Bool-cases (ltb b.count (max_messages b.config))) [
  | inr full ↦
      rw full (v, refl, sym (never (fits b.config mv) (contents b ++ mv ∷ []) (contents b)))
  | inl room ↦
      elim (as_view-from_view b.config old mv
        (AllValid-at b.config b.messages b.count v.all_valid)) [
          | inl (_, good, same, valid) ↦
              let fitting_in : fits b.config mv ≡ true =
                sym (has_value-from_view b.config old mv) ∙ ap has_value good in
              let new = (from_view b.config old mv).1 in
              rw (room, good, fitting_in)
                (
                  record {
                    room = length-set b.messages b.count new ∙ v.room;
                    bounded = omega tests;
                    all_valid = AllValid-set b.config b.messages b.count new v.all_valid valid;
                  },
                  refl,
                  ap (map as_view) (take-set_last b.messages b.count new (omega (tests, v.room)))
                      ∙ (map-append as_view (take b.count b.messages) (new ∷ [])
                          ∙ ap (λ x. contents b ++ x ∷ []) same),
                )
          | inr (_, refused) ↦
              let unfit : fits b.config mv ≡ false =
                sym (has_value-from_view b.config old mv) ∙ ap (λ r. has_value r.0) refused in
              rw (room, refused, unfit)
                (
                  record {
                    room = length-set b.messages b.count old ∙ v.room;
                    bounded = v.bounded;
                    all_valid =
                        AllValid-set b.config b.messages b.count old v.all_valid
                          (AllValid-at b.config b.messages b.count v.all_valid);
                  },
                  refl,
                  ap (map as_view) (take-set b.messages b.count old),
                )
        ]
]
  where
    old : Message.Message
    old = message_at b.config (get_elem? b.messages b.count)

length-map : {A B : Type 0} (f : A → B) (xs : List A) → length (map f xs) ≡ length xs
length-map f [] = refl
length-map f (x ∷ xs) = ap suc (length-map f xs)

take_filled : {A : Type 0} {n : ℕ} (xs ys : List A) → length xs ≡ n → take n (xs ++ ys) ≡ xs
take_filled xs ys h = ap (λ k. take k (xs ++ ys)) (sym h) ∙ take-append xs ys

length-contents : (b : SinkBuffer) → IsValid b → length (contents b) ≡ b.count
length-contents b v = omega (
  arith,
  length-map as_view (take b.count b.messages),
  length-take b.count b.messages,
  v.room,
  v.bounded,
)

-- Pushing one message and then taking in the others.
pushed-fitting :
    (b : SinkBuffer) (mv : MessageView) (mvs : List MessageView)
    → IsValid b
    → take (max_messages b.config) (pushed b mv ++ fitting b.config mvs)
      ≡ take (max_messages b.config) (contents b ++ fitting b.config (mv ∷ mvs))
pushed-fitting b mv mvs v = elim (Bool-cases (fits b.config mv)) [
  | inr unfit ↦ rw unfit refl
  | inl fit ↦ elim (Bool-cases (ltb b.count (max_messages b.config))) [
    | inl room ↦
        rw (fit, room)
          (ap (take (max_messages b.config))
            (append_assoc (contents b) (mv ∷ []) (fitting b.config mvs)))
    | inr full ↦
        let e = length-contents b v in
        let filled : length (contents b) ≡ max_messages b.config = omega (tests, v.bounded) in
        rw (fit, full)
          (take_filled (contents b) (fitting b.config mvs) filled
            ∙ sym (take_filled (contents b) (mv ∷ fitting b.config mvs) filled))
  ]
]

push_all-contents :
    (mvs : List MessageView) (b : SinkBuffer)
    → IsValid b
    → contents (push_all b mvs) ≡ take (max_messages b.config) (contents b ++ fitting b.config mvs)
unfolding push_all
push_all-contents [] b v = sym (
    ap (take (max_messages b.config)) (append-nil (contents b))
    ∙ take_all (contents b) (max_messages b.config) (omega (arith, length-contents b v, v.bounded)))
push_all-contents (mv ∷ mvs) b v =
    let (valid, same, told) = push_lem b mv v in
    push_all-contents mvs (push b mv) valid
    ∙ (ap (λ c. take (max_messages c) (contents (push b mv) ++ fitting c mvs)) same
        ∙ (ap (λ xs. take (max_messages b.config) (xs ++ fitting b.config mvs)) told
            ∙ pushed-fitting b mv mvs v))

-- A new buffer into which messages are pushed holds those of them that are within the limits, in
-- order, as they came, up to its capacity.
pub push_all-new_buffer :
    (c : Config) (mvs : List MessageView)
    → contents (push_all (new_buffer c) mvs) ≡ take (max_messages c) (fitting c mvs)
push_all-new_buffer c mvs = push_all-contents mvs (new_buffer c) (record {
  room = length-replicate (max_messages c) (default_message c);
  bounded = omega arith;
  all_valid = AllValid-replicate c (max_messages c);
})
