-- ===== src/Message/RoundTrip.antt =====
-- `from_view` and then `as_view` of include/pipepp/core/message.hpp.
use pipepp_core.Prelude.{
  suc, ◌≡◌, refl, ◌∙◌, ◌⊎◌, inl, inr, ◌||◌, arith, ltb, Bool-cases, length, set, take, write_front,
  length-set, length-write_front, length-replicate, take-set, take-write_front,
}
use pipepp_core.ErrorCode.{ErrorCode}
use pipepp_core.Expected.{ok, fail}
use pipepp_core.Config.{Config}
use pipepp_core.Message.{
  MessageView, Message, default_message, copy_view, from_view, as_view, IsValid, Fits,
}

pub default_message-IsValid : (c : Config) → IsValid c (default_message c)
default_message-IsValid c = record {
  topic_room = length-replicate (suc c.max_topic_len) 0;
  topic_bounded = omega arith;
  payload_room = length-replicate c.max_payload_len 0;
  payload_bounded = omega arith;
}

module _ (c : Config) (m : Message) (mv : MessageView) (v : IsValid c m) where
  copy_view-IsValid : Fits c mv → IsValid c (copy_view m mv)
  unfolding copy_view
  copy_view-IsValid f = record {
    topic_room =
        length-set (write_front m.topic_buf mv.topic) (length mv.topic) 0
        ∙ (length-write_front m.topic_buf mv.topic ∙ v.topic_room);
    topic_bounded = f.topic_fits;
    payload_room = length-write_front m.payload_buf mv.payload ∙ v.payload_room;
    payload_bounded = f.payload_fits;
  }

  as_view-copy_view : Fits c mv → as_view (copy_view m mv) ≡ mv
  unfolding copy_view
  as_view-copy_view f = λ i. record { topic = topic_back i; payload = payload_back i; qos = mv.qos }
    where
      topic_back :
          take (length mv.topic) (set (write_front m.topic_buf mv.topic) (length mv.topic) 0)
          ≡ mv.topic
      topic_back =
          take-set (write_front m.topic_buf mv.topic) (length mv.topic) 0
          ∙ take-write_front m.topic_buf mv.topic (omega (arith, v.topic_room, f.topic_fits))

      payload_back : take (length mv.payload) (write_front m.payload_buf mv.payload) ≡ mv.payload
      payload_back =
          take-write_front m.payload_buf mv.payload (omega (arith, v.payload_room, f.payload_fits))

-- `from_view` into a well-formed message: a view within both limits is stored, reads back as it was
-- and leaves the message well-formed; any other is refused with `buffer_overflow` and leaves the
-- message as it was.
pub as_view-from_view :
    (c : Config) (m : Message) (mv : MessageView)
    → IsValid c m
    → (Fits c mv
        × ((from_view c m mv).0 ≡ ok)
        × (as_view (from_view c m mv).1 ≡ mv)
        × IsValid c (from_view c m mv).1)
      ⊎ ((¬ Fits c mv) × (from_view c m mv ≡ (fail ErrorCode.buffer_overflow, m)))
unfolding from_view
as_view-from_view c m mv v =
    elim (Bool-cases
      (ltb c.max_topic_len (length mv.topic) || ltb c.max_payload_len (length mv.payload))) [
        | inl long ↦ rw long (inr (λ f. ground (arith, f.topic_fits, f.payload_fits), refl))
        | inr short ↦
            let f : Fits c mv = record { topic_fits = ground arith; payload_fits = ground arith } in
            rw short (inl (f, refl, as_view-copy_view c m mv v f, copy_view-IsValid c m mv v f))
      ]
