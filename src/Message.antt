-- ===== src/Message.antt =====
-- include/pipepp/core/message.hpp: a message in fixed buffers, and a view of one.
pub mod RoundTrip
use pipepp_core.Prelude.{
  ℕ, suc, ◌+◌, ◌≤◌, ◌≡◌, Bool, true, false, ◌&&◌, ◌||◌, List, [], ◌∷◌, ltb, if◌then◌else◌, length,
  set, take, replicate, write_front,
}
use pipepp_core.ErrorCode.{ErrorCode}
use pipepp_core.Expected.{Result, ok, fail}
use pipepp_core.Config.{Config}

-- `message_view`: what it refers to. Characters and bytes are numbers, `qos` is a `uint8_t`.
pub record MessageView : Type 0 where
  pub topic : List ℕ
  pub payload : List ℕ
  pub qos : ℕ

abbrev is_empty : List ℕ → Bool
is_empty [] = true
is_empty (x ∷ xs) = false

-- `message_view::empty`
abbrev pub view_empty : MessageView → Bool
view_empty mv = is_empty mv.topic && is_empty mv.payload

-- `basic_message<Config>`
pub record Message : Type 0 where
  pub topic_buf : List ℕ
  pub topic_len : ℕ
  pub payload_buf : List ℕ
  pub payload_len : ℕ
  pub qos : ℕ

-- `basic_message() = default`, with its zeroed buffers
abbrev pub default_message : Config → Message
default_message c = record {
  topic_buf = replicate (suc c.max_topic_len) 0;
  topic_len = 0;
  payload_buf = replicate c.max_payload_len 0;
  payload_len = 0;
  qos = 0;
}

-- The writes of `from_view`, behind its guard.
copy_view : Message → MessageView → Message
copy_view m mv = record {
  topic_buf = set (write_front m.topic_buf mv.topic) (length mv.topic) 0;
  topic_len = length mv.topic;
  payload_buf = write_front m.payload_buf mv.payload;
  payload_len = length mv.payload;
  qos = mv.qos;
}

unfoldable pub from_view : Config → Message → MessageView → Result × Message
unfolding copy_view
from_view c m mv =
    if ltb c.max_topic_len (length mv.topic) || ltb c.max_payload_len (length mv.payload)
    then (fail ErrorCode.buffer_overflow, m)
    else (ok, copy_view m mv)

-- `as_view`, with `topic()`, `payload()` and `qos()`
abbrev pub as_view : Message → MessageView
as_view m = record {
  topic = take m.topic_len m.topic_buf;
  payload = take m.payload_len m.payload_buf;
  qos = m.qos;
}

-- The buffers have their compiled sizes, and the lengths stay within the capacities.
pub record IsValid (c : Config) (m : Message) : Type 0 where
  pub topic_room : length m.topic_buf ≡ suc c.max_topic_len
  pub topic_bounded : m.topic_len ≤ c.max_topic_len
  pub payload_room : length m.payload_buf ≡ c.max_payload_len
  pub payload_bounded : m.payload_len ≤ c.max_payload_len

-- A view that a message can hold.
pub record Fits (c : Config) (mv : MessageView) : Type 0 where
  pub topic_fits : length mv.topic ≤ c.max_topic_len
  pub payload_fits : length mv.payload ≤ c.max_payload_len
