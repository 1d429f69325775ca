-- ===== src/SinkBuffer.antt =====
-- include/pipepp/core/as_range.hpp: a bounded buffer of messages.
pub mod Collect
use pipepp_core.Prelude.{
  ℕ, suc, ◌*◌, Bool, true, false, Option, none, some, List, [], ◌∷◌, ◌==◌, ltb, if◌then◌else◌,
  get_elem?, set, replicate,
}
use pipepp_core.Config.{Config}
use pipepp_core.Expected.{has_value}
use pipepp_core.Message.{Message, MessageView, default_message, from_view, as_view}

-- `sink_buffer<Config>`
pub record SinkBuffer : Type 0 where
  pub config : Config
  pub messages : List Message
  pub count : ℕ

-- `max_messages`
abbrev pub max_messages : Config → ℕ
max_messages c = c.max_stages * 2

-- `sink_buffer() = default`
abbrev pub new_buffer : Config → SinkBuffer
new_buffer c = record {
  config = c;
  messages = replicate (max_messages c) (default_message c);
  count = 0;
}

-- An entry of the array; the code never reads one behind the end.
abbrev pub message_at : Config → Option Message → Message
message_at c none = default_message c
message_at c (some m) = m

-- `push`
unfoldable pub push : SinkBuffer → MessageView → SinkBuffer
push b mv =
    let r = from_view b.config (message_at b.config (get_elem? b.messages b.count)) mv in
    let messages = set b.messages b.count r.1 in
    if ltb b.count (max_messages b.config)
    then record b { messages = messages; count = if has_value r.0 then suc b.count else b.count }
    else b

-- `empty`
abbrev pub is_empty : SinkBuffer → Bool
is_empty b = b.count == 0

-- `operator[]`
abbrev pub at : SinkBuffer → ℕ → MessageView
at b i = as_view (message_at b.config (get_elem? b.messages i))

-- `clear`
abbrev pub clear : SinkBuffer → SinkBuffer
clear b = record b { count = 0 }

unfoldable pub push_all : SinkBuffer → List MessageView → SinkBuffer
push_all b [] = b
push_all b (mv ∷ mvs) = push_all (push b mv) mvs
