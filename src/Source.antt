-- ===== src/Source.antt =====
-- include/pipepp/core/concepts.hpp: what a pipeline asks of a source, and message_callback.hpp.
use pipepp_core.Prelude.{ℕ, ℤ, Bool, List}
use pipepp_core.Expected.{Result}
use pipepp_core.FixedString.{FixedString}
use pipepp_core.Message.{MessageView}
use pipepp_core.Uri.{UriView}

-- `concept BusSource`, over the state `S` of a source. The callback that a pipeline installs leads
-- to its `emit`, so a source keeps only that one is installed, and `poll` gives the messages that
-- it hands to the callback, in order. The text of a topic and the bytes of a payload are lists.
pub record BusSource (S : Type 0) : Type 0 where
  pub connect : S → UriView → Result × S
  pub disconnect : S → Result × S
  pub is_connected : S → Bool
  pub subscribe : S → List ℕ → ℤ → Result × S
  pub publish : S → List ℕ → List ℕ → ℤ → Result × S
  pub set_message_callback : S → S
  pub poll : S → List MessageView × S

-- `subscription<Config>`
pub record Subscription : Type 0 where
  pub topic : FixedString
  pub qos : ℤ
