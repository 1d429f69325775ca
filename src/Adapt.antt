-- ===== src/Adapt.antt =====
-- include/pipepp/core/adapt.hpp: a source over a range. An iterator is the list of the messages
-- from it to the end of the range.
pub mod Replay
use pipepp_core.Prelude.{ℕ, ℤ, Bool, true, false, List, [], if◌then◌else◌}
use pipepp_core.Expected.{Result, ok}
use pipepp_core.Message.{MessageView}
use pipepp_core.Source.{BusSource}
use pipepp_core.Uri.{UriView}

-- `range_source<Iterator, Config>`; `installed` says whether `callback_` is set.
pub record RangeSource : Type 0 where
  pub begin : List MessageView
  pub current : List MessageView
  pub connected : Bool
  pub installed : Bool

-- `adapt`, with the constructor from two iterators
abbrev pub adapt : List MessageView → RangeSource
adapt range = record { begin = range; current = range; connected = false; installed = false }

abbrev pub connect : RangeSource → UriView → Result × RangeSource
connect s uri = (ok, record s { current = s.begin; connected = true })

abbrev pub disconnect : RangeSource → Result × RangeSource
disconnect s = (ok, record s { connected = false })

-- `poll`: every message that is left goes to the callback, if there is one.
abbrev pub poll : RangeSource → List MessageView × RangeSource
poll s = (if s.installed then s.current else [], record s { current = []; connected = false })

-- The operations of a `BusSource`; `subscribe` and `publish` do nothing.
abbrev pub range_bus : BusSource RangeSource
range_bus = record {
  connect = connect;
  disconnect = disconnect;
  is_connected = λ s. s.connected;
  subscribe = λ s topic qos. (ok, s);
  publish = λ s topic payload qos. (ok, s);
  set_message_callback = λ s. record s { installed = true };
  poll = poll;
}
