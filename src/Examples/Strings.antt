-- ===== src/Examples/Strings.antt =====
-- Runs of the theorems on codes, strings and messages.
use pipepp_core.Prelude.{ℕ, ◌≡◌, ◌⊎◌, List, [], ◌∷◌}
use pipepp_core.ErrorCode.{ErrorCode}
use pipepp_core.Expected.{ok, fail}
use pipepp_core.Config.{embedded_config}
use pipepp_core.FixedString
use pipepp_core.FixedString.{
  FixedString, empty_string, from_c_string, as_view, widen, checked_from, from_or_truncate, equal,
  equal_view, less,
}
use pipepp_core.FixedString.Contents
use pipepp_core.FixedString.Contents.{
  empty_string-IsValid, from_or_truncate_lem, checked_from_lem, widen_lem, from_c_string_lem,
}
use pipepp_core.Message
use pipepp_core.Message.{MessageView, default_message}
use pipepp_core.Message.RoundTrip

-- "hi" and "hello"
abbrev hi : List ℕ
hi = b'h' ∷ b'i' ∷ []

abbrev hello : List ℕ
hello = b'h' ∷ b'e' ∷ b'l' ∷ b'l' ∷ b'o' ∷ []

abbrev small : FixedString
small = FixedString.from_view 4 hi

abbrev large : FixedString
large = FixedString.from_view 8 hello

small-IsValid : FixedString.IsValid 4 small
small-IsValid = (Contents.from_view_lem 4 hi).0

large-IsValid : FixedString.IsValid 8 large
large-IsValid = (Contents.from_view_lem 8 hello).0

abbrev greeting : MessageView
greeting = record { topic = hi; payload = hello; qos = 1 }

as_view-from_view_example :
    let c = embedded_config in
    let m = default_message c in
    (Message.Fits c greeting
      × ((Message.from_view c m greeting).0 ≡ ok)
      × (Message.as_view (Message.from_view c m greeting).1 ≡ greeting)
      × Message.IsValid c (Message.from_view c m greeting).1)
    ⊎ ((¬ Message.Fits c greeting)
        × (Message.from_view c m greeting ≡ (fail ErrorCode.buffer_overflow, m)))
as_view-from_view_example =
    RoundTrip.as_view-from_view embedded_config (default_message embedded_config) greeting
      (RoundTrip.default_message-IsValid embedded_config)
