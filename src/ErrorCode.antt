-- ===== src/ErrorCode.antt =====
-- include/pipepp/core/error_code.hpp: the error codes, their bytes and their messages.
pub mod Messages
use Prim.Native.String.{String}
use pipepp_core.Prelude.{ℕ, Bool, ◌==◌, if◌then◌else◌}

-- `enum class error_code`
pub data ErrorCode : Type 0 where
  none buffer_overflow not_connected connection_failed invalid_argument out_of_range : ErrorCode
  capacity_exceeded disconnected timeout stage_dropped invalid_uri : ErrorCode

-- The `uint8_t` behind an enumerator.
abbrev pub byte_of : ErrorCode → ℕ
byte_of none = 0
byte_of buffer_overflow = 1
byte_of not_connected = 2
byte_of connection_failed = 3
byte_of invalid_argument = 7
byte_of out_of_range = 8
byte_of capacity_exceeded = 9
byte_of disconnected = 10
byte_of timeout = 11
byte_of stage_dropped = 12
byte_of invalid_uri = 13

-- The `switch` over the byte, which may be no enumerator's.
unfoldable pub error_code_message : ℕ → String
error_code_message ec =
    if ec == byte_of none
    then "no error"
    else if ec == byte_of buffer_overflow
    then "buffer overflow"
    else if ec == byte_of not_connected
    then "not connected"
    else if ec == byte_of connection_failed
    then "connection failed"
    else if ec == byte_of invalid_argument
    then "invalid argument"
    else if ec == byte_of out_of_range
    then "out of range"
    else if ec == byte_of capacity_exceeded
    then "capacity exceeded"
    else if ec == byte_of disconnected
    then "disconnected"
    else if ec == byte_of timeout
    then "timeout"
    else if ec == byte_of stage_dropped
    then "stage dropped"
    else if ec == byte_of invalid_uri
    then "invalid uri"
    else "unknown error"

-- `ec != error_code::none`
abbrev pub is_error : ErrorCode → Bool
is_error none = Bool.false
is_error _ = Bool.true
