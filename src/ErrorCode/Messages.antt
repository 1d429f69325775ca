-- ===== src/ErrorCode/Messages.antt =====
-- What the messages of include/pipepp/core/error_code.hpp tell apart.
use Prim.Native.String.{String}
use text.Mathlib.Text.{◌==◌ as str_eq}
use pipepp_core.Prelude.{◌≡◌, refl, ap, Option, some, if◌then◌else◌}
use pipepp_core.ErrorCode.{ErrorCode, byte_of, error_code_message}

-- The enumerator that a message belongs to.
code_of_message : String → Option ErrorCode
code_of_message s =
    if str_eq s "no error"
    then some ErrorCode.none
    else if str_eq s "buffer overflow"
    then some ErrorCode.buffer_overflow
    else if str_eq s "not connected"
    then some ErrorCode.not_connected
    else if str_eq s "connection failed"
    then some ErrorCode.connection_failed
    else if str_eq s "invalid argument"
    then some ErrorCode.invalid_argument
    else if str_eq s "out of range"
    then some ErrorCode.out_of_range
    else if str_eq s "capacity exceeded"
    then some ErrorCode.capacity_exceeded
    else if str_eq s "disconnected"
    then some ErrorCode.disconnected
    else if str_eq s "timeout"
    then some ErrorCode.timeout
    else if str_eq s "stage dropped"
    then some ErrorCode.stage_dropped
    else if str_eq s "invalid uri"
    then some ErrorCode.invalid_uri
    else Option.none

code_of_message-error_code_message :
    (c : ErrorCode) → code_of_message (error_code_message (byte_of c)) ≡ some c
unfolding code_of_message error_code_message
code_of_message-error_code_message ErrorCode.none = refl
code_of_message-error_code_message _ = refl

-- Two enumerators with the same message are the same.
pub error_code_message-injective :
    (c d : ErrorCode) → error_code_message (byte_of c) ≡ error_code_message (byte_of d) → c ≡ d
error_code_message-injective c d h = cc (
  code_of_message-error_code_message c,
  code_of_message-error_code_message d,
  ap code_of_message h,
)
