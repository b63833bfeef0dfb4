-- ===== src/Header.antt =====
-- The fields of a message header and the kinds of messages: enumerations of dbus-cxx/enums.h with
-- their conversions to the numbers of the wire.
use dbus_cxx.Common.{ℕ, ◌<◌, ◌≡◌, ◌≢◌, ◌⊎◌, ◌==◌, if◌then◌else◌, arith}

pub data MessageHeaderFields : Type 0 where
  invalid_field path_field interface_field member_field error_name_field reply_serial_field :
      MessageHeaderFields
  destination_field sender_field signature_field unix_fds_field : MessageHeaderFields

pub data MessageType : Type 0 where
  invalid_message call return error signal : MessageType

unfoldable pub header_field_to_int : MessageHeaderFields → ℕ
header_field_to_int path_field = 1
header_field_to_int interface_field = 2
header_field_to_int member_field = 3
header_field_to_int error_name_field = 4
header_field_to_int reply_serial_field = 5
header_field_to_int destination_field = 6
header_field_to_int sender_field = 7
header_field_to_int signature_field = 8
header_field_to_int unix_fds_field = 9
header_field_to_int _ = 0

unfoldable pub int_to_header_field : ℕ → MessageHeaderFields
int_to_header_field n =
    if n == 1
    then path_field
    else if n == 2
    then interface_field
    else if n == 3
    then member_field
    else if n == 4
    then error_name_field
    else if n == 5
    then reply_serial_field
    else if n == 6
    then destination_field
    else if n == 7
    then sender_field
    else if n == 8
    then signature_field
    else if n == 9
    then unix_fds_field
    else invalid_field

-- A header field is read back from its number, a number from 1 to 9 from its field, and every
-- other number is read as the invalid field.
pub int_to_header_field-header_field_to_int :
    ((f : MessageHeaderFields) → int_to_header_field (header_field_to_int f) ≡ f)
    × ((n : ℕ)
        → ((n ≢ 0) × (n < 10) × (header_field_to_int (int_to_header_field n) ≡ n))
          ⊎ (int_to_header_field n ≡ invalid_field))
unfolding header_field_to_int int_to_header_field
int_to_header_field-header_field_to_int = (λ f. ground arith, λ n. ground arith)
