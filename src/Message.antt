-- ===== src/Message.antt =====
-- The class Message of dbus-cxx/message.cpp: its state, its header map, and what it is written to
-- and read from.
pub mod Format
pub mod Parse
pub mod Entry
pub mod Entries
pub mod Loop
pub mod Bytes
pub mod RoundTrip
pub mod Fields
pub mod Equality
mod Examples
use dbus_cxx.Common.{
  ℕ, zero, suc, ◌+◌, ◌-◌, ◌%◌, ◌^◌, List, [], ◌∷◌, ◌++◌, Option, some, none, Bool, true, false, not,
  ◌&&◌, ◌||◌, length, get_elem?, ltb, leb, ◌==◌, if◌then◌else◌,
}
use Prim.Native.Nat.{bit_and, bit_or}
use dbus_cxx.Header.{
  MessageHeaderFields, MessageType, invalid_message, destination_field, sender_field,
  signature_field, unix_fds_field, reply_serial_field, header_field_to_int, return, error,
}
use dbus_cxx.Signature.{is_invalid}
use dbus_cxx.Validator.{validate_bus_name}
use dbus_cxx.Wire.Words.{Endianess, big, u32, ℤ, pos, negsuc}
use dbus_cxx.Wire.Variant.{
  Variant, Value, uint32_value, string_value, signature_value, no_variant, variant_of, to_string,
  is_string_type,
}
use dbus_cxx.Wire.Reader.{Outcome}

-- `std::map<MessageHeaderFields, Variant>`: its entries in the order of the enumeration.
abbrev pub HeaderMap : Type 0
HeaderMap = List (MessageHeaderFields × Variant)

unfoldable pub find : MessageHeaderFields → HeaderMap → Option Variant
find k [] = none
find k ((j, v) ∷ m) = if header_field_to_int j == header_field_to_int k then some v else find k m

-- `m_headerMap[ k ] = v`
unfoldable pub insert : MessageHeaderFields → Variant → HeaderMap → HeaderMap
insert k v [] = (k, v) ∷ []
insert k v ((j, w) ∷ m) =
    if ltb (header_field_to_int k) (header_field_to_int j)
    then (k, v) ∷ (j, w) ∷ m
    else if header_field_to_int j == header_field_to_int k
    then (k, v) ∷ m
    else (j, w) ∷ insert k v m

unfoldable pub erase : MessageHeaderFields → HeaderMap → HeaderMap
erase k [] = []
erase k ((j, v) ∷ m) =
    if header_field_to_int j == header_field_to_int k then m else (j, v) ∷ erase k m

-- A message of each kind: `type()` is virtual, so the kind is part of the state. A file descriptor
-- is a number, and the body is the bytes of the arguments.
pub record Message : Type 0 where
  pub kind : MessageType
  pub valid : Bool
  pub header_map : HeaderMap
  pub body : List ℕ
  pub endian : Endianess
  pub flags : ℕ
  pub filedescriptors : List ℕ
  pub serial : ℕ

unfoldable pub create : MessageType → Message
create kind = record {
  kind = kind;
  valid = true;
  header_map = [];
  body = [];
  endian = big;
  flags = 0;
  filedescriptors = [];
  serial = 0;
}

unfoldable pub header_field : MessageHeaderFields → Message → Variant
unfolding find
header_field f msg = elim (find f msg.header_map) [ none ↦ no_variant | some v ↦ v ]

-- It returns the old value.
unfoldable pub set_header_field : MessageHeaderFields → Variant → Message → Message × Variant
unfolding header_field insert
set_header_field f v msg =
    (record msg { header_map = insert f v msg.header_map }, header_field f msg)

unfoldable pub invalidate : Message → Message
invalidate msg = record msg { valid = false }

-- DBUSCXX_MESSAGE_NO_AUTO_START_FLAG
abbrev pub no_auto_start_flag : ℕ
no_auto_start_flag = 0x02

unfoldable pub set_auto_start : Bool → Message → Message
set_auto_start on msg =
    if on
    then record msg { flags = bit_and msg.flags 0xfd }
    else record msg { flags = bit_or msg.flags no_auto_start_flag }

unfoldable pub auto_start : Message → Bool
auto_start msg = not (bit_and msg.flags no_auto_start_flag == 0)

unfoldable pub set_destination : List ℕ → Message → Message × Bool
unfolding insert
set_destination s msg = if not (validate_bus_name s) then (msg, false) else (
  record msg { header_map = insert destination_field (variant_of (string_value s)) msg.header_map },
  true,
)

-- The text of a field that is a string, and the empty text otherwise.
abbrev pub text_field : MessageHeaderFields → Message → Outcome (List ℕ)
text_field f msg =
    if is_string_type (header_field f msg).current_type
    then to_string (header_field f msg)
    else Outcome.ok []

unfoldable pub destination : Message → Outcome (List ℕ)
unfolding header_field
destination msg = text_field destination_field msg

unfoldable pub sender : Message → Outcome (List ℕ)
unfolding header_field
sender msg = text_field sender_field msg

unfoldable pub clear_sig_and_data : Message → Message
unfolding erase
clear_sig_and_data msg = record msg { header_map = erase signature_field msg.header_map; body = [] }

unfoldable pub add_filedescriptor : ℕ → Message → Message
unfolding set_header_field
add_filedescriptor fd msg =
    let added = record msg { filedescriptors = msg.filedescriptors ++ (fd ∷ []) } in
    (set_header_field unix_fds_field
      (variant_of (uint32_value (u32 (length added.filedescriptors)))) added).0

-- `none` is the -1 of the code.
unfoldable pub filedescriptor_at_location : ℤ → Message → Option ℕ
filedescriptor_at_location (pos location) msg =
    if ltb location (length msg.filedescriptors)
    then get_elem? msg.filedescriptors location
    else none
filedescriptor_at_location (negsuc n) msg = none
