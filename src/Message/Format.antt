-- ===== src/Message/Format.antt =====
-- Message::serialize_to_vector of dbus-cxx/message.cpp.
use dbus_cxx.Common.{
  ℕ, ◌+◌, ◌-◌, ◌%◌, ◌^◌, List, [], ◌∷◌, Bool, true, false, not, length, ltb, ◌==◌, if◌then◌else◌,
}
use dbus_cxx.Header.{
  MessageHeaderFields, MessageType, invalid_message, call, return, error, signal,
  reply_serial_field, header_field_to_int,
}
use dbus_cxx.Signature.{is_invalid}
use dbus_cxx.Message.{Message, HeaderMap, header_field}
use dbus_cxx.Wire.Words.{big, u32}
use dbus_cxx.Wire.Writer
use dbus_cxx.Wire.Writer.{Marshaling}
use dbus_cxx.Wire.Reader.{Outcome, ok, abort, fault, raise, stuck}
use dbus_cxx.Wire.Variant.{Variant, marshal_variant, is_uint32_type, to_uint32}

-- Validator::maximum_message_size of dbus-cxx/validator.h.
abbrev pub maximum_message_size : ℕ
maximum_message_size = 2 ^ 27

unfoldable pub message_is_small_enough : List ℕ → Bool
message_is_small_enough bytes = ltb (length bytes) maximum_message_size

unfoldable pub marshal_header : MessageHeaderFields → Variant → Marshaling → Marshaling
marshal_header k v m =
    marshal_variant v (Writer.marshal_uint8 (header_field_to_int k) (Writer.align 8 m))

-- The loop over the header map.
unfoldable pub marshal_headers : HeaderMap → Marshaling → Marshaling
marshal_headers [] m = m
marshal_headers ((k, v) ∷ rest) m =
    marshal_headers rest (if is_invalid v.current_type then m else marshal_header k v m)

abbrev pub message_code : MessageType → ℕ
message_code invalid_message = 0
message_code call = 1
message_code return = 2
message_code error = 3
message_code signal = 4

abbrev pub must_have_serial : MessageType → Bool
must_have_serial return = true
must_have_serial error = true
must_have_serial _ = false

abbrev pub is_invalid_message : MessageType → Bool
is_invalid_message invalid_message = true
is_invalid_message _ = false

-- The fixed part up to the length of the body.
unfoldable pub marshal_start : Message → Marshaling → Marshaling
marshal_start msg m = Writer.marshal_uint32 (u32 (length msg.body)) (
    Writer.marshal_uint8 1
      (Writer.marshal_uint8 msg.flags (Writer.marshal_uint8 (message_code msg.kind) m)))

-- From the serial on: the header array, whose size is put in at offset 12 afterwards, and the body.
unfoldable pub marshal_rest : Message → ℕ → Marshaling → Marshaling
marshal_rest msg serial m =
    let headers =
      marshal_headers msg.header_map (Writer.marshal_uint32 0 (Writer.marshal_uint32 serial m)) in
    let sized =
      Writer.marshal_at_offset 12 ((u32 (length headers.bytes) + 2 ^ 32 - 16) % 2 ^ 32) headers in
    Writer.push_all msg.body (Writer.align 8 sized)

-- A reply has to name the serial that it answers, and that is not 0.
unfoldable pub reply_serial_is_good : Message → Outcome Bool
reply_serial_is_good msg =
    if is_uint32_type (header_field reply_serial_field msg).current_type
    then elim (to_uint32 (header_field reply_serial_field msg)) [
      | ok s ↦ ok (not (s == 0))
      | abort ↦ abort
      | fault ↦ fault
      | raise ↦ raise
      | stuck ↦ stuck
    ]
    else ok false

-- What the call returns, with the vector that it leaves.
abbrev pub serialize_from : Outcome Bool → Marshaling → Marshaling → Outcome (Bool × List ℕ)
serialize_from (ok true) started m = ok (message_is_small_enough m.bytes, m.bytes)
serialize_from (ok false) started m = ok (false, started.bytes)
serialize_from abort started m = abort
serialize_from fault started m = fault
serialize_from raise started m = raise
serialize_from stuck started m = stuck

unfoldable pub serialize_to_vector : Message → List ℕ → ℕ → Outcome (Bool × List ℕ)
serialize_to_vector msg vec serial =
    let first = Writer.marshal_uint8 b'B' (record { bytes = vec; endian = big }) in
    let started = marshal_start msg first in
    if is_invalid_message msg.kind
    then ok (false, first.bytes)
    else serialize_from (if must_have_serial msg.kind then reply_serial_is_good msg else ok true)
        started (marshal_rest msg serial started)
