-- ===== src/Kinds/Errors.antt =====
-- What an error message is made of and what is read from it (dbus-cxx/errormessage.cpp).
use dbus_cxx.Common.{
  ℕ, ◌+◌, ◌<◌, ◌^◌, ◌≡◌, refl, ap, ◌∙◌, List, [], ◌∷◌, append-nil, length, some, if◌then◌else◌,
  arith,
}
use dbus_cxx.Types.{DataType, string, signature, same_type}
use dbus_cxx.Header.{error, error_name_field, reply_serial_field, header_field_to_int}
use dbus_cxx.Message
use dbus_cxx.Message.{Message, header_field, set_header_field, find, insert}
use dbus_cxx.Message.Fields.{to_string-variant_of, length-marshal_string}
use dbus_cxx.Signature.{signature_of}
use dbus_cxx.Signature.Iterator.{begin, type_of}
use dbus_cxx.Wire.Words.{big}
use dbus_cxx.Wire.Writer
use dbus_cxx.Wire.Reader
use dbus_cxx.Wire.Reader.{Outcome, ok, and_then}
use dbus_cxx.Wire.Numbers.{writer}
use dbus_cxx.Wire.Text.{string_read}
use dbus_cxx.Wire.Variant.{
  Variant, variant_of, string_value, uint32_value, value_signature, marshal_value,
}
use dbus_cxx.Wire.Variant.Conversions.{to_signature}
use dbus_cxx.Wire.Variants.{to_uint32-variant_of, type_of-value_signature, length-value_signature}
use dbus_cxx.Arguments.{MessageIterator, iterator_of, get_string, arg_type}
use dbus_cxx.Arguments.Fields.{
  with_arguments, appended, to_signature-variant_of, header_field-with_arguments,
}
use dbus_cxx.Arguments.Reading.{chain, reading}
use dbus_cxx.Arguments.RoundTrip.{iterator_of-with_arguments}
use dbus_cxx.Connection.{reply_serial}
use dbus_cxx.Kinds.{with_field}
use dbus_cxx.Kinds.ErrorMessage.{name, message, create_error}

-- The bytes of a text at the start of a body.
abbrev text_bytes : List ℕ → List ℕ
text_bytes text = (marshal_value (string_value text) (writer [] big)).bytes

-- An error before its text is appended.
abbrev named : ℕ → List ℕ → Message
named serial n =
    with_field error_name_field (string_value n)
      (with_field reply_serial_field (uint32_value serial) (Message.create error))

abbrev pub whole : ℕ → List ℕ → List ℕ → Message
whole serial n text =
    with_arguments (value_signature (string_value text)) (text_bytes text) (named serial n)

pub create_error-whole :
    (call : Message) (n text : List ℕ)
    → create_error (some call) n text ≡ ok (whole call.serial n text)
unfolding create_error set_header_field Message.create header_field find insert header_field_to_int
create_error-whole call n text = appended (string_value text) (named call.serial n) [] tt refl refl

name-whole :
    (serial : ℕ) (n text : List ℕ) → length n + 16 < 2 ^ 32 → name (whole serial n text) ≡ ok n
unfolding name set_header_field Message.create header_field find insert header_field_to_int
    variant_of
name-whole serial n text small = to_string-variant_of n small

pub reply_serial-whole :
    (serial : ℕ) (n text : List ℕ)
    → serial < 2 ^ 32
    → reply_serial (whole serial n text) ≡ ok serial
unfolding reply_serial set_header_field Message.create header_field find insert header_field_to_int
    variant_of
reply_serial-whole serial n text small = to_uint32-variant_of serial small

-- The one argument, read as a string.
text_read :
    (text : List ℕ)
    → length text + 16 < 2 ^ 32
    → and_then
        (get_string (
          reading
            (text_bytes text)
            0
            (chain (string_value text ∷ []))
            (chain (string_value text ∷ []))))
        (λ p. ok p.0)
      ≡ ok text
unfolding get_string arg_type type_of marshal_value Writer.marshal_string Writer.marshal_uint32
    Writer.marshal_int_big
text_read text small =
    let kept : List ℕ = (Writer.marshal_string text (writer [] big)).bytes in
    let read : Reader.demarshal_string (record { bytes = kept; pos = 0; endian = big })
        ≡ ok (text, record { bytes = kept; pos = length kept; endian = big }) =
      rw (append-nil kept) at
        (string_read text [] big [] (omega (arith, length-marshal_string text))) in
    rw read

message-whole :
    (serial : ℕ) (n text : List ℕ)
    → length text + 16 < 2 ^ 32
    → message (whole serial n text) ≡ ok text
unfolding message variant_of set_header_field Message.create value_signature
message-whole serial n text small =
    let sig : List ℕ = value_signature (string_value text) in
    let m : Message = whole serial n text in
    let argument : Outcome MessageIterator → Outcome (List ℕ) =
      λ o. and_then o (λ it. and_then (get_string it) (λ p. ok p.0)) in
    let by_type : DataType → Outcome (List ℕ) =
      λ t. if same_type t string then argument (iterator_of m) else ok [] in
    let by_text : Outcome (List ℕ) → Outcome (List ℕ) =
      λ o. and_then o (λ value. by_type (type_of (begin (signature_of value)))) in
    let short : length sig < 256 = omega (arith, length-value_signature (string_value text)) in
    ap
      (λ (v : Variant).
        if same_type v.current_type signature then by_text (to_signature v) else ok [])
      (header_field-with_arguments sig (text_bytes text) (named serial n))
    ∙ ap by_text (to_signature-variant_of sig short)
    ∙ ap by_type (type_of-value_signature (string_value text))
    ∙ ap argument (
        iterator_of-with_arguments (string_value text) [] (text_bytes text) (named serial n) refl
          refl short)
    ∙ text_read text small

-- An error message that answers a call with a serial below 2 ^ 32, with a name and a text of
-- fewer than 2 ^ 32 - 16 characters each, answers that serial, and its name and its text are
-- read back.
pub create_error-message :
    (call : Message) (n text : List ℕ)
    → call.serial < 2 ^ 32
    → length n + 16 < 2 ^ 32
    → length text + 16 < 2 ^ 32
    → (reply : Message) × (create_error (some call) n text ≡ ok reply)
      × (reply.kind ≡ error)
      × (reply_serial reply ≡ ok call.serial)
      × (name reply ≡ ok n)
      × (message reply ≡ ok text)
unfolding set_header_field Message.create
create_error-message call n text small short_name short_text = (
  whole call.serial n text,
  create_error-whole call n text,
  refl,
  reply_serial-whole call.serial n text small,
  name-whole call.serial n text short_name,
  message-whole call.serial n text short_text,
)
