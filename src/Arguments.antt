-- ===== src/Arguments.antt =====
-- The arguments of a message: MessageAppendIterator, Message::append_signature and MessageIterator
-- (dbus-cxx/messageappenditerator.cpp, message.cpp, messageiterator.cpp), outside containers.
pub mod Fields
pub mod Bytes
pub mod Reading
pub mod Containers
pub mod Arrays
pub mod Elements
pub mod Stopping
pub mod Appended
pub mod Vectors
pub mod Received
pub mod Widths
pub mod Transfer
pub mod RoundTrip
mod Examples
use dbus_cxx.Common.{
  ℕ, ◌+◌, ◌%◌, List, [], ◌∷◌, ◌++◌, Bool, true, false, not, ◌&&◌, length, ltb, ◌==◌, if◌then◌else◌,
}
use dbus_cxx.Types
use dbus_cxx.Types.{
  DataType, byte, boolean, int16, uint16, int32, uint32, int64, uint64, double, string, object_path,
  signature, array, invalid, same_type,
}
use dbus_cxx.Header.{signature_field}
use dbus_cxx.Signature.{Signature, signature_of, no_signature, is_invalid}
use dbus_cxx.Signature.Iterator
use dbus_cxx.Signature.Iterator.{SignatureIterator, begin, type_of}
use dbus_cxx.Message.{Message, insert, header_field, invalidate}
use dbus_cxx.Wire.Words.{big, ℤ}
use dbus_cxx.Wire.Writer
use dbus_cxx.Wire.Writer.{Marshaling}
use dbus_cxx.Wire.Reader
use dbus_cxx.Wire.Reader.{Demarshaling, Outcome, ok, abort, fault, raise, stuck, D, and_then}
use dbus_cxx.Wire.Variant.{
  Value, byte_value, bool_value, int16_value, uint16_value, int32_value, uint32_value, int64_value,
  uint64_value, double_value, string_value, path_value, signature_value, Variant, variant_of,
  value_signature, marshal_value,
}
use dbus_cxx.Wire.Variant.Conversions.{to_signature}

-- The text that the Signature field has, and the empty one where there is no such field.
abbrev pub old_signature : Variant → Outcome (List ℕ)
old_signature v = if is_invalid v.current_type then ok [] else to_signature v

unfoldable pub append_signature : List ℕ → Message → Outcome Message
append_signature to_append msg = and_then (old_signature (header_field signature_field msg)) (λ old.
    ok (record msg {
      header_map =
          insert signature_field (variant_of (signature_value (old ++ to_append))) msg.header_map;
    }))

-- The loop over the characters of a signature.
unfoldable pub marshal_chars : List ℕ → Marshaling → Marshaling
marshal_chars [] m = m
marshal_chars (c ∷ cs) m = marshal_chars cs (Writer.marshal_uint8 c m)

-- The bytes that `operator<<` appends; a signature is written character by character.
unfoldable pub marshal_argument : Value → Marshaling → Marshaling
marshal_argument (signature_value s) m =
    Writer.marshal_uint8 0 (marshal_chars s (Writer.marshal_uint8 (length s % 256) m))
marshal_argument v m = marshal_value v m

-- A signature of more than 255 characters makes the message invalid.
abbrev pub is_too_long : Value → Bool
is_too_long (signature_value s) = ltb 255 (length s)
is_too_long _ = false

-- `operator<<` of an iterator that writes to the message itself.
unfoldable pub append : Value → Message → Outcome Message
append v msg =
    if not msg.valid
    then ok msg
    else if is_too_long v
    then ok (invalidate msg)
    else and_then (append_signature (value_signature v) msg) (λ m.
      ok (record m { body = (marshal_argument v (record { bytes = m.body; endian = big })).bytes }))

-- An iterator over the arguments: whether it has a message that is valid, the reader of the body,
-- and the signature from the current argument on. Outside containers its `subiter_type` is invalid;
-- in an array the iterator knows where that ends.
pub record MessageIterator : Type 0 where
  pub message_valid : Bool
  pub demarshal : Demarshaling
  pub signature_iterator : SignatureIterator
  pub subiter_type : DataType
  pub array_last_position : ℕ

unfoldable pub message_signature : Message → Outcome Signature
message_signature msg =
    if same_type (header_field signature_field msg).current_type signature
    then and_then (to_signature (header_field signature_field msg)) (λ s. ok (signature_of s))
    else ok no_signature

-- Message::begin
unfoldable pub iterator_of : Message → Outcome MessageIterator
iterator_of msg = and_then (message_signature msg) (λ sig. ok (record {
  message_valid = msg.valid;
  demarshal = record { bytes = msg.body; pos = 0; endian = msg.endian };
  signature_iterator = begin sig;
  subiter_type = invalid;
  array_last_position = 0;
}))

unfoldable pub arg_type : MessageIterator → DataType
arg_type it = type_of it.signature_iterator

unfoldable pub is_valid : MessageIterator → Bool
is_valid it =
    if not it.message_valid
    then false
    else if is_invalid (arg_type it)
    then false
    else if same_type it.subiter_type array
    then not (ltb it.array_last_position it.demarshal.pos)
    else true

unfoldable pub has_next : MessageIterator → Bool
has_next it = if is_valid it then Iterator.has_next it.signature_iterator else false

-- `next`: at the end of the signature the iterator loses its message. In an array it stays where it is.
unfoldable pub next : MessageIterator → MessageIterator × Bool
next it =
    if not (is_valid it)
    then (it, false)
    else if same_type it.subiter_type array
    then (it, true)
    else (let moved = Iterator.next it.signature_iterator in
        let there = record it { signature_iterator = moved.0 } in
        if not moved.1
        then (record there { message_valid = false }, false)
        else if is_invalid (arg_type there)
        then (record there { message_valid = false }, false)
        else (there, true))

-- What is read, and the iterator with its reader behind it.
abbrev pub taken :
    {A : Type 0} → MessageIterator → Outcome (A × Demarshaling) → Outcome (A × MessageIterator)
taken it (ok (a, r)) = ok (a, record it { demarshal = r })
taken it abort = abort
taken it fault = fault
taken it raise = raise
taken it stuck = stuck

-- A function that gets a value throws ErrorInvalidTypecast where the argument has another type.
abbrev pub got : {A : Type 0} → DataType → D A → MessageIterator → Outcome (A × MessageIterator)
got t d it = if not (same_type (arg_type it) t) then raise else taken it (d it.demarshal)

unfoldable pub get_bool : MessageIterator → Outcome (Bool × MessageIterator)
get_bool = got boolean Reader.demarshal_boolean

unfoldable pub get_uint8 : MessageIterator → Outcome (ℕ × MessageIterator)
get_uint8 = got byte Reader.demarshal_uint8

unfoldable pub get_int16 : MessageIterator → Outcome (ℤ × MessageIterator)
get_int16 = got int16 Reader.demarshal_int16

unfoldable pub get_uint16 : MessageIterator → Outcome (ℕ × MessageIterator)
get_uint16 = got uint16 Reader.demarshal_uint16

unfoldable pub get_int32 : MessageIterator → Outcome (ℤ × MessageIterator)
get_int32 = got int32 Reader.demarshal_int32

unfoldable pub get_uint32 : MessageIterator → Outcome (ℕ × MessageIterator)
get_uint32 = got uint32 Reader.demarshal_uint32

unfoldable pub get_int64 : MessageIterator → Outcome (ℤ × MessageIterator)
get_int64 = got int64 Reader.demarshal_int64

unfoldable pub get_uint64 : MessageIterator → Outcome (ℕ × MessageIterator)
get_uint64 = got uint64 Reader.demarshal_uint64

unfoldable pub get_double : MessageIterator → Outcome (ℕ × MessageIterator)
get_double = got double Reader.demarshal_double

abbrev pub is_text : DataType → Bool
is_text string = true
is_text object_path = true
is_text signature = true
is_text _ = false

unfoldable pub get_string : MessageIterator → Outcome (List ℕ × MessageIterator)
get_string it =
    if not (is_text (arg_type it))
    then raise
    else if same_type (arg_type it) signature
    then taken it (Reader.demarshal_signature it.demarshal)
    else taken it (Reader.demarshal_string it.demarshal)

unfoldable pub get_signature : MessageIterator → Outcome (List ℕ × MessageIterator)
get_signature it = taken it (Reader.demarshal_signature it.demarshal)

abbrev pub as_value :
    {A : Type 0} → (A → Value) → Outcome (A × MessageIterator) → Outcome (Value × MessageIterator)
as_value f o = and_then o (λ p. ok (f p.0, p.1))

-- The function that gets a value of a type, for the types that are no container.
unfoldable pub get : DataType → MessageIterator → Outcome (Value × MessageIterator)
get byte it = as_value byte_value (get_uint8 it)
get boolean it = as_value bool_value (get_bool it)
get int16 it = as_value int16_value (get_int16 it)
get uint16 it = as_value uint16_value (get_uint16 it)
get int32 it = as_value int32_value (get_int32 it)
get uint32 it = as_value uint32_value (get_uint32 it)
get int64 it = as_value int64_value (get_int64 it)
get uint64 it = as_value uint64_value (get_uint64 it)
get double it = as_value double_value (get_double it)
get string it = as_value string_value (get_string it)
get object_path it = as_value path_value (get_string it)
get signature it = as_value signature_value (get_signature it)
get _ it = stuck

-- `operator>>` to the C++ type of the argument, and then the next argument. The conversions from one
-- numeric type to another are left out.
unfoldable pub extract : MessageIterator → Outcome (Value × MessageIterator)
extract it = and_then (get (arg_type it) it) (λ p. ok (p.0, (next p.1).0))
