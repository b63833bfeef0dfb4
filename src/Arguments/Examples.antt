-- ===== src/Arguments/Examples.antt =====
-- Concrete arguments (dbus-cxx/messageappenditerator.cpp and messageiterator.cpp).
use dbus_cxx.Common.{◌≡◌, refl, List, [], ◌∷◌, true, arith}
use dbus_cxx.Header.{call}
use dbus_cxx.Message.{Message, create}
use dbus_cxx.Wire.Reader.{and_then, ok}
use dbus_cxx.Wire.Variant.{
  Value, byte_value, uint64_value, string_value, signature_value, bool_value, value_type,
}
use dbus_cxx.Arguments.{iterator_of}
use dbus_cxx.Arguments.Fields.{append_all}
use dbus_cxx.Arguments.Reading.{extract_all}
use dbus_cxx.Arguments.RoundTrip.{extract_all-append_all}
use dbus_cxx.Arguments.Transfer.{transfer, extract_array-append_vector, extract_array-narrow}
use dbus_cxx.Types.{byte, uint64}

abbrev others : List Value
others =
    uint64_value 70000
    ∷ string_value (b'h' ∷ b'i' ∷ [])
    ∷ bool_value true
    ∷ signature_value (b'a' ∷ b'y' ∷ [])
    ∷ []

extract_all-append_all_example :
    and_then
      (and_then (append_all (byte_value 7 ∷ others) (create call)) iterator_of)
      (extract_all 5)
    ≡ ok (byte_value 7 ∷ others)
unfolding create dbus_cxx.Message.header_field dbus_cxx.Wire.Variant.value_signature
    dbus_cxx.Wire.Variant.marshal_value dbus_cxx.Wire.Writer.marshal_signature
    dbus_cxx.Wire.Writer.marshal_bool dbus_cxx.Wire.Writer.marshal_int_big
    dbus_cxx.Wire.Writer.marshal_string dbus_cxx.Wire.Writer.marshal_uint32
    dbus_cxx.Wire.Writer.marshal_uint64 dbus_cxx.Wire.Writer.marshal_long_big
    dbus_cxx.Wire.Writer.marshal_uint8 dbus_cxx.Wire.Writer.push_zeros
extract_all-append_all_example =
    extract_all-append_all (byte_value 7) others (create call)
      (omega arith, (omega arith, (tt, (tt, (omega arith, tt))))) refl refl refl refl (omega arith)
      (omega arith)

extract_array-append_vector_example :
    transfer uint64 (uint64_value 7 ∷ uint64_value 70000 ∷ []) (create call)
    ≡ ok (uint64_value 7 ∷ uint64_value 70000 ∷ [])
unfolding create dbus_cxx.Message.header_field dbus_cxx.Types.alignment dbus_cxx.Types.is_container
    dbus_cxx.Wire.Variant.marshal_value dbus_cxx.Wire.Writer.marshal_uint64
    dbus_cxx.Wire.Writer.marshal_long_big dbus_cxx.Wire.Writer.align dbus_cxx.Wire.Writer.push_all
extract_array-append_vector_example =
    extract_array-append_vector uint64 (uint64_value 7 ∷ uint64_value 70000 ∷ []) (create call)
      (refl, refl) (omega arith) ((omega arith, refl), ((omega arith, refl), tt))
      (refl, refl, refl, refl) (omega arith)

extract_array-narrow_example :
    transfer byte
      (byte_value 1 ∷ byte_value 2 ∷ byte_value 3 ∷ byte_value 4 ∷ byte_value 5 ∷ [])
      (create call)
    ≡ ok (byte_value 1 ∷ byte_value 2 ∷ [])
unfolding create dbus_cxx.Message.header_field dbus_cxx.Types.alignment dbus_cxx.Types.is_fixed
    dbus_cxx.Wire.Variant.marshal_value dbus_cxx.Wire.Writer.marshal_uint8
    dbus_cxx.Wire.Writer.push_back
extract_array-narrow_example =
    extract_array-narrow byte
      (byte_value 1 ∷ byte_value 2 ∷ byte_value 3 ∷ byte_value 4 ∷ byte_value 5 ∷ []) (create call)
      refl (omega arith)
      (
        (omega arith, refl),
        (
          (omega arith, refl),
          ((omega arith, refl), ((omega arith, refl), ((omega arith, refl), tt))),
        ),
      )
      (refl, refl, refl, refl) (omega arith)
