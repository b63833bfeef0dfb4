-- ===== src/Message/Examples.antt =====
-- The theorems at concrete values: a call with a path, a member and a descriptor, a reply, and
-- values of the wire format.
use dbus_cxx.Message.Fields.{header_field-set_header_field, destination-set_destination}
use dbus_cxx.Message.{create, set_header_field, set_destination, destination}
use dbus_cxx.Header.{MessageHeaderFields}
use dbus_cxx.Validator.{validate_bus_name}
use dbus_cxx.Common.{false}
use dbus_cxx.Common.{ℕ, ◌≤◌, ◌↔◌, ◌≡◌, ◌≢◌, refl, true, some, List, [], ◌∷◌, length, ltb→lt, arith}
use dbus_cxx.Header.{
  call, return, path_field, member_field, reply_serial_field, unix_fds_field, header_field_to_int,
}
use dbus_cxx.Message.Format.{serialize_to_vector, message_is_small_enough, reply_serial_is_good}
use dbus_cxx.Message.Parse.{create_from_data, demarshal_headers}
use dbus_cxx.Message.Entries.{Fields, map_of, entries_bytes, Readable}
use dbus_cxx.Message.Loop.{demarshal_headers-marshal_headers}
use dbus_cxx.Message.Bytes.{message_bytes, message_of_fields, serialize_to_vector-message_bytes}
use dbus_cxx.Message.RoundTrip.{create_from_data-serialize_to_vector}
use dbus_cxx.Wire.Words.{big, little, negsuc}
use dbus_cxx.Types.{int64, char_to_dbus_type, is_container, is_basic}
use dbus_cxx.Signature.{Parse, create_signature_tree, signature_of, link}
use dbus_cxx.Signature.Iterator.{begin, signature_text}
use dbus_cxx.Signature.Total.{create_signature_tree_total}
use dbus_cxx.Signature.Plain.{single, arrays, item_node}
use dbus_cxx.Signature.Printed.{signature_of-items_text}
use mathlib.Core.List.{map}
use dbus_cxx.Wire.Writer
use dbus_cxx.Wire.Reader
use dbus_cxx.Wire.Reader.{ok, and_then}
use dbus_cxx.Message.Equality.{equal_messages, SameFields, equal_messages_iff}
use dbus_cxx.Message.{Message, header_field, find}
use dbus_cxx.Wire.RoundTrip.{over}
use dbus_cxx.Wire.Values.{demarshal_value-marshal_value}
use dbus_cxx.Wire.Variants.{demarshal_variant-marshal_variant}
use dbus_cxx.Wire.Numbers.{writer}
use dbus_cxx.Wire.Variant.{
  int64_value, variant_of, marshal_variant, demarshal_variant, demarshal_value, to_uint32,
  string_value, path_value, uint32_value, value_signature, value_alignment, marshal_value,
}

abbrev call_fields : Fields
call_fields =
    (path_field, path_value (b'/' ∷ b'a' ∷ []))
    ∷ (member_field, string_value (b'G' ∷ b'o' ∷ []))
    ∷ (unix_fds_field, uint32_value 1)
    ∷ []

abbrev call_body : List ℕ
call_body = 7 ∷ 8 ∷ 9 ∷ []

call_fields-Readable : Readable 1 call_fields
unfolding value_alignment
call_fields-Readable =
    ((tt, omega arith), tt, ((tt, omega arith), tt, ((omega arith, omega arith), refl, tt)))

create_from_data-serialize_to_vector_example :
    (serialize_to_vector (message_of_fields call 0 0 call_fields call_body (5 ∷ [])) [] 42
      ≡ ok (true, message_bytes call 0 42 call_fields call_body))
    × (create_from_data (message_bytes call 0 42 call_fields call_body) (5 ∷ [])
        ≡ ok (message_of_fields call 0 42 call_fields call_body (5 ∷ [])))
unfolding header_field_to_int value_signature marshal_value Writer.marshal_path
    Writer.marshal_string Writer.marshal_uint32 Writer.marshal_int_big Writer.align Writer.push_all
    Writer.push_back
create_from_data-serialize_to_vector_example =
    create_from_data-serialize_to_vector call 0 0 42 call_fields call_body (5 ∷ []) (refl, refl)
      (omega arith) (omega arith, (omega arith, (omega arith, tt))) call_fields-Readable
      (omega arith) (ltb→lt _ _ refl)

-- A reply that answers the call above.
abbrev reply_fields : Fields
reply_fields = (reply_serial_field, uint32_value 42) ∷ []

serialize_to_vector-message_bytes_example :
    serialize_to_vector (message_of_fields return 1 0 reply_fields [] []) [] 6
    ≡ ok (
      message_is_small_enough (message_bytes return 1 6 reply_fields []),
      message_bytes return 1 6 reply_fields [],
    )
unfolding header_field_to_int value_signature variant_of marshal_value header_field find
    reply_serial_is_good to_uint32 Writer.marshal_uint32 Writer.marshal_int_big Writer.align
    Writer.push_all Reader.demarshal_uint32 Reader.demarshal_int_big Reader.align Reader.is_valid
    Reader.byte_at Reader.advance
serialize_to_vector-message_bytes_example =
    serialize_to_vector-message_bytes return 1 0 6 reply_fields [] [] (refl, refl) (ltb→lt _ _ refl)

demarshal_headers-marshal_headers_example :
    demarshal_headers 4
      (5 ∷ [])
      36
      ([], [])
      (over (writer (entries_bytes 0 call_fields) big) (1 ∷ []) 0)
    ≡ ok (
      (map_of call_fields, 5 ∷ []),
      over
          (writer (entries_bytes 0 call_fields) big)
          (1 ∷ [])
          (length (entries_bytes 0 call_fields)),
    )
unfolding header_field_to_int value_signature marshal_value Writer.marshal_path
    Writer.marshal_string Writer.marshal_uint32 Writer.marshal_int_big Writer.align Writer.push_all
    Writer.push_back
demarshal_headers-marshal_headers_example =
    demarshal_headers-marshal_headers call_fields [] (1 ∷ []) (5 ∷ []) 4 36 0 [] []
      (omega arith, (omega arith, (omega arith, tt))) tt call_fields-Readable (omega arith) refl
      (ltb→lt _ _ refl) (omega arith)

demarshal_value-marshal_value_example :
    demarshal_value int64
      (over (marshal_value (int64_value (negsuc 4)) (writer (1 ∷ []) little)) (2 ∷ []) 1)
    ≡ ok (
      int64_value (negsuc 4),
      over (marshal_value (int64_value (negsuc 4)) (writer (1 ∷ []) little)) (2 ∷ []) 16,
    )
unfolding marshal_value Writer.marshal_int64 Writer.marshal_long_little Writer.align
    Writer.push_zeros Writer.push_all
demarshal_value-marshal_value_example =
    demarshal_value-marshal_value (int64_value (negsuc 4)) (writer (1 ∷ []) little) (2 ∷ [])
      (omega arith) (ltb→lt _ _ refl)

demarshal_variant-marshal_variant_example :
    demarshal_variant 1 (
      over
        (marshal_variant (variant_of (string_value (b'G' ∷ b'o' ∷ []))) (writer (3 ∷ []) big))
        (2 ∷ [])
        1)
    ≡ ok (
      variant_of (string_value (b'G' ∷ b'o' ∷ [])),
      over
          (marshal_variant (variant_of (string_value (b'G' ∷ b'o' ∷ []))) (writer (3 ∷ []) big))
          (2 ∷ [])
          11,
    )
unfolding variant_of value_signature value_alignment marshal_value marshal_variant
    Writer.marshal_variant Writer.marshal_signature Writer.marshal_string Writer.marshal_uint32
    Writer.marshal_int_big Writer.align Writer.push_zeros Writer.push_all Writer.push_back
demarshal_variant-marshal_variant_example =
    demarshal_variant-marshal_variant (string_value (b'G' ∷ b'o' ∷ [])) (3 ∷ []) (2 ∷ []) 0 tt refl
      (ltb→lt _ _ refl)

-- `aaiu`
signature_of-items_text_example :
    ((signature_of (b'a' ∷ b'a' ∷ b'i' ∷ b'u' ∷ [])).valid ≡ true)
    × ((signature_of (b'a' ∷ b'a' ∷ b'i' ∷ b'u' ∷ [])).starting_node
        ≡ link (map item_node (arrays 1 b'i' ∷ single b'u' ∷ [])))
    × (signature_text (begin (signature_of (b'a' ∷ b'a' ∷ b'i' ∷ b'u' ∷ [])))
        ≡ b'a' ∷ b'a' ∷ b'i' ∷ b'u' ∷ [])
unfolding char_to_dbus_type is_basic is_container
signature_of-items_text_example =
    signature_of-items_text (arrays 1 b'i') (single b'u' ∷ []) ((refl, omega arith), (refl, tt))

create_signature_tree_total_example :
    (p : Parse) × (create_signature_tree 5 (b'(' ∷ b'i' ∷ b')' ∷ []) [] true ≡ some p)
    × (length p.rest ≤ 3)
create_signature_tree_total_example =
    create_signature_tree_total 5 (b'(' ∷ b'i' ∷ b')' ∷ []) [] true (omega arith)

header_field-set_header_field_example :
    (header_field path_field
        (set_header_field path_field (variant_of (uint32_value 1)) (create call)).0
      ≡ variant_of (uint32_value 1))
    × ((set_header_field path_field (variant_of (uint32_value 1)) (create call)).1
        ≡ header_field path_field (create call))
    × ((j : MessageHeaderFields)
        → j ≢ path_field
        → header_field j (set_header_field path_field (variant_of (uint32_value 1)) (create call)).0
          ≡ header_field j (create call))
header_field-set_header_field_example =
    header_field-set_header_field path_field (variant_of (uint32_value 1)) (create call)

-- `a.b`
abbrev bus_name : List ℕ
bus_name = b'a' ∷ b'.' ∷ b'b' ∷ []

destination-set_destination_example :
    ((set_destination bus_name (create call)).1 ≡ validate_bus_name bus_name)
    × (validate_bus_name bus_name ≡ true
        → destination (set_destination bus_name (create call)).0 ≡ ok bus_name)
    × (validate_bus_name bus_name ≡ false
        → (set_destination bus_name (create call)).0 ≡ create call)
destination-set_destination_example = destination-set_destination bus_name (create call)

-- The same call with two serials.
abbrev call_with : ℕ → Message
call_with serial = message_of_fields call 0 serial call_fields call_body (5 ∷ [])

equal_messages_iff_example :
    (equal_messages (call_with 1) (call_with 2) ≡ true)
    ↔ ((call ≡ call) × SameFields (call_with 1) (call_with 2) × (call_body ≡ call_body))
equal_messages_iff_example = equal_messages_iff (call_with 1) (call_with 2)
