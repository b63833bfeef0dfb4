-- ===== src/SimpleTransport/Examples.antt =====
-- Concrete reads of a SimpleTransport (dbus-cxx/simpletransport.cpp).
use dbus_cxx.Common.{
  ℕ, zero, suc, ◌≡◌, refl, List, [], ◌∷◌, ◌++◌, some, none, length, replicate, take, drop, arith,
}
use dbus_cxx.Header.{header_field_to_int, call, path_field, member_field}
use dbus_cxx.Message.{Message}
use dbus_cxx.Message.Bytes.{fixed_bytes, message_bytes, message_of_fields}
use dbus_cxx.Message.Parse.{parse, demarshal_headers, demarshal_body, create_from_data}
use dbus_cxx.Message.RoundTrip.{create_from_data-serialize_to_vector}
use dbus_cxx.Message.Entries.{Fields, Readable}
use dbus_cxx.Wire.Writer
use dbus_cxx.Wire.Reader
use dbus_cxx.Wire.Reader.{ok, fault}
use dbus_cxx.Wire.Variant.{
  path_value, string_value, value_alignment, value_signature, marshal_value,
}
use dbus_cxx.SimpleTransport.{SimpleTransport, Read, Write, create, write_message}
use dbus_cxx.SimpleTransport.Reading.{read_message}
use dbus_cxx.SimpleTransport.Counters.{IsIdle, first_bytes}
use dbus_cxx.Wire.Words.{little, big}
use dbus_cxx.SimpleTransport.Delivery.{Delivers, read_message-write_message}
use dbus_cxx.SimpleTransport.Queue.{Arrives, nothing, message, read_times, read_times-Arrives}
use dbus_cxx.SimpleTransport.Broken.{read_times-header_in_two, read_message-overrun}

-- A descriptor that gives one piece after the other, and nothing where nothing is asked for.
abbrev pieces : Read (List (List ℕ))
pieces zero k = (some [], k)
pieces (suc n) [] = (none, [])
pieces (suc n) (p ∷ ps) = (some p, ps)

-- A descriptor that takes all bytes.
abbrev taking : Write (List ℕ)
taking bytes k = (some (length bytes), k ++ bytes)

abbrev fields : Fields
fields =
    (path_field, path_value (b'/' ∷ b'a' ∷ []))
    ∷ (member_field, string_value (b'G' ∷ b'o' ∷ []))
    ∷ []

abbrev sent : List ℕ
sent = message_bytes call 0 42 fields (7 ∷ 8 ∷ [])

create-IsIdle : IsIdle create
unfolding create
create-IsIdle = (refl, refl, refl, omega arith)

fields-Readable : Readable 0 fields
unfolding value_alignment
fields-Readable = ((tt, omega arith), tt, ((tt, omega arith), tt, tt))

read_message-write_message_example :
    (write_message taking (message_of_fields call 0 0 fields (7 ∷ 8 ∷ []) []) 42 create []
      ≡ ok (some (length sent), record create { send_buffer = sent }, sent))
    × Delivers 0 pieces create
        (take 16 sent ∷ drop 16 sent ∷ [])
        (message_of_fields call 0 42 fields (7 ∷ 8 ∷ []) [])
        []
unfolding header_field_to_int value_signature marshal_value Writer.marshal_path
    Writer.marshal_string Writer.marshal_uint32 Writer.marshal_int_big
read_message-write_message_example =
    read_message-write_message pieces taking 0 create create call 0 0 42 fields (7 ∷ 8 ∷ [])
      (take 16 sent ∷ drop 16 sent ∷ []) (drop 16 sent ∷ []) [] [] (refl, refl) (omega arith)
      (omega arith, (omega arith, tt)) fields-Readable (omega arith) create-IsIdle refl refl

-- A call with no header fields and no body.
abbrev bare : List ℕ
bare = fixed_bytes 1 0 0 5 0

abbrev bare_message : Message
bare_message = message_of_fields call 0 5 [] [] []

bare_created : create_from_data (bare ++ []) [] ≡ ok bare_message
bare_created =
    (create_from_data-serialize_to_vector call 0 0 5 [] [] [] (refl, refl) (omega arith) tt tt
      (omega arith) (omega arith)).1

-- The same call in the other byte order.
abbrev little_message : Message
little_message = record bare_message { endian = little; serial = 6 }

little_created : create_from_data (first_bytes little 1 0 1 0 6 0 ++ []) [] ≡ ok little_message
unfolding create_from_data parse Reader.demarshal_uint8 Reader.is_valid Reader.byte_at
    Reader.advance Reader.set_endianess Reader.demarshal_uint32 Reader.demarshal_int_little
    Reader.align demarshal_headers Reader.current_offset demarshal_body
little_created = refl

abbrev little_bare : List ℕ
little_bare = first_bytes little 1 0 1 0 6 0

-- They arrive one behind the other.
both_orders : Arrives pieces (bare_message ∷ little_message ∷ []) (bare ∷ little_bare ∷ []) []
both_orders =
    message big 1 0 1 0 5 0 [] (omega arith) refl bare_created refl refl
      (message little 1 0 1 0 6 0 [] (omega arith) refl little_created refl refl nothing)

read_times-Arrives_example :
    (t' : SimpleTransport) × IsIdle t'
    × (read_times 2 0 pieces create (bare ∷ little_bare ∷ [])
        ≡ ok (some bare_message ∷ some little_message ∷ [], t', []))
read_times-Arrives_example =
    read_times-Arrives pieces 0 create (bare_message ∷ little_message ∷ [])
      (bare ∷ little_bare ∷ []) [] create-IsIdle both_orders

read_times-header_in_two_example :
    (t' : SimpleTransport) × (read_times 9 0 pieces create
        (fixed_bytes 1 0 0 5 20 ∷ replicate 10 1 ∷ replicate 14 1 ∷ [])
      ≡ ok (replicate 9 none, t', []))
read_times-header_in_two_example =
    read_times-header_in_two pieces 0 7 create 1 0 0 5 20 (replicate 10 1) (replicate 14 1)
      (fixed_bytes 1 0 0 5 20 ∷ replicate 10 1 ∷ replicate 14 1 ∷ [])
      (replicate 10 1 ∷ replicate 14 1 ∷ []) (replicate 14 1 ∷ []) [] create-IsIdle (omega arith)
      (omega arith) (omega arith) (omega arith) (omega arith) refl refl refl refl

read_message-overrun_example :
    read_message 0 pieces create (fixed_bytes 1 0 4294967280 5 8 ∷ replicate 600 1 ∷ []) ≡ fault
unfolding create
read_message-overrun_example =
    read_message-overrun pieces 0 create 1 0 4294967280 5 (replicate 600 1)
      (fixed_bytes 1 0 4294967280 5 8 ∷ replicate 600 1 ∷ []) (replicate 600 1 ∷ []) []
      create-IsIdle (omega arith) (omega arith) (omega arith) refl refl
