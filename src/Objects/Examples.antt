-- ===== src/Objects/Examples.antt =====
-- Concrete objects and calls of them (dbus-cxx/object.cpp, interface.cpp and connection.cpp).
use dbus_cxx.Common.{
  if◌then◌else◌, ◌==◌, ℕ, ◌+◌, ◌<◌, ◌^◌, ◌≡◌, refl, true, false, List, [], ◌∷◌, length, some, none,
  codes, arith,
}
use dbus_cxx.Types.{invalid}
use dbus_cxx.Signature.{no_signature}
use dbus_cxx.Signature.Iterator.{begin, type_of, no_iterator}
use dbus_cxx.Wire.Words.{big}
use dbus_cxx.Wire.Writer
use dbus_cxx.Wire.Reader
use dbus_cxx.Wire.Variant.Conversions.{to_path}
use dbus_cxx.Arguments.{iterator_of, message_signature, arg_type}
use dbus_cxx.Header.{
  call, sender_field, path_field, interface_field, member_field, header_field_to_int,
}
use dbus_cxx.Message
use dbus_cxx.Message.{Message, set_header_field, header_field, find, insert, sender}
use dbus_cxx.Message.Fields.{to_string-variant_of}
use dbus_cxx.Validator.{validate_bus_name, count_elements, is_allowable_character}
use dbus_cxx.Wire.Reader.{ok, raise}
use dbus_cxx.Wire.Variant.{
  string_value, path_value, uint32_value, bool_value, marshal_value, variant_of,
}
use dbus_cxx.Kinds.{with_field}
use dbus_cxx.Kinds
use dbus_cxx.Kinds.CallMessage.{interface_name, member}
use dbus_cxx.Objects.{Method, Object, Heap, Property, returned, read_only, read_write}
use dbus_cxx.Objects.Handling.{object_handler}
use dbus_cxx.Objects.Paths.{Paths, PathHandlingEntry, process_call_message}
use dbus_cxx.Objects.Once.{IsCall}
use dbus_cxx.Objects.Answered.{process_call_message-raise}
use dbus_cxx.Objects.Registry.{Call, register, change_thread, unregister, expire, Registry}
use dbus_cxx.Objects.Values.{IsAssigned, value_of-set_value}

-- A method that returns nothing.
abbrev echo : Method
echo = record {
  name = codes "m";
  extract_and_call = λ msg reply. returned reply;
  introspection = λ depth. [];
}

abbrev shared : Heap
shared n = record {
  name = codes "c.d";
  path = codes "/a";
  methods = (codes "m", echo) ∷ [];
  properties = [];
  connected = true;
}

abbrev the_object : Object
the_object = record {
  path = codes "/a";
  interfaces = (codes "c.d", 0) ∷ [];
  default_interface = none;
  children = [];
  connected = true;
}

abbrev the_entry : PathHandlingEntry
the_entry = record { handler = 0; handling_thread = 1 }

abbrev the_paths : Paths
the_paths = record {
  path_handler = (codes "/a", the_entry) ∷ [];
  thread_dispatchers = [];
  dispatching_thread = 1;
  handed_over = [];
}

-- A call of a member of an interface.
abbrev call_of : List ℕ → List ℕ → Message
call_of interface_text member_text = with_field path_field (path_value (codes "/a")) (
    with_field interface_field (string_value interface_text) (
      with_field member_field (string_value member_text) (
        with_field sender_field (string_value (codes "a.b"))
          (record (Message.create call) { serial = 7 }))))

to_path_a : to_path (variant_of (path_value (codes "/a"))) ≡ ok (codes "/a")
unfolding variant_of to_path Reader.demarshal_string Reader.demarshal_uint32
    Reader.demarshal_int_big Reader.align Reader.is_valid Reader.byte_at Reader.advance
    Reader.chars_at marshal_value Writer.marshal_path Writer.marshal_string Writer.marshal_uint32
    Writer.marshal_int_big
to_path_a = refl

call_of-IsCall :
    (i m : List ℕ)
    → length i + 16 < 2 ^ 32
    → length m + 16 < 2 ^ 32
    → IsCall (call_of i m) (codes "a.b") (codes "/a") i m
unfolding validate_bus_name count_elements is_allowable_character sender set_header_field
    Message.create header_field find insert header_field_to_int variant_of Kinds.path interface_name
    member
call_of-IsCall i m small_i small_m = (
  refl,
  refl,
  omega arith,
  to_string-variant_of (codes "a.b") (omega arith),
  refl,
  to_path_a,
  to_string-variant_of i small_i,
  to_string-variant_of m small_m,
)

-- A call of Get with no arguments.
abbrev bare_get : Message
bare_get = call_of (codes "org.freedesktop.DBus.Properties") (codes "Get")

process_call_message-raise_example :
    process_call_message (object_handler true none (λ n. the_object) shared) bare_get the_paths
    ≡ raise
unfolding set_header_field Message.create header_field find insert header_field_to_int variant_of
    iterator_of message_signature arg_type type_of begin no_signature no_iterator
process_call_message-raise_example =
    process_call_message-raise bare_get (codes "a.b") (codes "/a")
      (codes "org.freedesktop.DBus.Properties") (codes "Get") true none (λ n. the_object) shared
      the_paths the_entry
      (record {
        message_valid = true;
        demarshal = record { bytes = []; pos = 0; endian = big };
        signature_iterator = begin no_signature;
        subiter_type = invalid;
        array_last_position = 0;
      })
      (call_of-IsCall (codes "org.freedesktop.DBus.Properties") (codes "Get") (omega arith)
        (omega arith))
      refl refl refl refl refl refl

abbrev volume : List Property
volume =
    record {
      name = codes "Mute";
      access = read_only;
      value = variant_of (bool_value true);
      introspection = λ depth. [];
    }
    ∷ record {
      name = codes "Volume";
      access = read_write;
      value = variant_of (uint32_value 3);
      introspection = λ depth. [];
    }
    ∷ []

value_of-set_value_example :
    (qs : List Property) × IsAssigned (codes "Volume") (variant_of (uint32_value 5)) volume qs
unfolding variant_of
value_of-set_value_example =
    value_of-set_value (codes "Volume") (variant_of (uint32_value 5)) volume refl refl

abbrev no_paths : Paths
no_paths = record {
  path_handler = [];
  thread_dispatchers = (2, true) ∷ (5, false) ∷ [];
  dispatching_thread = 1;
  handed_over = [];
}

abbrev no_entries : Registry
no_entries = record {
  entry_of = λ path. none;
  dispatcher_of = λ n. if 2 == n then some true else (if 5 == n then some false else none);
  dispatching_thread = 1;
}

abbrev calls : List Call
calls =
    register true 2 (codes "/b") 0
    ∷ register false 2 (codes "/a") 1
    ∷ change_thread false 3 (codes "/b") 0
    ∷ register false 5 (codes "/c") 2
    ∷ expire 3
    ∷ unregister (codes "/a")
    ∷ []
