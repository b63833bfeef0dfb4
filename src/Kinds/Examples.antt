-- ===== src/Kinds/Examples.antt =====
-- A call and its replies (dbus-cxx/callmessage.cpp and errormessage.cpp).
use dbus_cxx.Common.{ℕ, ◌≡◌, refl, true, List, some, not, codes, arith}
use dbus_cxx.Header.{call, return, error, sender_field, header_field_to_int}
use dbus_cxx.Message
use dbus_cxx.Message.{Message, set_header_field, header_field, find, insert, destination, sender}
use dbus_cxx.Message.Fields.{to_string-variant_of}
use dbus_cxx.Validator.{validate_bus_name, count_elements, is_allowable_character}
use dbus_cxx.Wire.Reader.{ok}
use dbus_cxx.Wire.Variant.{string_value, variant_of}
use dbus_cxx.Connection.{reply_serial}
use dbus_cxx.Kinds.{with_field}
use dbus_cxx.Kinds.CallMessage.{create_reply, expects_reply}
use dbus_cxx.Kinds.ErrorMessage.{name, message, create_error}
use dbus_cxx.Kinds.Replies.{create_reply-reply_serial}
use dbus_cxx.Kinds.Errors.{create_error-message}

abbrev caller : List ℕ
caller = codes "a.b"

abbrev received_call : Message
received_call =
    with_field sender_field (string_value caller) (record (Message.create call) { serial = 7 })

caller-valid : validate_bus_name caller ≡ true
unfolding validate_bus_name count_elements is_allowable_character
caller-valid = refl

caller_sent : sender received_call ≡ ok caller
unfolding sender set_header_field Message.create header_field find insert header_field_to_int
    variant_of
caller_sent = to_string-variant_of caller (omega arith)

create_reply-reply_serial_example :
    (reply : Message) × (create_reply received_call ≡ ok (some reply))
    × (reply.kind ≡ return)
    × (reply_serial reply ≡ ok 7)
    × (destination reply ≡ ok caller)
    × (reply.valid ≡ not (expects_reply received_call))
unfolding set_header_field Message.create
create_reply-reply_serial_example =
    create_reply-reply_serial received_call caller refl caller_sent caller-valid (omega arith)

create_error-message_example :
    (reply : Message) × (create_error (some received_call) (codes "a.E") (codes "no") ≡ ok reply)
    × (reply.kind ≡ error)
    × (reply_serial reply ≡ ok 7)
    × (name reply ≡ ok (codes "a.E"))
    × (message reply ≡ ok (codes "no"))
unfolding set_header_field Message.create
create_error-message_example =
    create_error-message received_call (codes "a.E") (codes "no") (omega arith) (omega arith)
      (omega arith)
