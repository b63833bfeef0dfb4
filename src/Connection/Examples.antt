-- ===== src/Connection/Examples.antt =====
-- The theorems on connections: two messages that are sent, and a call that is answered.
use dbus_cxx.Common.{ℕ, ◌≡◌, ◌≢◌, refl, true, List, [], ◌∷◌, some}
use dbus_cxx.Header.{call, return, signal, reply_serial_field, header_field_to_int}
use dbus_cxx.Message.{Message, create, header_field, find}
use dbus_cxx.Wire.Writer
use dbus_cxx.Wire.Reader
use dbus_cxx.Wire.Reader.{ok}
use dbus_cxx.Wire.Variant.{uint32_value, marshal_value, variant_of, to_uint32}
use dbus_cxx.Connection.{
  Connection, complete, flush, find_response, reply_serial, begin_blocking_call,
  process_single_message,
}
use dbus_cxx.Connection.Queue.{send_all, numbered, flush-send_all}
use dbus_cxx.Connection.Replies.{begin_blocking_call-reply}

abbrev connected : Connection
connected = record {
  valid = true;
  current_serial = 7;
  incoming = [];
  outgoing = [];
  expecting = [];
  status = complete;
  written = [];
}

abbrev two_messages : List Message
two_messages = create call ∷ create signal ∷ []

flush-send_all_example :
    (d : Connection) × (send_all two_messages connected ≡ ok d)
    × ((flush d).written ≡ numbered 7 two_messages)
    × ((flush d).outgoing ≡ [])
flush-send_all_example = flush-send_all two_messages connected refl

abbrev reply : Message
reply = record (create return) {
  header_map = (reply_serial_field, variant_of (uint32_value 7)) ∷ [];
}

begin_blocking_call-reply_example :
    (d : Connection) × (e : Connection) × (begin_blocking_call (create call) connected ≡ ok (7, d))
    × (process_single_message (λ m c. c) (λ m c. c) (record d { incoming = reply ∷ [] }) ≡ ok e)
    × (e.incoming ≡ [])
    × (find_response 7 e.expecting ≡ some (some reply))
    × ((j : ℕ) → j ≢ 7 → find_response j e.expecting ≡ find_response j [])
unfolding create header_field_to_int reply_serial header_field find variant_of marshal_value
    to_uint32 Writer.marshal_uint32 Writer.marshal_int_big Writer.align Writer.push_all
    Reader.demarshal_uint32 Reader.demarshal_int_big Reader.align Reader.is_valid Reader.byte_at
    Reader.advance
begin_blocking_call-reply_example =
    begin_blocking_call-reply (λ m c. c) (λ m c. c) connected (create call) reply [] refl refl refl
