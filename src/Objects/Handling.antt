-- ===== src/Objects/Handling.antt =====
-- How an object handles a call (dbus-cxx/methodbase.h, interface.cpp and object.cpp). What is sent is
-- returned in order. `machine_id` is the line that the file of the machine's id gives, where it does
-- not end before the end of the line.
use dbus_cxx.Common.{
  ℕ, List, [], ◌∷◌, ◌++◌, Option, none, some, Bool, not, if◌then◌else◌, codes, same_text, find_text,
}
use dbus_cxx.Header.{MessageType, call}
use dbus_cxx.Message.{Message}
use dbus_cxx.Wire.Reader.{Outcome, ok, raise, fault, and_then}
use dbus_cxx.Wire.Variant.{string_value}
use dbus_cxx.Arguments.{append, iterator_of}
use dbus_cxx.Kinds.CallMessage.{create_reply, create_error_reply, member, interface_name}
use dbus_cxx.Kinds.ErrorMessage.{create_error, set_name, set_message}
use dbus_cxx.Objects.{
  HandlerResult, handled, invalid_interface, invalid_method, not_handled, Called, returned,
  invalid_typecast, std_exception, other_exception, Method, Interface, Object, Heap, stored,
}
use dbus_cxx.Objects.Introspection.{introspect, doctype}
use dbus_cxx.Objects.Properties.{extract_text, handle_properties_message}

-- The result and what is sent.
abbrev pub Sent : Type 0
Sent = Outcome (HandlerResult × List Message)

abbrev pub send_error : List ℕ → List ℕ → Message → Sent
send_error name text msg = and_then (create_error (some msg) name text) (λ e. ok (handled, e ∷ []))

abbrev pub failed : List ℕ
failed = codes "org.freedesktop.DBus.Error.Failed"

-- The catch clauses of a method.
abbrev pub called : Message → Called → Sent
called msg (returned r) = ok (handled, r ∷ [])
called msg (invalid_typecast what) =
    send_error (codes "org.freedesktop.DBus.Error.InvalidSignature") what msg
called msg (std_exception what) = send_error failed what msg
called msg (other_exception package_version) =
    send_error failed
      (codes "DBus-cxx " ++ package_version ++ codes ": unknown error(uncaught exception)") msg

-- Method::handle_call_message
unfoldable pub call_method : Message → Method → Sent
call_method msg m = and_then (create_reply msg) (λ r. elim r [
  | none ↦ ok (not_handled, [])
  | some reply ↦ called msg (m.extract_and_call msg reply)
])

abbrev pub call_found : Message → Option Method → Sent
call_found msg none = ok (invalid_method, [])
call_found msg (some m) = call_method msg m

-- Interface::handle_call_message
unfoldable pub handle_call_message : Message → Interface → Sent
handle_call_message msg i =
    and_then (member msg) (λ name. call_found msg (find_text name i.methods))

-- The result, what is sent and the interfaces behind it.
abbrev pub Handled : Type 0
Handled = Outcome (HandlerResult × List Message × Heap)

abbrev pub unchanged : Heap → Sent → Handled
unchanged h o = and_then o (λ p. ok (p.0, p.1, h))

abbrev pub with_reply : Heap → (Message → Sent) → Outcome (Option Message) → Handled
with_reply h f o = and_then o (λ r. elim r [ none ↦ fault | some reply ↦ unchanged h (f reply) ])

abbrev pub send_text : List ℕ → Message → Sent
send_text text reply = and_then (append (string_value text) reply) (λ m. ok (handled, m ∷ []))

-- The calls of org.freedesktop.DBus.Peer.
abbrev pub with_ping : Heap → Outcome (Option Message) → Handled
with_ping h o =
    and_then o
      (λ r. elim r [ none ↦ ok (handled, [], h) | some reply ↦ ok (handled, reply ∷ [], h) ])

abbrev pub send_machine_id : Option (List ℕ) → Message → Heap → Handled
send_machine_id none msg h =
    with_reply h
      (λ e.
        and_then
          (set_message (codes "Unable to read DBus machine ID file")
            (set_name (codes "org.freedesktop.DBus.Error.IOError") e))
          (λ m. ok (handled, m ∷ [])))
      (create_error_reply msg)
send_machine_id (some line) msg h =
    and_then (create_reply msg)
      (λ r. elim r [ none ↦ raise | some reply ↦ unchanged h (send_text line reply) ])

unfoldable pub handle_peer : Option (List ℕ) → Message → Heap → Handled
handle_peer machine_id msg h = and_then (member msg) (λ name.
    if same_text name (codes "Ping")
    then with_ping h (create_reply msg)
    else if same_text name (codes "GetMachineId")
    then send_machine_id machine_id msg h
    else ok (invalid_method, [], h))

-- The properties of an interface of the heap.
abbrev on_properties : Bool → Message → Heap → ℕ → Handled
on_properties offset_first msg h n =
    and_then (handle_properties_message offset_first msg (h n)) (λ p. ok (p.0, p.1, stored n p.2 h))

-- The interface of the name, or else the default one.
abbrev pub chosen : List ℕ → Object → Option ℕ
chosen name o = elim (find_text name o.interfaces) [ none ↦ o.default_interface | some n ↦ some n ]

unfoldable pub handle_properties : Bool → Message → Object → Heap → Handled
handle_properties offset_first msg o h = and_then (iterator_of msg) (λ it.
    and_then (extract_text it) (λ p. elim (chosen p.0 o) [
      | none ↦ ok (invalid_interface, [], h)
      | some n ↦ on_properties offset_first msg h n
    ]))

abbrev pub is_call : MessageType → Bool
is_call call = Bool.true
is_call _ = Bool.false

abbrev pub call_chosen : Message → Heap → Option ℕ → Handled
call_chosen msg h none = ok (invalid_interface, [], h)
call_chosen msg h (some n) = unchanged h (handle_call_message msg (h n))

-- The calls of the interfaces that the object has been given.
unfoldable pub handle_others : List ℕ → Message → Object → Heap → Handled
handle_others name msg o h = call_chosen msg h (chosen name o)

-- A call of the interface of a name.
abbrev pub dispatched : Bool → Option (List ℕ) → Message → Object → Heap → List ℕ → Handled
dispatched offset_first machine_id msg o h name =
    if same_text name (codes "org.freedesktop.DBus.Introspectable")
    then with_reply h (send_text (doctype ++ introspect 0 o h)) (create_reply msg)
    else if same_text name (codes "org.freedesktop.DBus.Peer")
    then handle_peer machine_id msg h
    else if same_text name (codes "org.freedesktop.DBus.Properties")
    then handle_properties offset_first msg o h
    else handle_others name msg o h

-- Object::handle_message
unfoldable pub handle_message : Bool → Option (List ℕ) → Message → Object → Heap → Handled
handle_message offset_first machine_id msg o h =
    if not o.connected
    then ok (not_handled, [], h)
    else if not (is_call msg.kind)
    then ok (not_handled, [], h)
    else and_then (interface_name msg) (dispatched offset_first machine_id msg o h)

abbrev pub without_heap : Handled → Sent
without_heap o = and_then {B = HandlerResult × List Message} o (λ p. ok (p.0, p.1))

-- The objects of a connection, by their numbers.
abbrev pub object_handler : Bool → Option (List ℕ) → (ℕ → Object) → Heap → ℕ → Message → Sent
object_handler offset_first machine_id objects h n msg =
    without_heap (handle_message offset_first machine_id msg (objects n) h)
