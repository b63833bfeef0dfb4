-- ===== src/Objects/Once.antt =====
-- What an object sends while it handles a call: one answer, or none where an error is due
-- (dbus-cxx/object.cpp, interface.cpp and methodbase.h).
use dbus_cxx.Common.{
  ℕ, ◌<◌, ◌^◌, ◌≡◌, ◌⊎◌, inl, inr, refl, ap, ◌∙◌, List, [], ◌∷◌, ◌++◌, Option, some, none, Bool,
  Bool-cases, true, false, not, if◌then◌else◌, codes, same_text, find_text,
}
use dbus_cxx.Header.{MessageType, return, error, call}
use dbus_cxx.Message.{Message, sender}
use dbus_cxx.Validator.{validate_bus_name}
use dbus_cxx.Wire.Reader.{Outcome, ok, and_then}
use dbus_cxx.Connection.{reply_serial}
use dbus_cxx.Kinds
use dbus_cxx.Kinds.CallMessage.{
  create_reply, create_error_reply, expects_reply, interface_name, member,
}
use dbus_cxx.Kinds.Replies.{addressed, answered-answer, reply_serial-addressed}
use dbus_cxx.Kinds.Errors.{whole, create_error-whole, reply_serial-whole}
use dbus_cxx.Objects.{
  handled, not_handled, invalid_interface, invalid_method, Called, returned, invalid_typecast,
  std_exception, other_exception, Method, Object, Heap,
}
use dbus_cxx.Objects.Introspection.{introspect, doctype}
use dbus_cxx.Objects.Handling.{
  Sent, Handled, called, send_error, call_method, handle_call_message, handle_peer, handle_others,
  handle_message, chosen, call_found, call_chosen, unchanged, with_ping, send_machine_id,
  without_heap, dispatched, is_call, with_reply, send_text,
}
use dbus_cxx.Objects.Paths.{send_error_on_handler_result}
use dbus_cxx.Objects.Answers.{IsAnswer, appended-IsAnswer, explained-IsAnswer}

-- A valid call with a serial below 2 ^ 32 that a bus name sent, with the texts of its fields.
abbrev pub IsCall : Message → List ℕ → List ℕ → List ℕ → List ℕ → Type 0
IsCall msg from path name method =
    (msg.kind ≡ call)
    × (msg.valid ≡ true)
    × (msg.serial < 2 ^ 32)
    × (sender msg ≡ ok from)
    × (validate_bus_name from ≡ true)
    × (Kinds.path msg ≡ ok path)
    × (interface_name msg ≡ ok name)
    × (member msg ≡ ok method)

-- The slot of a method leaves the serial that the reply answers as it is.
abbrev pub KeepsSerial : Message → Method → Type 0
KeepsSerial msg m =
    (reply r : Message)
    → m.extract_and_call msg reply ≡ returned r
    → reply_serial r ≡ reply_serial reply

-- One answer has been sent, or none and an error is due.
abbrev pub Once : Message → Heap → Handled → Type 0
Once msg h o =
    ((r : Message) × (o ≡ ok (handled, r ∷ [], h)) × IsAnswer msg r)
    ⊎ (o ≡ ok (invalid_interface, [], h))
    ⊎ (o ≡ ok (invalid_method, [], h))

abbrev Answered : Message → Sent → Type 0
Answered msg o = (r : Message) × (o ≡ ok (handled, r ∷ [])) × IsAnswer msg r

send_error-Answered :
    (msg : Message) (n text : List ℕ) → msg.serial < 2 ^ 32 → Answered msg (send_error n text msg)
send_error-Answered msg n text small = (
  whole msg.serial n text,
  ap (λ (o : Outcome Message). and_then o (λ e. ok (handled, e ∷ [])))
      (create_error-whole msg n text),
  reply_serial-whole msg.serial n text small,
)

called-Answered :
    (msg : Message) (c : Called)
    → msg.serial < 2 ^ 32
    → ((r : Message) → c ≡ returned r → IsAnswer msg r)
    → Answered msg (called msg c)
called-Answered msg (returned r) small keeps = (r, refl, keeps r refl)
called-Answered msg (invalid_typecast what) small keeps = send_error-Answered msg _ what small
called-Answered msg (std_exception what) small keeps = send_error-Answered msg _ what small
called-Answered msg (other_exception version) small keeps = send_error-Answered msg _ _ small

module _ (msg : Message) (from path name method : List ℕ)
    (is : IsCall msg from path name method) where
  reply : Message
  reply = record (addressed return msg.serial from) { valid = not (expects_reply msg) }

  error_reply : Message
  error_reply = record (addressed error msg.serial from) { valid = not (expects_reply msg) }

  create_reply-reply : create_reply msg ≡ ok (some reply)
  unfolding create_reply reply
  create_reply-reply = answered-answer return msg from is.1 is.3 is.4

  create_error_reply-reply : create_error_reply msg ≡ ok (some error_reply)
  unfolding create_error_reply error_reply
  create_error_reply-reply = answered-answer error msg from is.1 is.3 is.4

  reply-IsAnswer : IsAnswer msg reply
  unfolding reply reply_serial dbus_cxx.Message.set_header_field
  reply-IsAnswer = reply_serial-addressed return msg.serial from is.2

  call_method-Answered : (m : Method) → KeepsSerial msg m → Answered msg (call_method msg m)
  unfolding call_method
  call_method-Answered m keeps = rw create_reply-reply (
      called-Answered msg (m.extract_and_call msg reply) is.2
        (λ r e. keeps reply r e ∙ reply-IsAnswer))

  call_found-Once :
      (h : Heap) (f : Option Method)
      → ((m : Method) → f ≡ some m → KeepsSerial msg m)
      → Once msg h (unchanged h (call_found msg f))
  call_found-Once h none keeps = inr (inr refl)
  call_found-Once h (some m) keeps =
      let a = call_method-Answered m (keeps m refl) in inl (a.0, rw a.1 refl, a.2)

  call_chosen-Once :
      (h : Heap) (c : Option ℕ)
      → ((n : ℕ) (m : Method) → find_text method (h n).methods ≡ some m → KeepsSerial msg m)
      → Once msg h (call_chosen msg h c)
  unfolding handle_call_message
  call_chosen-Once h none keeps = inr (inl refl)
  call_chosen-Once h (some n) keeps =
      rw is.7 (call_found-Once h (find_text method (h n).methods) (keeps n))

  send_text-Once :
      (h : Heap) (text : List ℕ) → Once msg h (with_reply h (send_text text) (create_reply msg))
  unfolding reply
  send_text-Once h text =
      let a = appended-IsAnswer msg from text (not (expects_reply msg)) is.2 in
      inl (a.0, rw (create_reply-reply, a.1) refl, a.2)

  ping-Once : (h : Heap) → Once msg h (with_ping h (create_reply msg))
  ping-Once h = inl (reply, rw create_reply-reply refl, reply-IsAnswer)

  machine_id-Once :
      (machine_id : Option (List ℕ)) (h : Heap) → Once msg h (send_machine_id machine_id msg h)
  unfolding error_reply reply
  machine_id-Once none h =
      let a =
        explained-IsAnswer msg from (codes "org.freedesktop.DBus.Error.IOError")
          (codes "Unable to read DBus machine ID file") (not (expects_reply msg)) is.2 in
      inl (a.0, rw (create_error_reply-reply, a.1) refl, a.2)
  machine_id-Once (some line) h =
      let a = appended-IsAnswer msg from line (not (expects_reply msg)) is.2 in
      inl (a.0, rw (create_reply-reply, a.1) refl, a.2)

  handle_peer-Once :
      (machine_id : Option (List ℕ)) (h : Heap) → Once msg h (handle_peer machine_id msg h)
  unfolding handle_peer
  handle_peer-Once machine_id h = elim (Bool-cases (same_text method (codes "Ping"))) [
    | inl e ↦ rw (is.7, e) (ping-Once h)
    | inr e ↦ elim (Bool-cases (same_text method (codes "GetMachineId"))) [
      | inl f ↦ rw (is.7, e, f) (machine_id-Once machine_id h)
      | inr f ↦ inr (inr (rw (is.7, e, f) refl))
    ]
  ]

  pub dispatched-Once :
      (offset_first : Bool) (machine_id : Option (List ℕ)) (o : Object) (h : Heap)
      → same_text name (codes "org.freedesktop.DBus.Properties") ≡ false
      → ((n : ℕ) (m : Method) → find_text method (h n).methods ≡ some m → KeepsSerial msg m)
      → Once msg h (dispatched offset_first machine_id msg o h name)
  unfolding handle_others
  dispatched-Once offset_first machine_id o h other keeps =
      elim (Bool-cases (same_text name (codes "org.freedesktop.DBus.Introspectable"))) [
        | inl e ↦ rw e (send_text-Once h (doctype ++ introspect 0 o h))
        | inr e ↦ elim (Bool-cases (same_text name (codes "org.freedesktop.DBus.Peer"))) [
          | inl f ↦ rw (e, f) (handle_peer-Once machine_id h)
          | inr f ↦ rw (e, f, other) (call_chosen-Once h (chosen name o) keeps)
        ]
      ]

  pub handle_message-dispatched :
      (offset_first : Bool) (machine_id : Option (List ℕ)) (o : Object) (h : Heap)
      → o.connected ≡ true
      → handle_message offset_first machine_id msg o h
        ≡ dispatched offset_first machine_id msg o h name
  unfolding handle_message
  handle_message-dispatched offset_first machine_id o h conn =
      let by_name : Outcome (List ℕ) → Handled =
        λ t. and_then t (dispatched offset_first machine_id msg o h) in
      ap
        (λ (b : Bool).
          if not b
          then ok (not_handled, [], h)
          else if not (is_call msg.kind)
          then ok (not_handled, [], h)
          else by_name (interface_name msg))
        conn
      ∙ ap
          (λ (k : MessageType).
            if not (is_call k) then ok (not_handled, [], h) else by_name (interface_name msg))
          is.0
      ∙ ap by_name is.6

  -- What is sent in the dispatching thread, where the object has sent one answer or an error is due.
  abbrev pub here : Handled → Outcome (List Message)
  here o =
      and_then (without_heap o)
        (λ p. and_then (send_error_on_handler_result msg p.0) (λ errors. ok (p.1 ++ errors)))

  pub here-IsAnswer :
      (h : Heap) (o : Handled)
      → Once msg h o
      → (r : Message) × (here o ≡ ok (r ∷ [])) × IsAnswer msg r
  unfolding send_error_on_handler_result error_reply
  here-IsAnswer h o (inl (r, e, a)) = (r, rw e refl, a)
  here-IsAnswer h o (inr (inl e)) =
      let a =
        explained-IsAnswer msg from (codes "org.freedesktop.DBus.Error.UnknownInterface")
          (codes "dbus-cxx: unable to find interface named " ++ name) (not (expects_reply msg))
          is.2 in
      (a.0, rw (e, create_error_reply-reply, is.6, a.1) refl, a.2)
  here-IsAnswer h o (inr (inr e)) =
      let a =
        explained-IsAnswer msg from (codes "org.freedesktop.DBus.Error.UnknownMethod")
          (codes "dbus-cxx: unable to find method named "
            ++ method
            ++ codes " on interface "
            ++ name)
          (not (expects_reply msg)) is.2 in
      (a.0, rw (e, create_error_reply-reply, is.7, is.6, a.1) refl, a.2)
