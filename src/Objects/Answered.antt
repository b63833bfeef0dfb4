-- ===== src/Objects/Answered.antt =====
-- Every call that reaches an object is answered once (dbus-cxx/connection.cpp, object.cpp, interface.cpp
-- and methodbase.h).
use dbus_cxx.Common.{
  ℕ, ◌≡◌, refl, ap, ◌∙◌, List, Option, some, Bool, true, false, ◌==◌, ==_iff, codes, find_text,
}
use dbus_cxx.Message.{Message}
use dbus_cxx.Wire.Reader.{Outcome, ok, raise, and_then}
use dbus_cxx.Arguments.{MessageIterator, iterator_of, is_text, arg_type}
use dbus_cxx.Objects.Properties.{extract_text}
use dbus_cxx.Objects.{Object, Heap}
use dbus_cxx.Objects.Handling.{handle_properties, object_handler}
use dbus_cxx.Objects.Paths.{
  Paths, PathHandlingEntry, handle_here, handle_entry, process_call_message,
}
use dbus_cxx.Objects.Once.{IsCall, handle_message-dispatched}

-- A call of the interface of properties whose first argument is no text, or that has none,
-- makes process_call_message throw, where an object with a connection is registered for its
-- path and the dispatching thread handles it: nothing is answered.
pub process_call_message-raise :
    (msg : Message) (from path name method : List ℕ) (offset_first : Bool)
    (machine_id : Option (List ℕ)) (objects : ℕ → Object) (h : Heap) (c : Paths)
    (entry : PathHandlingEntry) (it : MessageIterator)
    → IsCall msg from path name method
    → name ≡ codes "org.freedesktop.DBus.Properties"
    → find_text path c.path_handler ≡ some entry
    → entry.handling_thread ≡ c.dispatching_thread
    → (objects entry.handler).connected ≡ true
    → iterator_of msg ≡ ok it
    → is_text (arg_type it) ≡ false
    → process_call_message (object_handler offset_first machine_id objects h) msg c ≡ raise
unfolding process_call_message handle_here handle_properties extract_text
process_call_message-raise msg from path name method offset_first machine_id objects h c entry it is
      properties at_path same conn args text =
    let o : Object = objects entry.handler in
    let reached =
      handle_message-dispatched msg from path name method is offset_first machine_id o h conn in
    let local : (entry.handling_thread == c.dispatching_thread) ≡ true =
      (==_iff entry.handling_thread c.dispatching_thread).1 same in
    let to_entry : Option PathHandlingEntry → Outcome (List Message × Paths) =
      handle_entry (object_handler offset_first machine_id objects h) msg c in
    ap (λ (t : Outcome (List ℕ)). and_then t (λ p. to_entry (find_text p c.path_handler))) is.5
    ∙ ap to_entry at_path
    ∙ rw (local, reached, properties, args, text) refl
