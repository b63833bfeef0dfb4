-- ===== src/Objects/Paths.antt =====
-- The objects that a connection has and the thread that handles each, and where a call goes
-- (dbus-cxx/connection.cpp). An object is named by its number; threads are numbers.
use dbus_cxx.Common.{
  ℕ, List, [], ◌∷◌, ◌++◌, Option, none, some, Bool, true, false, not, ◌==◌, if◌then◌else◌, codes,
  find_text, assign_text, erase_text,
}
use dbus_cxx.Message.{Message}
use dbus_cxx.Wire.Reader.{Outcome, ok, fault, and_then}
use dbus_cxx.Kinds
use dbus_cxx.Kinds.CallMessage.{create_error_reply, member, interface_name}
use dbus_cxx.Kinds.ErrorMessage.{create_error, set_name, set_message}
use dbus_cxx.Objects.{
  HandlerResult, handled, invalid_interface, invalid_method, invalid_path, not_handled,
}
use dbus_cxx.Objects.Handling.{failed}

pub record PathHandlingEntry : Type 0 where
  pub handler : ℕ
  pub handling_thread : ℕ

-- A thread has a dispatcher that is there or has expired. `handed_over` are the calls that the
-- dispatchers of other threads were given.
pub record Paths : Type 0 where
  pub path_handler : List (List ℕ × PathHandlingEntry)
  pub thread_dispatchers : List (ℕ × Bool)
  pub dispatching_thread : ℕ
  pub handed_over : List (ℕ × ℕ × Message)

pub data RegistrationStatus : Type 0 where
  success failed_path_in_use : RegistrationStatus

abbrev pub register_where :
    Bool → ℕ → List ℕ → ℕ → Paths → Option PathHandlingEntry → Paths × RegistrationStatus
register_where in_dispatcher current_thread path object c (some _) = (c, failed_path_in_use)
register_where in_dispatcher current_thread path object c none = (
  record c {
    path_handler =
        assign_text path
          (record {
            handler = object;
            handling_thread = if in_dispatcher then c.dispatching_thread else current_thread;
          })
          c.path_handler;
  },
  success,
)

-- The part of `register_object` before the object's set_connection: the entry of the path.
unfoldable pub register_path :
    (in_dispatcher : Bool) → (current_thread : ℕ) → List ℕ → ℕ → Paths → Paths × RegistrationStatus
register_path in_dispatcher current_thread path object c =
    register_where in_dispatcher current_thread path object c (find_text path c.path_handler)

abbrev pub change_where : Bool → ℕ → List ℕ → Paths → Option PathHandlingEntry → Paths × Bool
change_where in_dispatcher current_thread path c none = (c, false)
change_where in_dispatcher current_thread path c (some entry) = (
  record c {
    path_handler =
        assign_text path
          (record entry {
            handling_thread = if in_dispatcher then c.dispatching_thread else current_thread;
          })
          c.path_handler;
  },
  true,
)

unfoldable pub change_object_calling_thread : Bool → ℕ → List ℕ → Paths → Paths × Bool
change_object_calling_thread in_dispatcher current_thread path c =
    change_where in_dispatcher current_thread path c (find_text path c.path_handler)

abbrev pub unregister_where : List ℕ → Paths → Option PathHandlingEntry → Paths × Bool
unregister_where path c none = (c, false)
unregister_where path c (some _) =
    (record c { path_handler = erase_text path c.path_handler }, true)

unfoldable pub unregister_object : List ℕ → Paths → Paths × Bool
unregister_object path c = unregister_where path c (find_text path c.path_handler)

-- `m_threadDispatchers[ thread ].lock()`
abbrev is_there : ℕ → List (ℕ × Bool) → Bool
is_there t [] = false
is_there t ((k, alive) ∷ rest) = let more = is_there t rest in if k == t then alive else more

abbrev pub alive_only : List (ℕ × Bool) → List (ℕ × Bool)
alive_only [] = []
alive_only ((k, alive) ∷ rest) =
    let more = alive_only rest in if alive then (k, alive) ∷ more else more

-- The entry of a thread that has expired, or of `t`, which has just been looked up in vain.
abbrev pub is_invalid_thread : ℕ → List (ℕ × Bool) → ℕ → Bool
is_invalid_thread t [] k = t == k
is_invalid_thread t ((k, alive) ∷ rest) n =
    let more = is_invalid_thread t rest n in if k == n then not alive else more

abbrev pub kept_entries :
    (ℕ → Bool) → List (List ℕ × PathHandlingEntry) → List (List ℕ × PathHandlingEntry)
kept_entries invalid [] = []
kept_entries invalid ((p, e) ∷ rest) =
    let more = kept_entries invalid rest in
    if invalid e.handling_thread then more else (p, e) ∷ more

-- What is left where the dispatcher of the thread `t` is not there.
unfoldable pub remove_invalid_threaddispatchers : ℕ → Paths → Paths
remove_invalid_threaddispatchers t c = record c {
  thread_dispatchers = alive_only c.thread_dispatchers;
  path_handler = kept_entries (is_invalid_thread t c.thread_dispatchers) c.path_handler;
}

abbrev error_with : List ℕ → List ℕ → Message → Outcome Message
error_with name text e = set_message text (set_name name e)

abbrev explained : HandlerResult → Message → Message → Outcome Message
explained invalid_path msg e =
    and_then (Kinds.path msg)
      (λ p. error_with failed (codes "dbus-cxx: could not find path " ++ p) e)
explained invalid_method msg e = and_then (member msg) (λ m. and_then (interface_name msg) (λ i.
    error_with (codes "org.freedesktop.DBus.Error.UnknownMethod")
      (codes "dbus-cxx: unable to find method named " ++ m ++ codes " on interface " ++ i) e))
explained invalid_interface msg e = and_then (interface_name msg) (λ i.
    error_with (codes "org.freedesktop.DBus.Error.UnknownInterface")
      (codes "dbus-cxx: unable to find interface named " ++ i) e)
explained _ msg e = ok e

abbrev pub is_handled : HandlerResult → Bool
is_handled handled = true
is_handled _ = false

-- The error that is sent, if one is; a default switch leaves an error with no name.
unfoldable pub send_error_on_handler_result : Message → HandlerResult → Outcome (List Message)
send_error_on_handler_result msg result =
    if is_handled result
    then ok []
    else and_then (create_error_reply msg) (λ r. elim r [
      | none ↦ elim result [ not_handled ↦ ok [] | _ ↦ fault ]
      | some e ↦ and_then (explained result msg e) (λ m. ok (m ∷ []))
    ])

abbrev no_path : Message → Paths → Outcome (List Message × Paths)
no_path msg c =
    and_then (create_error (some msg) failed (codes "Could not find given path"))
      (λ e. ok (e ∷ [], c))

module _ (handle_message : ℕ → Message → Outcome (HandlerResult × List Message)) where
  -- A call in the dispatching thread: what is sent, in order.
  unfoldable pub handle_here : ℕ → Message → Outcome (List Message)
  handle_here object msg =
      and_then (handle_message object msg)
        (λ p. and_then (send_error_on_handler_result msg p.0) (λ errors. ok (p.1 ++ errors)))

  -- A call of a path by its entry.
  abbrev pub handle_entry :
      Message → Paths → Option PathHandlingEntry → Outcome (List Message × Paths)
  handle_entry msg c none = no_path msg c
  handle_entry msg c (some entry) =
      if entry.handling_thread == c.dispatching_thread
      then and_then (handle_here entry.handler msg) (λ sent. ok (sent, c))
      else if is_there entry.handling_thread c.thread_dispatchers
      then ok (
        [],
        record c {
          handed_over = c.handed_over ++ ((entry.handling_thread, entry.handler, msg) ∷ []);
        },
      )
      else no_path msg (remove_invalid_threaddispatchers entry.handling_thread c)

  unfoldable pub process_call_message : Message → Paths → Outcome (List Message × Paths)
  process_call_message msg c =
      and_then (Kinds.path msg) (λ path. handle_entry msg c (find_text path c.path_handler))
