-- ===== src/Connection.antt =====
-- The class Connection of dbus-cxx/connection.cpp: the serials, the queues of messages and the
-- replies that threads wait for. `written` is what the transport was handed. The handlers of calls
-- and signals are parameters.
pub mod Queue
pub mod Replies
mod Examples
use dbus_cxx.Common.{
  ℕ, ◌+◌, ◌^◌, List, [], ◌∷◌, ◌++◌, Option, some, none, Bool, true, false, not, ◌&&◌, ◌==◌,
  if◌then◌else◌,
}
use dbus_cxx.Header.{MessageType, call, return, error, signal, invalid_message, reply_serial_field}
use dbus_cxx.Message.{Message, header_field}
use dbus_cxx.Wire.Words.{u32}
use dbus_cxx.Wire.Reader.{Outcome, ok, abort, fault, raise, stuck}
use dbus_cxx.Wire.Variant.{is_uint32_type, to_uint32}

pub record OutgoingMessage : Type 0 where
  pub msg : Message
  pub serial : ℕ

pub data DispatchStatus : Type 0 where
  data_remains : DispatchStatus
  complete : DispatchStatus
  need_memory : DispatchStatus

-- `valid` says that there is a transport, and that it is valid. A reply is `none` until it comes.
pub record Connection : Type 0 where
  pub valid : Bool
  pub current_serial : ℕ
  pub incoming : List Message
  pub outgoing : List OutgoingMessage
  pub expecting : List (ℕ × Option Message)
  pub status : DispatchStatus
  pub written : List OutgoingMessage

-- `m_currentSerial` is passed over where it is 0.
abbrev pub usable_serial : ℕ → ℕ
usable_serial n = if n == 0 then 1 else n

-- The message is queued with `m_currentSerial++`.
abbrev pub queued : Message → ℕ → Connection → Connection
queued m n c = record c {
  outgoing = c.outgoing ++ (record { msg = m; serial = n } ∷ []);
  current_serial = u32 (n + 1);
}

-- `send` from a thread that is not the dispatching one: that one is notified.
unfoldable pub send : Option Message → Connection → Outcome (ℕ × Connection)
send msg c = if not c.valid then raise else elim msg [
  | none ↦ ok (0, c)
  | some m ↦ ok (
    usable_serial c.current_serial,
    record (queued m (usable_serial c.current_serial) c) { status = data_remains },
  )
]

unfoldable pub write_all : List OutgoingMessage → Connection → Connection
write_all [] c = record c { outgoing = [] }
write_all (o ∷ os) c = write_all os (record c { written = c.written ++ (o ∷ []) })

unfoldable pub flush : Connection → Connection
flush c = if not c.valid then c else write_all c.outgoing c

-- `m_expectingResponses.find`, and the assignment of a reply to the entry.
unfoldable pub find_response : ℕ → List (ℕ × Option Message) → Option (Option Message)
find_response n [] = none
find_response n ((k, reply) ∷ rest) = if k == n then some reply else find_response n rest

unfoldable pub set_response : ℕ → Message → List (ℕ × Option Message) → List (ℕ × Option Message)
set_response n m [] = []
set_response n m ((k, reply) ∷ rest) =
    if k == n then (k, some m) ∷ rest else (k, reply) ∷ set_response n m rest

-- `m_expectingResponses[ serial ] = ex`, with no reply yet.
unfoldable pub expect : ℕ → List (ℕ × Option Message) → List (ℕ × Option Message)
expect n [] = (n, none) ∷ []
expect n ((k, reply) ∷ rest) = if k == n then (k, none) ∷ rest else (k, reply) ∷ expect n rest

-- What send_with_reply_blocking does before it waits, in a thread that is not the dispatching one.
-- The serial is not tested for 0.
unfoldable pub begin_blocking_call : Message → Connection → Outcome (ℕ × Connection)
begin_blocking_call m c =
    if not c.valid
    then raise
    else ok (
      c.current_serial,
      record (queued m c.current_serial c) {
        expecting = expect c.current_serial c.expecting;
        status = data_remains;
      },
    )

-- ReturnMessage::reply_serial and ErrorMessage::reply_serial.
unfoldable pub reply_serial : Message → Outcome ℕ
reply_serial m =
    if is_uint32_type (header_field reply_serial_field m).current_type
    then to_uint32 (header_field reply_serial_field m)
    else ok 0

abbrev pub is_reply : MessageType → Bool
is_reply return = true
is_reply error = true
is_reply _ = false

-- A reply that a thread waits for is put where it looks; others are logged and dropped.
abbrev pub answer : Outcome ℕ → Message → Connection → Outcome Connection
answer (ok n) m c = ok (elim (find_response n c.expecting) [
  | none ↦ c
  | some _ ↦ record c { expecting = set_response n m c.expecting }
])
answer abort m c = abort
answer fault m c = fault
answer raise m c = raise
answer stuck m c = stuck

module _ (process_call_message process_signal_message : Message → Connection → Connection) where
  abbrev pub handle : MessageType → Message → Connection → Connection
  handle call m c = process_call_message m c
  handle signal m c = process_signal_message m c
  handle _ m c = c

  -- One message that has been taken from the queue.
  abbrev pub process : Message → Connection → Outcome Connection
  process m c = if is_reply m.kind then answer (reply_serial m) m c else ok (handle m.kind m c)

  unfoldable pub process_single_message : Connection → Outcome Connection
  process_single_message c = elim c.incoming [
    | [] ↦ ok c
    | m ∷ ms ↦ process m (record c { incoming = ms })
  ]

  abbrev pub nothing_left : Connection → Bool
  nothing_left c = elim c.outgoing [
    | [] ↦ elim c.incoming [ [] ↦ true | _ ∷ _ ↦ false ]
    | _ ∷ _ ↦ false
  ]

  abbrev pub settled : Outcome Connection → Outcome Connection
  settled (ok c) = ok (record c { status = if nothing_left c then complete else data_remains })
  settled abort = abort
  settled fault = fault
  settled raise = raise
  settled stuck = stuck

  abbrev pub received : Option Message → Connection → Connection
  received none c = c
  received (some m) c = record c { incoming = c.incoming ++ (m ∷ []) }

  -- `dispatch`: whether the dispatching thread calls it, and what readMessage returns.
  unfoldable pub dispatch : Bool → Option Message → Connection → Outcome Connection
  dispatch in_dispatching_thread read c =
      if not in_dispatching_thread
      then raise
      else if not c.valid
      then ok (record c { status = complete })
      else settled (process_single_message (received read (flush c)))
