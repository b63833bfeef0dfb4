-- ===== src/Kinds/CallMessage.antt =====
-- The class CallMessage of dbus-cxx/callmessage.cpp.
use dbus_cxx.Common.{ℕ, List, Option, some, none, Bool, not, ◌==◌, if◌then◌else◌}
use Prim.Native.Nat.{bit_and, bit_or}
use dbus_cxx.Header.{MessageType, call, return, error, path_field, interface_field, member_field}
use dbus_cxx.Message
use dbus_cxx.Message.{Message, text_field, set_destination, sender, invalidate}
use dbus_cxx.Wire.Reader.{Outcome, ok, and_then}
use dbus_cxx.Wire.Variant.{string_value, path_value}
use dbus_cxx.Kinds.{with_field, set_reply_serial}

unfoldable pub set_path : List ℕ → Message → Message
set_path p msg = with_field path_field (path_value p) msg

unfoldable pub set_interface : List ℕ → Message → Message
set_interface i msg = with_field interface_field (string_value i) msg

unfoldable pub interface_name : Message → Outcome (List ℕ)
interface_name msg = text_field interface_field msg

unfoldable pub set_member : List ℕ → Message → Message
set_member m msg = with_field member_field (string_value m) msg

unfoldable pub member : Message → Outcome (List ℕ)
member msg = text_field member_field msg

-- The constructors; with a destination, it is set last.
unfoldable pub create_call : List ℕ → List ℕ → List ℕ → List ℕ → Message
create_call dest p iface method =
    (set_destination dest
      (set_member method (set_interface iface (set_path p (Message.create call))))).0

-- DBUSCXX_MESSAGE_NO_REPLY_EXPECTED
abbrev pub no_reply_expected : ℕ
no_reply_expected = 0x01

unfoldable pub set_no_reply : Bool → Message → Message
set_no_reply no_reply msg =
    if no_reply
    then record msg { flags = bit_or msg.flags no_reply_expected }
    else record msg { flags = bit_and msg.flags 0xfe }

unfoldable pub expects_reply : Message → Bool
expects_reply msg = not (bit_and msg.flags no_reply_expected == 0)

-- The answer of a kind: it is invalid where the call expects none.
abbrev pub answer : MessageType → Message → List ℕ → Message
answer kind msg from =
    let to = (set_destination from (set_reply_serial msg.serial (Message.create kind))).0 in
    if not (bit_and msg.flags no_reply_expected == 0) then invalidate to else to

abbrev pub answered : MessageType → Message → Outcome (Option Message)
answered kind msg =
    if not msg.valid
    then ok none
    else and_then (sender msg) (λ from. ok (some (answer kind msg from)))

unfoldable pub create_reply : Message → Outcome (Option Message)
create_reply msg = answered return msg

unfoldable pub create_error_reply : Message → Outcome (Option Message)
create_error_reply msg = answered error msg
