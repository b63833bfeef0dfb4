-- ===== src/Kinds.antt =====
-- What the four classes of messages share: the fields of dbus-cxx/callmessage.cpp, signalmessage.cpp,
-- returnmessage.cpp and errormessage.cpp over the class Message.
pub mod CallMessage
pub mod SignalMessage
pub mod ErrorMessage
pub mod Replies
pub mod Errors
mod Examples
use dbus_cxx.Common.{ℕ, List, [], if◌then◌else◌}
use dbus_cxx.Types.{object_path, same_type}
use dbus_cxx.Header.{MessageHeaderFields, path_field, reply_serial_field}
use dbus_cxx.Message.{Message, header_field, set_header_field}
use dbus_cxx.Wire.Reader.{Outcome, ok}
use dbus_cxx.Wire.Variant.{Value, variant_of, uint32_value}
use dbus_cxx.Wire.Variant.Conversions.{to_path}

abbrev pub with_field : MessageHeaderFields → Value → Message → Message
with_field f v msg = (set_header_field f (variant_of v) msg).0

-- The path of a call or a signal: the empty text where the field is no object path.
unfoldable pub path : Message → Outcome (List ℕ)
path msg =
    if same_type (header_field path_field msg).current_type object_path
    then to_path (header_field path_field msg)
    else ok []

-- ReturnMessage::set_reply_serial and ErrorMessage::set_reply_serial, which return false.
unfoldable pub set_reply_serial : ℕ → Message → Message
set_reply_serial s msg = with_field reply_serial_field (uint32_value s) msg
