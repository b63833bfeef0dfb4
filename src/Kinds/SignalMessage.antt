-- ===== src/Kinds/SignalMessage.antt =====
-- The class SignalMessage of dbus-cxx/signalmessage.cpp.
use dbus_cxx.Common.{ℕ, List, Bool, true, false, not, if◌then◌else◌}
use dbus_cxx.Header.{signal, path_field, interface_field, member_field}
use dbus_cxx.Message
use dbus_cxx.Message.{Message, text_field}
use dbus_cxx.Validator.{validate_interface_name}
use dbus_cxx.Wire.Reader.{Outcome}
use dbus_cxx.Wire.Variant.{string_value, path_value}
use dbus_cxx.Kinds.{with_field}

unfoldable pub set_path : List ℕ → Message → Message × Bool
set_path p msg = (with_field path_field (path_value p) msg, true)

unfoldable pub set_interface : List ℕ → Message → Message × Bool
set_interface i msg =
    if not (validate_interface_name i)
    then (msg, false)
    else (with_field interface_field (string_value i) msg, true)

unfoldable pub interface_name : Message → Outcome (List ℕ)
interface_name msg = text_field interface_field msg

unfoldable pub set_member : List ℕ → Message → Message × Bool
set_member m msg = (with_field member_field (string_value m) msg, true)

unfoldable pub member : Message → Outcome (List ℕ)
member msg = text_field member_field msg

unfoldable pub create_signal : List ℕ → List ℕ → List ℕ → Message
create_signal p i n = (set_member n (set_interface i (set_path p (Message.create signal)).0).0).0
