-- ===== src/Types/Tests.antt =====
-- Runs of the conversions.
use dbus_cxx.Common.{◌≡◌, refl}
use dbus_cxx.Types.{char_to_dbus_type, struct, invalid}

open_paren_is_struct : char_to_dbus_type b'(' ≡ struct
unfolding char_to_dbus_type
open_paren_is_struct = refl

blank_is_invalid : char_to_dbus_type b' ' ≡ invalid
unfolding char_to_dbus_type
blank_is_invalid = refl
