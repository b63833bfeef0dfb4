-- ===== src/Types/Codes.antt =====
-- The codes of the D-Bus types (dbus-cxx/types.h and types.cpp).
use dbus_cxx.Common.{◌≡◌, ◌≢◌, ◌⊎◌, arith}
use dbus_cxx.Types.{DataType, invalid, struct, dict_entry, char_to_dbus_type, to_dbus_char}

-- Every type but the invalid one, struct and dict_entry is read back from the character that it
-- is written as, and those three are written as the null character.
pub char_to_dbus_type-to_dbus_char :
    (t : DataType)
    → ((to_dbus_char t ≢ 0) × (char_to_dbus_type (to_dbus_char t) ≡ t))
      ⊎ ((to_dbus_char t ≡ 0) × ((t ≡ invalid) ⊎ (t ≡ struct) ⊎ (t ≡ dict_entry)))
unfolding char_to_dbus_type to_dbus_char
char_to_dbus_type-to_dbus_char t = ground arith
