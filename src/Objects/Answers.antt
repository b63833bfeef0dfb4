-- ===== src/Objects/Answers.antt =====
-- The messages that answer a call (dbus-cxx/callmessage.cpp, errormessage.cpp and connection.cpp).
use dbus_cxx.Common.{ℕ, ◌<◌, ◌^◌, ◌≡◌, refl, List, [], Bool, true, false}
use dbus_cxx.Header.{return, error, header_field_to_int}
use dbus_cxx.Message
use dbus_cxx.Message.{
  Message, header_field, set_header_field, sender, clear_sig_and_data, erase, find, insert,
}
use dbus_cxx.Wire.Reader.{ok}
use dbus_cxx.Wire.Variant.{variant_of, string_value}
use dbus_cxx.Wire.Variants.{to_uint32-variant_of}
use dbus_cxx.Arguments.{append}
use dbus_cxx.Arguments.Fields.{appended}
use dbus_cxx.Connection.{reply_serial}
use dbus_cxx.Kinds.{set_reply_serial}
use dbus_cxx.Kinds.Replies.{addressed}
use dbus_cxx.Kinds.ErrorMessage.{set_name, set_message}

-- The call `msg` is answered by `m`.
abbrev pub IsAnswer : Message → Message → Type 0
IsAnswer msg m = reply_serial m ≡ ok msg.serial

-- A reply with a text, valid or not.
pub appended-IsAnswer :
    (msg : Message) (s text : List ℕ) (b : Bool)
    → msg.serial < 2 ^ 32
    → (m : Message) × (append
          (string_value text)
          (record (addressed return msg.serial s) { valid = b })
        ≡ ok m)
      × IsAnswer msg m
unfolding append set_header_field set_reply_serial Message.create header_field find insert
    header_field_to_int reply_serial variant_of
appended-IsAnswer msg s text true small = (
  _,
  appended (string_value text) (record (addressed return msg.serial s) { valid = true }) [] tt refl
      refl,
  to_uint32-variant_of msg.serial small,
)
appended-IsAnswer msg s text false small = (_, refl, to_uint32-variant_of msg.serial small)

-- An error with a name and a text, valid or not.
pub explained-IsAnswer :
    (msg : Message) (s n text : List ℕ) (b : Bool)
    → msg.serial < 2 ^ 32
    → (m : Message) × (set_message text
          (set_name n (record (addressed error msg.serial s) { valid = b }))
        ≡ ok m)
      × IsAnswer msg m
unfolding append set_header_field set_reply_serial Message.create header_field find insert
    header_field_to_int reply_serial variant_of set_message set_name clear_sig_and_data erase
explained-IsAnswer msg s n text true small = (
  _,
  appended (string_value text)
      (clear_sig_and_data (set_name n (record (addressed error msg.serial s) { valid = true }))) []
      tt refl refl,
  to_uint32-variant_of msg.serial small,
)
explained-IsAnswer msg s n text false small = (_, refl, to_uint32-variant_of msg.serial small)
