-- ===== src/Kinds/ErrorMessage.antt =====
-- The class ErrorMessage of dbus-cxx/errormessage.cpp. A class of exceptions is named by a constructor.
use dbus_cxx.Common.{ℕ, List, [], ◌∷◌, Option, some, none, Bool, if◌then◌else◌, codes}
use dbus_cxx.Types.{string, signature, same_type}
use dbus_cxx.Header.{error, error_name_field, reply_serial_field, signature_field}
use dbus_cxx.Message
use dbus_cxx.Message.{Message, header_field, text_field, clear_sig_and_data}
use dbus_cxx.Signature.{signature_of}
use dbus_cxx.Signature.Iterator.{begin, type_of}
use dbus_cxx.Wire.Reader.{Outcome, ok, and_then}
use dbus_cxx.Wire.Variant.{string_value, uint32_value}
use dbus_cxx.Wire.Variant.Conversions.{to_signature, same_bytes}
use dbus_cxx.Arguments.{append, iterator_of, get_string}
use dbus_cxx.Kinds.{with_field}

unfoldable pub name : Message → Outcome (List ℕ)
name msg = text_field error_name_field msg

unfoldable pub set_name : List ℕ → Message → Message
set_name n msg = with_field error_name_field (string_value n) msg

-- The first argument, where it is a string.
unfoldable pub message : Message → Outcome (List ℕ)
message msg =
    if same_type (header_field signature_field msg).current_type signature
    then and_then (to_signature (header_field signature_field msg)) (λ value.
      if same_type (type_of (begin (signature_of value))) string
      then and_then (iterator_of msg) (λ it. and_then (get_string it) (λ p. ok p.0))
      else ok [])
    else ok []

-- The constructor, with the serial of the call that the error answers.
unfoldable pub create_error : Option Message → List ℕ → List ℕ → Outcome Message
create_error to_reply n text =
    let answering : Message = elim to_reply [
      | none ↦ Message.create error
      | some call ↦ with_field reply_serial_field (uint32_value call.serial) (Message.create error)
    ] in
    append (string_value text) (with_field error_name_field (string_value n) answering)

unfoldable pub set_message : List ℕ → Message → Outcome Message
set_message text msg = append (string_value text) (clear_sig_and_data msg)

-- `operator==`
unfoldable pub equals : Message → Message → Outcome Bool
equals a b = and_then (name a) (λ n. and_then (name b) (λ m.
    if same_bytes n m
    then and_then (message a) (λ s. and_then (message b) (λ t. ok (same_bytes s t)))
    else ok Bool.false))

pub data ErrorClass : Type 0 where
  error_failed error_service_unknown error_name_has_no_owner error_no_reply error_ioerror :
      ErrorClass
  error_bad_address error_not_supported error_limits_exceeded error_access_denied
        error_auth_failed :
      ErrorClass
  error_no_server error_timeout error_no_network error_address_in_use error_disconnected :
      ErrorClass
  error_invalid_args error_file_not_found error_file_exists error_unknown_method
        error_unknown_object :
      ErrorClass
  error_unknown_interface error_unknown_property error_property_read_only error_timed_out
        error_match_rule_not_found :
      ErrorClass
  error_match_rule_invalid : ErrorClass
  plain_error : ErrorClass

-- The checks of the name in their order.
abbrev error_classes : List (List ℕ × ErrorClass)
error_classes =
    (codes "org.freedesktop.DBus.Error.Failed", error_failed)
    ∷ (codes "org.freedesktop.DBus.Error.ServiceUnknown", error_service_unknown)
    ∷ (codes "org.freedesktop.DBus.Error.NameHasNoOwner", error_name_has_no_owner)
    ∷ (codes "org.freedesktop.DBus.Error.NoReply", error_no_reply)
    ∷ (codes "org.freedesktop.DBus.Error.IOError", error_ioerror)
    ∷ (codes "org.freedesktop.DBus.Error.BadAddress", error_bad_address)
    ∷ (codes "org.freedesktop.DBus.Error.NotSupported", error_not_supported)
    ∷ (codes "org.freedesktop.DBus.Error.LimitsExceeded", error_limits_exceeded)
    ∷ (codes "org.freedesktop.DBus.Error.AccessDenied", error_access_denied)
    ∷ (codes "org.freedesktop.DBus.Error.AuthFailed", error_auth_failed)
    ∷ (codes "org.freedesktop.DBus.Error.NoServer", error_no_server)
    ∷ (codes "org.freedesktop.DBus.Error.Timeout", error_timeout)
    ∷ (codes "org.freedesktop.DBus.Error.NoNetwork", error_no_network)
    ∷ (codes "org.freedesktop.DBus.Error.AddressInUse", error_address_in_use)
    ∷ (codes "org.freedesktop.DBus.Error.Disconnected", error_disconnected)
    ∷ (codes "org.freedesktop.DBus.Error.InvalidArgs", error_invalid_args)
    ∷ (codes "org.freedesktop.DBus.Error.FileNotFound", error_file_not_found)
    ∷ (codes "org.freedesktop.DBus.Error.FileExists", error_file_exists)
    ∷ (codes "org.freedesktop.DBus.Error.UnknownMethod", error_unknown_method)
    ∷ (codes "org.freedesktop.DBus.Error.UnknownObject", error_unknown_object)
    ∷ (codes "org.freedesktop.DBus.Error.UnknownInterface", error_unknown_interface)
    ∷ (codes "org.freedesktop.DBus.Error.UnknownProperty", error_unknown_property)
    ∷ (codes "org.freedesktop.DBus.Error.PropertyReadOnly", error_property_read_only)
    ∷ (codes "org.freedesktop.DBus.Error.TimedOut", error_timed_out)
    ∷ (codes "org.freedesktop.DBus.Error.MatchRuleNotFound", error_match_rule_not_found)
    ∷ (codes "org.freedesktop.DBus.Error.MatchRuleInvalid", error_match_rule_invalid)
    ∷ []

abbrev class_of : List (List ℕ × ErrorClass) → List ℕ → ErrorClass
class_of [] n = plain_error
class_of ((m, c) ∷ rest) n = if same_bytes n m then c else class_of rest n

-- What is thrown: the class of the exception and its text, behind the name for a class of no own.
unfoldable pub throw_error : Message → Outcome (ErrorClass × List ℕ × List ℕ)
throw_error msg =
    and_then (name msg)
      (λ n. and_then (message msg) (λ text. ok (class_of error_classes n, n, text)))
