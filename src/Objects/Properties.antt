-- ===== src/Objects/Properties.antt =====
-- The calls of org.freedesktop.DBus.Properties (Interface::handle_properties_message of
-- dbus-cxx/interface.cpp), and the properties that they read and write.
use dbus_cxx.Common.{
  ℕ, List, [], ◌∷◌, ◌++◌, Option, some, none, Bool, true, false, not, ◌&&◌, if◌then◌else◌, codes,
  same_text, assign_text,
}
use dbus_cxx.Types.{DataType, invalid, variant, dict_entry, unix_fd, array, struct, alignment}
use dbus_cxx.Signature.{is_invalid}
use dbus_cxx.Signature.Iterator.{signature_text}
use dbus_cxx.Message.{Message}
use dbus_cxx.Wire.Words.{big}
use dbus_cxx.Wire.Reader
use dbus_cxx.Wire.Reader.{Outcome, ok, raise, fault, stuck, and_then, Demarshaling}
use dbus_cxx.Wire.Numbers.{writer}
use dbus_cxx.Wire.Variant.{Variant, string_value, marshal_value}
use dbus_cxx.Arguments.{MessageIterator, iterator_of, arg_type, is_text, get, get_string, next}
use dbus_cxx.Arguments.Arrays.{recurse, is_container}
use dbus_cxx.Arguments.Containers.{
  AppendIterator, append_iterator, append_value, append_variant, append_map, append_vector,
}
use dbus_cxx.Kinds.CallMessage.{create_reply, create_error_reply, member}
use dbus_cxx.Kinds.SignalMessage.{create_signal}
use dbus_cxx.Kinds.ErrorMessage.{set_name, set_message}
use dbus_cxx.Objects.{
  HandlerResult, handled, PropertyAccess, read_only, write_only, Property, Interface,
}

-- `operator>>` of a string.
unfoldable pub extract_text : MessageIterator → Outcome (List ℕ × MessageIterator)
extract_text it =
    if not (is_text (arg_type it))
    then raise
    else and_then (get_string it) (λ p. ok (p.0, (next p.1).0))

-- The value behind the signature of a variant; arrays and structs are left out.
abbrev copied : DataType → MessageIterator → Outcome (List ℕ × MessageIterator)
copied invalid s = ok ([], s)
copied variant s = ok ([], s)
copied dict_entry s = ok ([], s)
copied unix_fd s = ok ([], s)
copied array s = stuck
copied struct s = stuck
copied t s = and_then (get t s) (λ p. ok ((marshal_value p.0 (writer [] big)).bytes, p.1))

-- Variant::createFromMessage
unfoldable pub create_from_message : MessageIterator → Outcome (Variant × MessageIterator)
create_from_message s =
    let t : DataType = arg_type s in
    and_then (Reader.align (alignment t) s.demarshal) (λ p.
      and_then (copied t (record s { demarshal = p.1 })) (λ q. ok (
        record {
          current_type = t;
          signature_text = signature_text s.signature_iterator;
          marshaled = q.0;
          data_alignment = alignment t;
        },
        q.1,
      )))

-- `operator>>` of a variant. The subiterator of an argument that is no container has no reader.
unfoldable pub extract_variant : Bool → MessageIterator → Outcome (Variant × MessageIterator)
extract_variant offset_first it =
    if not (is_container it)
    then fault
    else and_then (recurse offset_first it) (λ s.
      and_then (create_from_message s)
        (λ p. ok (p.0, (next (record it { demarshal = p.1.demarshal })).0)))

abbrev pub is_readable : PropertyAccess → Bool
is_readable write_only = false
is_readable _ = true

abbrev pub is_writable : PropertyAccess → Bool
is_writable read_only = false
is_writable _ = true

-- A property that has not been set is passed over.
abbrev pub is_set : Property → Bool
is_set p = not (is_invalid p.value.current_type)

-- The loop of `GetAll`.
unfoldable pub all_values : List Property → List (List ℕ × Variant) → List (List ℕ × Variant)
all_values [] retval = retval
all_values (p ∷ ps) retval =
    all_values ps
      (if is_set p && is_readable p.access then assign_text p.name p.value retval else retval)

-- The loop of `Get`.
unfoldable pub value_of : List ℕ → List Property → Option Variant
value_of name [] = none
value_of name (p ∷ ps) =
    let more = value_of name ps in
    if is_set p && same_text p.name name && is_readable p.access then some p.value else more

-- The loop of `Set`: the first property of the name that has been set ends it.
pub data Found : Type 0 where
  unknown is_read_only : Found
  written : List Property → Found

abbrev pub behind : Property → Found → Found
behind p (written ps) = written (p ∷ ps)
behind p f = f

unfoldable pub set_value : List ℕ → Variant → List Property → Found
set_value name v [] = unknown
set_value name v (p ∷ ps) =
    let more = behind p (set_value name v ps) in
    if is_set p && same_text p.name name
    then (if is_writable p.access then written (record p { value = v } ∷ ps) else is_read_only)
    else more

-- Interface::property_updated: the signal, where the connection is there.
unfoldable pub property_updated : List ℕ → Variant → Interface → Outcome (List Message)
property_updated name v i =
    let changed : Message =
      create_signal i.path (codes "org.freedesktop.DBus.Properties") (codes "PropertiesChanged") in
    and_then (append_value (string_value i.name) (append_iterator changed)) (λ a.
      and_then
        (append_map (λ k. append_value (string_value k)) append_variant (codes "{sv}")
          ((name, v) ∷ []) a)
        (λ b.
          and_then (append_vector (codes "s") [] b)
            (λ c. ok (if i.connected then c.message ∷ [] else []))))

-- The result, what is sent, and the interface behind it.
abbrev pub Handled : Type 0
Handled = Outcome (HandlerResult × List Message × Interface)

unfoldable pub properties_error : List ℕ → List ℕ → Message → Interface → Handled
properties_error err_name err_msg msg i = and_then (create_error_reply msg) (λ e. elim e [
  | none ↦ fault
  | some reply ↦
      and_then (set_message err_msg (set_name err_name reply)) (λ m. ok (handled, m ∷ [], i))
])

abbrev sent_behind : Option Message → List Message → List Message
sent_behind none ms = ms
sent_behind (some m) ms = ms ++ (m ∷ [])

abbrev unknown_property : List ℕ
unknown_property = codes "org.freedesktop.DBus.Error.UnknownProperty"

abbrev unable_to_find : List ℕ → List ℕ → List ℕ
unable_to_find prop iface =
    codes "Unable to find property " ++ prop ++ codes " on interface " ++ iface

-- A reply with a value behind it; `operator<<` throws where there is no reply.
abbrev replied : (AppendIterator → Outcome AppendIterator) → Option Message → Interface → Handled
replied f none i = raise
replied f (some r) i = and_then (f (append_iterator r)) (λ a. ok (handled, a.message ∷ [], i))

unfoldable pub get_all : Option Message → Interface → Handled
get_all retmsg i =
    replied
      (append_map (λ k. append_value (string_value k)) append_variant (codes "{sv}")
        (all_values i.properties []))
      retmsg i

unfoldable pub get_property : Message → Option Message → Interface → Handled
get_property msg retmsg i = and_then (iterator_of msg) (λ it. and_then (extract_text it) (λ p.
    and_then (extract_text p.1) (λ q. elim (value_of q.0 i.properties) [
      | none ↦ properties_error unknown_property (unable_to_find q.0 p.0) msg i
      | some v ↦ replied (append_variant v) retmsg i
    ])))

unfoldable pub set_property : Bool → Message → Option Message → Interface → Handled
set_property offset_first msg retmsg i = and_then (iterator_of msg) (λ it.
    and_then (extract_text it) (λ p. and_then (extract_text p.1) (λ q.
      and_then (extract_variant offset_first q.1) (λ v. elim (set_value q.0 v.0 i.properties) [
        | unknown ↦ properties_error unknown_property (unable_to_find q.0 p.0) msg i
        | is_read_only ↦
            properties_error (codes "org.freedesktop.DBus.Error.PropertyReadOnly")
              (codes "Property " ++ q.0 ++ codes " on interface " ++ p.0 ++ codes " is read-only")
              msg i
        | written ps ↦
            and_then (property_updated q.0 v.0 i)
              (λ ms. ok (handled, sent_behind retmsg ms, record i { properties = ps }))
      ]))))

unfoldable pub handle_properties_message : Bool → Message → Interface → Handled
handle_properties_message offset_first msg i = and_then (create_reply msg) (λ retmsg.
    and_then (member msg) (λ m.
      if same_text m (codes "GetAll")
      then get_all retmsg i
      else if same_text m (codes "Get")
      then get_property msg retmsg i
      else if same_text m (codes "Set")
      then set_property offset_first msg retmsg i
      else properties_error unknown_property [] msg i))
