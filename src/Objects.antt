-- ===== src/Objects.antt =====
-- The classes Object, Interface, MethodBase and PropertyBase (dbus-cxx/object.cpp, interface.cpp,
-- methodbase.h and property.cpp): what they keep and how it changes. An interface is shared by
-- pointers: it stands in a heap, and its pointer is its number there. The signals of libsigc++ that
-- tell of changes are left out.
pub mod Introspection
pub mod Properties
pub mod Handling
pub mod Paths
pub mod Answers
pub mod Once
pub mod Answered
pub mod Values
pub mod Ordered
pub mod Registry
pub mod Registered
mod Examples
use dbus_cxx.Common.{
  ℕ, List, [], ◌∷◌, Option, none, some, Bool, true, false, ◌==◌, if◌then◌else◌, same_text,
  find_text, insert_text, erase_text,
}
use dbus_cxx.Message.{Message}
use dbus_cxx.Wire.Variant.{Variant}

pub data HandlerResult : Type 0 where
  handled invalid_interface invalid_method invalid_path not_handled : HandlerResult

pub data PropertyAccess : Type 0 where
  read_only write_only read_write : PropertyAccess

-- What the call of the slot of a method with the arguments of a message ends in: the reply with the
-- result behind it, or an exception with its text. The text of an exception of no known class has the
-- version of the package, which the build sets.
pub data Called : Type 0 where
  returned : Message → Called
  invalid_typecast std_exception : List ℕ → Called
  other_exception : (package_version : List ℕ) → Called

-- A method: its name, the call of its slot, and what its template prints of its types.
pub record Method : Type 0 where
  pub name : List ℕ
  pub extract_and_call : (message reply : Message) → Called
  pub introspection : ℕ → List ℕ

pub record Property : Type 0 where
  pub name : List ℕ
  pub access : PropertyAccess
  pub value : Variant
  pub introspection : ℕ → List ℕ

-- `m_properties` is ordered by addresses: it is a list in that order.
pub record Interface : Type 0 where
  pub name : List ℕ
  pub path : List ℕ
  pub methods : List (List ℕ × Method)
  pub properties : List Property
  pub connected : Bool

unfoldable pub create_interface : List ℕ → Interface
create_interface name = record {
  name = name;
  path = [];
  methods = [];
  properties = [];
  connected = false;
}

unfoldable pub method : List ℕ → Interface → Option Method
method name i = find_text name i.methods

abbrev pub is_some {ℓ} : {A : Type ℓ} → Option A → Bool
is_some (some _) = true
is_some none = false

unfoldable pub has_method : List ℕ → Interface → Bool
has_method name i = is_some (find_text name i.methods)

unfoldable pub add_method : Method → Interface → Interface × Bool
add_method m i =
    if has_method m.name i
    then (i, false)
    else (record i { methods = insert_text m.name m i.methods }, true)

unfoldable pub remove_method : List ℕ → Interface → Interface × Bool
remove_method name i =
    if has_method name i
    then (record i { methods = erase_text name i.methods }, true)
    else (i, false)

abbrev pub property_named : List ℕ → List Property → Bool
property_named name [] = false
property_named name (p ∷ ps) =
    let more = property_named name ps in if same_text p.name name then true else more

unfoldable pub has_property : List ℕ → Interface → Bool
has_property name i = property_named name i.properties

-- A property that is added; where its address puts it is left open, here at the front.
unfoldable pub add_property : Property → Interface → Interface × Bool
add_property p i =
    if has_property p.name i then (i, false) else (record i { properties = p ∷ i.properties }, true)

unfoldable pub set_path : List ℕ → Interface → Interface
set_path new_path i = record i { path = new_path }

unfoldable pub set_connection : Bool → Interface → Interface
set_connection conn i = record i { connected = conn }

abbrev pub Heap : Type 0
Heap = ℕ → Interface

abbrev pub stored : ℕ → Interface → Heap → Heap
stored n i h m = if m == n then i else h m

-- An object; `connected` says that its connection is there.
pub record Object : Type 0 where
  pub path : List ℕ
  pub interfaces : List (List ℕ × ℕ)
  pub default_interface : Option ℕ
  pub children : List (List ℕ)
  pub connected : Bool

unfoldable pub create_object : List ℕ → Object
create_object path = record {
  path = path;
  interfaces = [];
  default_interface = none;
  children = [];
  connected = false;
}

unfoldable pub interface_by_name : List ℕ → Object → Option ℕ
interface_by_name name o = find_text name o.interfaces

unfoldable pub has_interface : List ℕ → Object → Bool
has_interface name o = is_some (find_text name o.interfaces)

-- `m_interface_signal_name_connections`, in which the interface is looked up first, stays empty.
unfoldable pub add_interface : ℕ → Object × Heap → (Object × Heap) × Bool
add_interface n (o, h) = (
  (
    record o { interfaces = insert_text (h n).name n o.interfaces },
    stored n (set_connection o.connected (set_path o.path (h n))) h,
  ),
  true,
)

unfoldable pub remove_interface : List ℕ → Object → Object
remove_interface name o = record o { interfaces = erase_text name o.interfaces }

unfoldable pub set_default_interface : List ℕ → Object → Object × Bool
set_default_interface name o = elim (find_text name o.interfaces) [
  | none ↦ (o, false)
  | some n ↦ (record o { default_interface = some n }, true)
]

unfoldable pub remove_default_interface : Object → Object
remove_default_interface o = record o { default_interface = none }
