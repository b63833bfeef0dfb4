-- ===== src/Types.antt =====
-- The D-Bus types and their codes: the enumerations DataType and ContainerType of
-- dbus-cxx/enums.h, the conversions from characters of dbus-cxx/types.h and the class TypeInfo of
-- dbus-cxx/types.cpp. A character is its code, a number below 256.
pub mod Codes
mod Tests
use dbus_cxx.Common.{ℕ, Bool, true, false, List, [], ◌∷◌, ◌==◌, if◌then◌else◌}
use Prim.Native.String.{String}

pub data DataType : Type 0 where
  invalid byte boolean int16 uint16 int32 uint32 int64 uint64 double : DataType
  string object_path signature array variant struct dict_entry unix_fd : DataType

pub data ContainerType : Type 0 where
  none_type array_type variant_type struct_type dict_entry_type : ContainerType

pub DataType-discrete : Discrete DataType
DataType-discrete = hlevel

pub ContainerType-discrete : Discrete ContainerType
ContainerType-discrete = hlevel

-- The value of an enumerator, and `==` on the enumeration.
abbrev pub type_number : DataType → ℕ
type_number byte = b'y'
type_number boolean = b'b'
type_number int16 = b'n'
type_number uint16 = b'q'
type_number int32 = b'i'
type_number uint32 = b'u'
type_number int64 = b'x'
type_number uint64 = b't'
type_number double = b'd'
type_number string = b's'
type_number object_path = b'o'
type_number signature = b'g'
type_number array = b'a'
type_number variant = b'v'
type_number struct = b'r'
type_number dict_entry = b'e'
type_number unix_fd = b'h'
type_number invalid = 0

abbrev pub same_type : DataType → DataType → Bool
same_type a b = type_number a == type_number b

unfoldable pub char_to_dbus_type : ℕ → DataType
char_to_dbus_type c =
    if c == b'y'
    then byte
    else if c == b'b'
    then boolean
    else if c == b'n'
    then int16
    else if c == b'q'
    then uint16
    else if c == b'i'
    then int32
    else if c == b'u'
    then uint32
    else if c == b'x'
    then int64
    else if c == b't'
    then uint64
    else if c == b'd'
    then double
    else if c == b's'
    then string
    else if c == b'o'
    then object_path
    else if c == b'g'
    then signature
    else if c == b'a'
    then array
    else if c == b'r'
    then struct
    else if c == b'('
    then struct
    else if c == b')'
    then struct
    else if c == b'v'
    then variant
    else if c == b'e'
    then dict_entry
    else if c == b'{'
    then dict_entry
    else if c == b'}'
    then dict_entry
    else if c == b'h'
    then unix_fd
    else invalid

unfoldable pub char_to_container_type : ℕ → ContainerType
char_to_container_type c =
    if c == b'a'
    then array_type
    else if c == b'e'
    then dict_entry_type
    else if c == b'{'
    then dict_entry_type
    else if c == b'('
    then struct_type
    else if c == b'r'
    then struct_type
    else if c == b'v'
    then variant_type
    else none_type

unfoldable pub is_ending_container : ℕ → Bool
is_ending_container c = if c == b'}' then true else if c == b')' then true else false

unfoldable pub char_to_ending_container : ℕ → ContainerType
char_to_ending_container c =
    if c == b'}' then dict_entry_type else if c == b')' then struct_type else none_type

unfoldable pub is_templated : DataType → Bool
is_templated array = true
is_templated struct = true
is_templated dict_entry = true
is_templated _ = false

unfoldable pub is_basic : DataType → Bool
is_basic byte = true
is_basic int16 = true
is_basic uint16 = true
is_basic int32 = true
is_basic uint32 = true
is_basic int64 = true
is_basic uint64 = true
is_basic string = true
is_basic object_path = true
is_basic signature = true
is_basic unix_fd = true
is_basic _ = false

unfoldable pub is_fixed : DataType → Bool
is_fixed byte = true
is_fixed int16 = true
is_fixed uint16 = true
is_fixed int32 = true
is_fixed uint32 = true
is_fixed int64 = true
is_fixed uint64 = true
is_fixed _ = false

unfoldable pub is_container : DataType → Bool
is_container array = true
is_container variant = true
is_container struct = true
is_container dict_entry = true
is_container _ = false

unfoldable pub alignment : DataType → ℕ
alignment byte = 1
alignment boolean = 4
alignment int16 = 2
alignment uint16 = 2
alignment int32 = 4
alignment uint32 = 4
alignment int64 = 8
alignment uint64 = 8
alignment double = 8
alignment string = 4
alignment object_path = 4
alignment signature = 1
alignment array = 4
alignment variant = 1
alignment struct = 8
alignment dict_entry = 8
alignment unix_fd = 4
alignment _ = 0

-- `'\0'` for the types that have no single character.
unfoldable pub to_dbus_char : DataType → ℕ
to_dbus_char byte = b'y'
to_dbus_char boolean = b'b'
to_dbus_char int16 = b'n'
to_dbus_char uint16 = b'q'
to_dbus_char int32 = b'i'
to_dbus_char uint32 = b'u'
to_dbus_char int64 = b'x'
to_dbus_char uint64 = b't'
to_dbus_char double = b'd'
to_dbus_char string = b's'
to_dbus_char object_path = b'o'
to_dbus_char signature = b'g'
to_dbus_char array = b'a'
to_dbus_char variant = b'v'
to_dbus_char unix_fd = b'h'
to_dbus_char _ = 0

unfoldable pub cpp_type : DataType → String
cpp_type invalid = "Invalid"
cpp_type byte = "uint8_t"
cpp_type boolean = "bool"
cpp_type int16 = "int16_t"
cpp_type uint16 = "uint16_t"
cpp_type int32 = "int32_t"
cpp_type uint32 = "uint32_t"
cpp_type int64 = "int64_t"
cpp_type uint64 = "uint64_t"
cpp_type double = "double"
cpp_type string = "std::string"
cpp_type object_path = "DBus::Path"
cpp_type signature = "DBus::Signature"
cpp_type array = "std::vector"
cpp_type variant = "DBus::Variant"
cpp_type struct = "std::tuple"
cpp_type dict_entry = "std::map"
cpp_type unix_fd = "DBus::FileDescriptor"

unfoldable pub include_files_for_type : DataType → List String
include_files_for_type byte = "stdint.h" ∷ []
include_files_for_type int16 = "stdint.h" ∷ []
include_files_for_type uint16 = "stdint.h" ∷ []
include_files_for_type int32 = "stdint.h" ∷ []
include_files_for_type uint32 = "stdint.h" ∷ []
include_files_for_type int64 = "stdint.h" ∷ []
include_files_for_type uint64 = "stdint.h" ∷ []
include_files_for_type string = "string" ∷ []
include_files_for_type array = "vector" ∷ []
include_files_for_type variant = "dbus-cxx/variant.h" ∷ []
include_files_for_type struct = "tuple" ∷ []
include_files_for_type dict_entry = "map" ∷ []
include_files_for_type _ = []
