-- ===== src/Wire/Variant/Converted.antt =====
-- What the conversions and the comparison of a Variant give for the values it is made of
-- (dbus-cxx/variant.cpp).
use dbus_cxx.Common.{
  ◌<◌, ◌^◌, ◌≡◌, refl, sym, ap, ◌∙◌, [], length, append-nil, Bool, Bool-cases, inl, inr, true,
  false, if◌then◌else◌, arith, ==_iff,
}
use native.Mathlib.Nat.{zero-mod}
use dbus_cxx.Types.{
  DataType, invalid, byte, boolean, int16, uint16, int32, uint32, int64, uint64, double, string,
  object_path, signature, array, variant, struct, dict_entry, unix_fd, type_number, same_type,
  char_to_dbus_type,
}
use dbus_cxx.Wire.Words.{big}
use dbus_cxx.Wire.Writer.{Marshaling}
use dbus_cxx.Wire.Reader
use dbus_cxx.Wire.Reader.{Outcome, ok, abort, fault, raise, stuck, Demarshaling, then_on, D}
use dbus_cxx.Wire.Numbers.{writer}
use dbus_cxx.Wire.Values.{demarshal_value-marshal_value}
use dbus_cxx.Wire.Placed.{value_shift}
use dbus_cxx.Wire.Variant.{
  Value, byte_value, bool_value, int16_value, uint16_value, int32_value, uint32_value, int64_value,
  uint64_value, double_value, string_value, path_value, signature_value, value_type,
  value_alignment, IsInRange, Variant, variant_of, variant_reader, result_of, when, marshal_value,
  demarshal_value, is_uint32_type, is_string_type, to_uint32, to_string,
}
use dbus_cxx.Wire.Variant.Conversions.{
  to_bool, to_uint8, to_uint16, to_int16, to_int32, to_uint64, to_int64, to_double, to_path,
  to_signature,
}

abbrev mapped : {A : Type 0} → (A → Value) → Outcome A → Outcome Value
mapped f (ok a) = ok (f a)
mapped f abort = abort
mapped f fault = fault
mapped f raise = raise
mapped f stuck = stuck

-- The conversion to the C++ type of a D-Bus type.
unfoldable pub convert : DataType → Variant → Outcome Value
convert byte v = mapped byte_value (to_uint8 v)
convert boolean v = mapped bool_value (to_bool v)
convert int16 v = mapped int16_value (to_int16 v)
convert uint16 v = mapped uint16_value (to_uint16 v)
convert int32 v = mapped int32_value (to_int32 v)
convert uint32 v = mapped uint32_value (to_uint32 v)
convert int64 v = mapped int64_value (to_int64 v)
convert uint64 v = mapped uint64_value (to_uint64 v)
convert double v = mapped double_value (to_double v)
convert string v = mapped string_value (to_string v)
convert object_path v = mapped path_value (to_path v)
convert signature v = mapped signature_value (to_signature v)
convert _ v = raise

-- An enumerator is found again by its value.
char_to_dbus_type-type_number : (t : DataType) → char_to_dbus_type (type_number t) ≡ t
unfolding char_to_dbus_type
char_to_dbus_type-type_number t =
    elim t as (λ (k : DataType). char_to_dbus_type (type_number k) ≡ k) [
      | invalid ↦ refl
      | byte ↦ refl
      | boolean ↦ refl
      | int16 ↦ refl
      | uint16 ↦ refl
      | int32 ↦ refl
      | uint32 ↦ refl
      | int64 ↦ refl
      | uint64 ↦ refl
      | double ↦ refl
      | string ↦ refl
      | object_path ↦ refl
      | signature ↦ refl
      | array ↦ refl
      | variant ↦ refl
      | struct ↦ refl
      | dict_entry ↦ refl
      | unix_fd ↦ refl
    ]

pub same_type-≡ : (t u : DataType) → same_type t u ≡ true → t ≡ u
same_type-≡ t u h =
    sym (char_to_dbus_type-type_number t)
    ∙ ap char_to_dbus_type ((==_iff (type_number t) (type_number u)).0 h)
    ∙ char_to_dbus_type-type_number u

mapped-result_of :
    {A : Type 0} (f : A → Value) (o : Outcome (A × Demarshaling))
    → mapped f (result_of o) ≡ result_of (then_on o (λ a r. ok (f a, r)))
mapped-result_of f (ok a) = refl
mapped-result_of f abort = refl
mapped-result_of f fault = refl
mapped-result_of f raise = refl
mapped-result_of f stuck = refl

-- To its own type a value is converted by the reader's function for the type.
convert-demarshal_value :
    (v : Value)
    → convert (value_type v) (variant_of v)
      ≡ result_of (demarshal_value (value_type v) (variant_reader (variant_of v)))
unfolding convert demarshal_value variant_of to_bool to_uint8 to_uint16 to_int16 to_int32 to_uint32
    to_uint64 to_int64 to_double to_string to_path to_signature Reader.demarshal_path
convert-demarshal_value (byte_value v) =
    mapped-result_of byte_value
      (Reader.demarshal_uint8 (variant_reader (variant_of (byte_value v))))
convert-demarshal_value (bool_value v) =
    mapped-result_of bool_value
      (Reader.demarshal_boolean (variant_reader (variant_of (bool_value v))))
convert-demarshal_value (int16_value v) =
    mapped-result_of int16_value
      (Reader.demarshal_int16 (variant_reader (variant_of (int16_value v))))
convert-demarshal_value (uint16_value v) =
    mapped-result_of uint16_value
      (Reader.demarshal_uint16 (variant_reader (variant_of (uint16_value v))))
convert-demarshal_value (int32_value v) =
    mapped-result_of int32_value
      (Reader.demarshal_int32 (variant_reader (variant_of (int32_value v))))
convert-demarshal_value (uint32_value v) =
    mapped-result_of uint32_value
      (Reader.demarshal_uint32 (variant_reader (variant_of (uint32_value v))))
convert-demarshal_value (int64_value v) =
    mapped-result_of int64_value
      (Reader.demarshal_int64 (variant_reader (variant_of (int64_value v))))
convert-demarshal_value (uint64_value v) =
    mapped-result_of uint64_value
      (Reader.demarshal_uint64 (variant_reader (variant_of (uint64_value v))))
convert-demarshal_value (double_value v) =
    mapped-result_of double_value
      (Reader.demarshal_double (variant_reader (variant_of (double_value v))))
convert-demarshal_value (string_value v) =
    mapped-result_of string_value
      (Reader.demarshal_string (variant_reader (variant_of (string_value v))))
convert-demarshal_value (path_value v) =
    mapped-result_of path_value
      (Reader.demarshal_string (variant_reader (variant_of (path_value v))))
convert-demarshal_value (signature_value v) =
    mapped-result_of signature_value
      (Reader.demarshal_signature (variant_reader (variant_of (signature_value v))))

pub convert-own :
    (v : Value)
    → IsInRange v
    → length (variant_of v).marshaled < 2 ^ 32
    → convert (value_type v) (variant_of v) ≡ ok v
unfolding variant_of
convert-own v range small =
    let same : (marshal_value v (writer [] big)).endian ≡ big =
      ap (λ (m : Marshaling). m.endian) (value_shift v [] (zero-mod (value_alignment v))) in
    convert-demarshal_value v
    ∙ ap result_of (
        rw (append-nil (marshal_value v (writer [] big)).bytes, same) at
          (demarshal_value-marshal_value v (writer [] big) [] range (omega arith)))

is_uint32_type-same_type : (t : DataType) → is_uint32_type t ≡ same_type t uint32
is_uint32_type-same_type t = elim t as (λ (k : DataType). is_uint32_type k ≡ same_type k uint32) [
  | invalid ↦ refl
  | byte ↦ refl
  | boolean ↦ refl
  | int16 ↦ refl
  | uint16 ↦ refl
  | int32 ↦ refl
  | uint32 ↦ refl
  | int64 ↦ refl
  | uint64 ↦ refl
  | double ↦ refl
  | string ↦ refl
  | object_path ↦ refl
  | signature ↦ refl
  | array ↦ refl
  | variant ↦ refl
  | struct ↦ refl
  | dict_entry ↦ refl
  | unix_fd ↦ refl
]

is_string_type-same_type : (t : DataType) → is_string_type t ≡ same_type t string
is_string_type-same_type t = elim t as (λ (k : DataType). is_string_type k ≡ same_type k string) [
  | invalid ↦ refl
  | byte ↦ refl
  | boolean ↦ refl
  | int16 ↦ refl
  | uint16 ↦ refl
  | int32 ↦ refl
  | uint32 ↦ refl
  | int64 ↦ refl
  | uint64 ↦ refl
  | double ↦ refl
  | string ↦ refl
  | object_path ↦ refl
  | signature ↦ refl
  | array ↦ refl
  | variant ↦ refl
  | struct ↦ refl
  | dict_entry ↦ refl
  | unix_fd ↦ refl
]

refused :
    {A : Type 0} (f : A → Value) (b : Bool) (o : Outcome A)
    → b ≡ false
    → mapped f (when b o) ≡ raise
refused f b o h = ap (λ (c : Bool). mapped f (when c o)) h

convert-other :
    (t : DataType) (v : Variant) → same_type v.current_type t ≡ false → convert t v ≡ raise
unfolding convert to_bool to_uint8 to_uint16 to_int16 to_int32 to_uint32 to_uint64 to_int64
    to_double to_string to_path to_signature
convert-other byte v h = refused byte_value _ _ h
convert-other boolean v h = refused bool_value _ _ h
convert-other int16 v h = refused int16_value _ _ h
convert-other uint16 v h = refused uint16_value _ _ h
convert-other int32 v h = refused int32_value _ _ h
convert-other uint32 v h = refused uint32_value _ _ (is_uint32_type-same_type v.current_type ∙ h)
convert-other int64 v h = refused int64_value _ _ h
convert-other uint64 v h = refused uint64_value _ _ h
convert-other double v h = refused double_value _ _ h
convert-other string v h = refused string_value _ _ (is_string_type-same_type v.current_type ∙ h)
convert-other object_path v h = refused path_value _ _ h
convert-other signature v h = refused signature_value _ _ h
convert-other _ v h = refl

-- The conversion of a variant of a value in range, which takes fewer than 2 ^ 32 bytes, to the
-- C++ type of any of the twelve simple D-Bus types gives the value where that is its type, and
-- throws where it is another.
pub convert-variant_of :
    (t : DataType) (v : Value)
    → IsInRange v
    → length (variant_of v).marshaled < 2 ^ 32
    → convert t (variant_of v) ≡ (if same_type (value_type v) t then ok v else raise)
unfolding variant_of
convert-variant_of t v range small = elim (Bool-cases (same_type (value_type v) t)) [
  | inl same ↦ rw same (
      ap (λ (u : DataType). convert u (variant_of v)) (sym (same_type-≡ (value_type v) t same))
      ∙ convert-own v range small)
  | inr other ↦ rw other (convert-other t (variant_of v) other)
]
