-- ===== src/Wire/Variant.antt =====
-- The class Variant of dbus-cxx/variant.cpp, for the values that its constructors take, and the
-- reading of a variant by dbus-cxx/demarshaling.cpp. A variant keeps its value as bytes in big
-- endian order, written into a buffer of its own.
pub mod Conversions
pub mod Converted
pub mod Equality
use dbus_cxx.Common.{ℕ, zero, suc, ◌<◌, ◌^◌, List, [], ◌∷◌, Bool, true, false, length}
use dbus_cxx.Types.{
  DataType, invalid, byte, boolean, int16, uint16, int32, uint32, int64, uint64, double, string,
  object_path, signature, array, variant, struct, dict_entry, unix_fd,
}
use dbus_cxx.Signature.{signature_of}
use dbus_cxx.Signature.Iterator.{begin, type_of}
use dbus_cxx.Wire.Words.{big, ℤ, IsSigned}
use dbus_cxx.Wire.Writer
use dbus_cxx.Wire.Writer.{Marshaling}
use dbus_cxx.Wire.Reader
use dbus_cxx.Wire.Reader.{Outcome, ok, stuck, raise, D, pure, ◌>>=◌, Demarshaling, then_on}

-- What the overloads of `marshal` and the constructors of Variant take.
pub data Value : Type 0 where
  byte_value : ℕ → Value
  bool_value : Bool → Value
  int16_value : ℤ → Value
  uint16_value : ℕ → Value
  int32_value : ℤ → Value
  uint32_value : ℕ → Value
  int64_value : ℤ → Value
  uint64_value : ℕ → Value
  double_value : ℕ → Value
  string_value : List ℕ → Value
  path_value : List ℕ → Value
  signature_value : List ℕ → Value

abbrev pub value_type : Value → DataType
value_type (byte_value v) = byte
value_type (bool_value v) = boolean
value_type (int16_value v) = int16
value_type (uint16_value v) = uint16
value_type (int32_value v) = int32
value_type (uint32_value v) = uint32
value_type (int64_value v) = int64
value_type (uint64_value v) = uint64
value_type (double_value v) = double
value_type (string_value v) = string
value_type (path_value v) = object_path
value_type (signature_value v) = signature

-- The values that the C++ type holds, and the signatures whose length a byte holds.
abbrev pub IsInRange : Value → Type 0
IsInRange (byte_value v) = v < 256
IsInRange (bool_value v) = Unit {0}
IsInRange (int16_value v) = IsSigned (2 ^ 15) v
IsInRange (uint16_value v) = v < 2 ^ 16
IsInRange (int32_value v) = IsSigned (2 ^ 31) v
IsInRange (uint32_value v) = v < 2 ^ 32
IsInRange (int64_value v) = IsSigned (2 ^ 63) v
IsInRange (uint64_value v) = v < 2 ^ 64
IsInRange (double_value v) = v < 2 ^ 64
IsInRange (string_value v) = Unit {0}
IsInRange (path_value v) = Unit {0}
IsInRange (signature_value v) = length v < 256

unfoldable pub marshal_value : Value → Marshaling → Marshaling
marshal_value (byte_value v) m = Writer.marshal_uint8 v m
marshal_value (bool_value v) m = Writer.marshal_bool v m
marshal_value (int16_value v) m = Writer.marshal_int16 v m
marshal_value (uint16_value v) m = Writer.marshal_uint16 v m
marshal_value (int32_value v) m = Writer.marshal_int32 v m
marshal_value (uint32_value v) m = Writer.marshal_uint32 v m
marshal_value (int64_value v) m = Writer.marshal_int64 v m
marshal_value (uint64_value v) m = Writer.marshal_uint64 v m
marshal_value (double_value v) m = Writer.marshal_double v m
marshal_value (string_value v) m = Writer.marshal_string v m
marshal_value (path_value v) m = Writer.marshal_path v m
marshal_value (signature_value v) m = Writer.marshal_signature v m

-- The signature that a constructor gives.
unfoldable pub value_signature : Value → List ℕ
value_signature (byte_value v) = b'y' ∷ []
value_signature (bool_value v) = b'b' ∷ []
value_signature (int16_value v) = b'n' ∷ []
value_signature (uint16_value v) = b'q' ∷ []
value_signature (int32_value v) = b'i' ∷ []
value_signature (uint32_value v) = b'u' ∷ []
value_signature (int64_value v) = b'x' ∷ []
value_signature (uint64_value v) = b't' ∷ []
value_signature (double_value v) = b'd' ∷ []
value_signature (string_value v) = b's' ∷ []
value_signature (path_value v) = b'o' ∷ []
value_signature (signature_value v) = b'g' ∷ []

unfoldable pub value_alignment : Value → ℕ
value_alignment (byte_value v) = 1
value_alignment (bool_value v) = 4
value_alignment (int16_value v) = 2
value_alignment (uint16_value v) = 2
value_alignment (int32_value v) = 4
value_alignment (uint32_value v) = 4
value_alignment (int64_value v) = 8
value_alignment (uint64_value v) = 8
value_alignment (double_value v) = 8
value_alignment (string_value v) = 4
value_alignment (path_value v) = 4
value_alignment (signature_value v) = 1

pub record Variant : Type 0 where
  pub current_type : DataType
  pub signature_text : List ℕ
  pub marshaled : List ℕ
  pub data_alignment : ℕ

-- The default constructor leaves the alignment uninitialised: it is 0 here.
abbrev pub no_variant : Variant
no_variant = record {
  current_type = invalid;
  signature_text = [];
  marshaled = [];
  data_alignment = 0;
}

unfoldable pub variant_of : Value → Variant
variant_of v = record {
  current_type = value_type v;
  signature_text = value_signature v;
  marshaled = (marshal_value v (record { bytes = []; endian = big })).bytes;
  data_alignment = value_alignment v;
}

-- `marshal( const Variant& )`
unfoldable pub marshal_variant : Variant → Marshaling → Marshaling
unfolding Writer.marshal_variant
marshal_variant v m = Writer.marshal_variant v.signature_text v.marshaled m

-- The iterator that a conversion reads the bytes by.
abbrev pub variant_reader : Variant → Demarshaling
variant_reader v = record { bytes = v.marshaled; pos = 0; endian = big }

abbrev result_of : {A : Type 0} → Outcome (A × Demarshaling) → Outcome A
result_of (ok (a, _)) = ok a
result_of Reader.Outcome.abort = Reader.Outcome.abort
result_of Reader.Outcome.fault = Reader.Outcome.fault
result_of raise = raise
result_of stuck = stuck

abbrev pub is_uint32_type : DataType → Bool
is_uint32_type uint32 = true
is_uint32_type _ = false

abbrev pub is_string_type : DataType → Bool
is_string_type string = true
is_string_type _ = false

-- The conversions throw ErrorBadVariantCast where the type is another.
abbrev when : {A : Type 0} → Bool → Outcome A → Outcome A
when true o = o
when false o = raise

unfoldable pub to_uint32 : Variant → Outcome ℕ
to_uint32 v =
    when (is_uint32_type v.current_type) (result_of (Reader.demarshal_uint32 (variant_reader v)))

unfoldable pub to_string : Variant → Outcome (List ℕ)
to_string v =
    when (is_string_type v.current_type) (result_of (Reader.demarshal_string (variant_reader v)))

-- The cases of the switch in `demarshal_variant` that read a value.
unfoldable pub demarshal_value : DataType → D Value
demarshal_value byte = do v ← Reader.demarshal_uint8; pure (byte_value v)
demarshal_value boolean = do v ← Reader.demarshal_boolean; pure (bool_value v)
demarshal_value int16 = do v ← Reader.demarshal_int16; pure (int16_value v)
demarshal_value uint16 = do v ← Reader.demarshal_uint16; pure (uint16_value v)
demarshal_value int32 = do v ← Reader.demarshal_int32; pure (int32_value v)
demarshal_value uint32 = do v ← Reader.demarshal_uint32; pure (uint32_value v)
demarshal_value int64 = do v ← Reader.demarshal_int64; pure (int64_value v)
demarshal_value uint64 = do v ← Reader.demarshal_uint64; pure (uint64_value v)
demarshal_value double = do v ← Reader.demarshal_double; pure (double_value v)
demarshal_value string = do v ← Reader.demarshal_string; pure (string_value v)
demarshal_value object_path = do v ← Reader.demarshal_path; pure (path_value v)
demarshal_value signature = do v ← Reader.demarshal_signature; pure (signature_value v)
demarshal_value _ = λ r. stuck

-- The switch: the case of an array runs on into that of a variant, and `Variant( Variant )` copies.
unfoldable pub variant_case : D Variant → DataType → D Variant
variant_case inner array = inner
variant_case inner variant = inner
variant_case inner struct = pure no_variant
variant_case inner dict_entry = pure no_variant
variant_case inner unix_fd = pure no_variant
variant_case inner invalid = pure no_variant
variant_case inner t = do v ← demarshal_value t; pure (variant_of v)

-- `demarshal_variant`, which calls itself for a variant in a variant, on fuel.
unfoldable pub demarshal_variant : ℕ → D Variant
demarshal_variant zero r = stuck
demarshal_variant (suc fuel) r =
    then_on (Reader.demarshal_signature r)
      (λ sig. variant_case (demarshal_variant fuel) (type_of (begin (signature_of sig))))
