-- ===== src/Wire/Variant/Conversions.antt =====
-- The conversions of a Variant to the C++ types (dbus-cxx/variant.cpp).
use dbus_cxx.Common.{ℕ, List, [], ◌∷◌, Bool, true, false, ◌==◌, ◌&&◌}
use dbus_cxx.Types.{
  DataType, byte, boolean, int16, uint16, int32, int64, uint64, double, object_path, signature,
  same_type,
}
use dbus_cxx.Wire.Words.{ℤ}
use dbus_cxx.Wire.Reader
use dbus_cxx.Wire.Reader.{Outcome, ok, raise, D}
use dbus_cxx.Wire.Variant.{Variant, variant_reader, result_of, when}

-- What each conversion does: ErrorBadVariantCast where the type is another.
abbrev converted : {A : Type 0} → DataType → D A → Variant → Outcome A
converted t d v = when (same_type v.current_type t) (result_of (d (variant_reader v)))

unfoldable pub to_bool : Variant → Outcome Bool
to_bool v = converted boolean Reader.demarshal_boolean v

unfoldable pub to_uint8 : Variant → Outcome ℕ
to_uint8 v = converted byte Reader.demarshal_uint8 v

unfoldable pub to_uint16 : Variant → Outcome ℕ
to_uint16 v = converted uint16 Reader.demarshal_uint16 v

unfoldable pub to_int16 : Variant → Outcome ℤ
to_int16 v = converted int16 Reader.demarshal_int16 v

unfoldable pub to_int32 : Variant → Outcome ℤ
to_int32 v = converted int32 Reader.demarshal_int32 v

unfoldable pub to_uint64 : Variant → Outcome ℕ
to_uint64 v = converted uint64 Reader.demarshal_uint64 v

unfoldable pub to_int64 : Variant → Outcome ℤ
to_int64 v = converted int64 Reader.demarshal_int64 v

unfoldable pub to_double : Variant → Outcome ℕ
to_double v = converted double Reader.demarshal_double v

unfoldable pub to_path : Variant → Outcome (List ℕ)
to_path v = converted object_path Reader.demarshal_string v

unfoldable pub to_signature : Variant → Outcome (List ℕ)
to_signature v = converted signature Reader.demarshal_signature v

abbrev pub same_bytes : List ℕ → List ℕ → Bool
same_bytes [] [] = true
same_bytes (a ∷ rest) (b ∷ bs) = (a == b) && same_bytes rest bs
same_bytes _ _ = false

-- `operator==`
unfoldable pub equals : Variant → Variant → Bool
equals v w = same_type w.current_type v.current_type && same_bytes w.marshaled v.marshaled
