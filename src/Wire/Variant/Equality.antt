-- ===== src/Wire/Variant/Equality.antt =====
-- The comparison of Variants (dbus-cxx/variant.cpp).
use dbus_cxx.Common.{
  ℕ, ◌<◌, ◌^◌, ◌≡◌, refl, sym, ap, ◌∙◌, ◌↔◌, List, [], ◌∷◌, ◌==◌, ◌&&◌, length, Bool, true, false,
  ==_iff, ==_refl,
}
use dbus_cxx.Types.{
  DataType, invalid, byte, boolean, int16, uint16, int32, uint32, int64, uint64, double, string,
  object_path, signature, array, variant, struct, dict_entry, unix_fd, type_number,
}
use dbus_cxx.Wire.Reader.{ok}
use dbus_cxx.Wire.Variant.{Value, value_type, IsInRange, Variant, variant_of, to_uint32, to_string}
use dbus_cxx.Wire.Variant.Conversions.{
  to_bool, to_uint8, to_uint16, to_int16, to_int32, to_uint64, to_int64, to_double, to_path,
  to_signature, same_bytes, equals,
}
use dbus_cxx.Wire.Variant.Converted.{convert, convert-own, same_type-≡}

pub both : (a b : Bool) → (a && b) ≡ true → (a ≡ true) × (b ≡ true)
both true true h = (refl, refl)
both true false h = cc
both false b h = cc

pub same_bytes-≡ : (a b : List ℕ) → same_bytes a b ≡ true → a ≡ b
same_bytes-≡ [] [] h = refl
same_bytes-≡ [] (b ∷ bs) h = cc
same_bytes-≡ (a ∷ rest) [] h = cc
same_bytes-≡ (a ∷ rest) (b ∷ bs) h =
    let (first, others) = both (a == b) (same_bytes rest bs) h in
    rw ((==_iff a b).0 first, same_bytes-≡ rest bs others)

pub same_bytes_refl : (a : List ℕ) → same_bytes a a ≡ true
same_bytes_refl [] = refl
same_bytes_refl (a ∷ rest) = rw (==_refl a, same_bytes_refl rest)

abbrev bare : DataType → List ℕ → Variant
bare t bs = record { current_type = t; signature_text = []; marshaled = bs; data_alignment = 0 }

-- What a conversion gives depends on the type and the bytes only.
convert-marshaled :
    (t : DataType) (v : Variant) → convert t v ≡ convert t (bare v.current_type v.marshaled)
unfolding convert to_bool to_uint8 to_uint16 to_int16 to_int32 to_uint32 to_uint64 to_int64
    to_double to_string to_path to_signature
convert-marshaled t v =
    elim t as (λ (k : DataType). convert k v ≡ convert k (bare v.current_type v.marshaled)) [
      | invalid ↦ refl
      | byte ↦ refl
      | boolean ↦ refl
      | int16 ↦ refl
      | uint16 ↦ refl
      | int32 ↦ refl
      | uint32 ↦ refl
      | int64 ↦ refl
      | uint64 ↦ refl
      | double ↦ refl
      | string ↦ refl
      | object_path ↦ refl
      | signature ↦ refl
      | array ↦ refl
      | variant ↦ refl
      | struct ↦ refl
      | dict_entry ↦ refl
      | unix_fd ↦ refl
    ]

-- Equal types and equal bytes are those of one value.
value_of-equals :
    (v w : Value)
    → IsInRange v
    → IsInRange w
    → length (variant_of v).marshaled < 2 ^ 32
    → length (variant_of w).marshaled < 2 ^ 32
    → value_type w ≡ value_type v
    → (variant_of w).marshaled ≡ (variant_of v).marshaled
    → ok v ≡ ok w
unfolding variant_of
value_of-equals v w range_v range_w small_v small_w types bytes =
    sym (convert-own v range_v small_v)
    ∙ convert-marshaled (value_type v) (variant_of v)
    ∙ ap (λ (bs : List ℕ). convert (value_type v) (bare (value_type v) bs)) (sym bytes)
    ∙ ap (λ (t : DataType). convert t (bare t (variant_of w).marshaled)) (sym types)
    ∙ sym (convert-marshaled (value_type w) (variant_of w))
    ∙ convert-own w range_w small_w

ok-injective : (v w : Value) → ok v ≡ ok w → v ≡ w
ok-injective v w h = cc

-- Two variants of values in range, which take fewer than 2 ^ 32 bytes each, are equal by
-- operator== exactly where the values are equal.
pub equals-variant_of_iff :
    (v w : Value)
    → IsInRange v
    → IsInRange w
    → length (variant_of v).marshaled < 2 ^ 32
    → length (variant_of w).marshaled < 2 ^ 32
    → (equals (variant_of v) (variant_of w) ≡ true) ↔ (v ≡ w)
unfolding equals variant_of
equals-variant_of_iff v w range_v range_w small_v small_w = (
  λ h.
      let (types, bytes) = both _ _ h in
      ok-injective v w (
        value_of-equals v w range_v range_w small_v small_w
          (same_type-≡ (value_type w) (value_type v) types)
          (same_bytes-≡ (variant_of w).marshaled (variant_of v).marshaled bytes)),
  λ h. rw (h, ==_refl (type_number (value_type w)), same_bytes_refl (variant_of w).marshaled),
)
