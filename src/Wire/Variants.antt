-- ===== src/Wire/Variants.antt =====
-- The bytes that a variant keeps, and its writing and reading (dbus-cxx/variant.cpp,
-- marshaling.cpp and demarshaling.cpp).
use dbus_cxx.Common.{
  ℕ, suc, ◌+◌, ◌%◌, ◌<◌, ◌^◌, ◌≡◌, refl, sym, ap, ◌∙◌, List, [], ◌∷◌, ◌++◌, length, length-append,
  append_assoc, arith,
}
use dbus_cxx.Types.{DataType, char_to_dbus_type, char_to_container_type, is_ending_container}
use dbus_cxx.Types
use dbus_cxx.Signature.{
  signature_of, create_signature_tree, enter, loop, round, bottom, close, after_sub,
}
use dbus_cxx.Signature.Iterator.{begin, type_of}
use dbus_cxx.Wire.Words.{big}
use dbus_cxx.Wire.Writer
use dbus_cxx.Wire.Writer.{Marshaling}
use dbus_cxx.Wire.Reader
use dbus_cxx.Wire.Reader.{Demarshaling, Outcome, ok, D, ◌>>=◌}
use dbus_cxx.Wire.RoundTrip.{over}
use dbus_cxx.Wire.Numbers.{writer, uint32_read}
use dbus_cxx.Wire.Text.{signature_read}
use dbus_cxx.Wire.Placed.{value_shift}
use dbus_cxx.Wire.Values.{demarshal_value-marshal_value}
use dbus_cxx.Wire.Variant.{
  Value, byte_value, bool_value, int16_value, uint16_value, int32_value, uint32_value, int64_value,
  uint64_value, double_value, string_value, path_value, signature_value, value_type,
  value_signature, value_alignment, IsInRange, marshal_value, demarshal_value, Variant, variant_of,
  marshal_variant, variant_case, demarshal_variant, to_uint32,
}

-- The first type of the signature that a constructor gives is the type of the value.
pub type_of-value_signature :
    (v : Value) → type_of (begin (signature_of (value_signature v))) ≡ value_type v
unfolding signature_of create_signature_tree enter loop round bottom close after_sub begin type_of
    value_signature char_to_dbus_type char_to_container_type is_ending_container Types.is_basic
    Types.is_container
type_of-value_signature (byte_value v) = refl
type_of-value_signature (bool_value v) = refl
type_of-value_signature (int16_value v) = refl
type_of-value_signature (uint16_value v) = refl
type_of-value_signature (int32_value v) = refl
type_of-value_signature (uint32_value v) = refl
type_of-value_signature (int64_value v) = refl
type_of-value_signature (uint64_value v) = refl
type_of-value_signature (double_value v) = refl
type_of-value_signature (string_value v) = refl
type_of-value_signature (path_value v) = refl
type_of-value_signature (signature_value v) = refl

variant_case-value_type :
    (v : Value) (inner : D Variant)
    → variant_case inner (value_type v)
      ≡ (do x ← demarshal_value (value_type v); Reader.pure (variant_of x))
unfolding variant_case
variant_case-value_type (byte_value v) inner = refl
variant_case-value_type (bool_value v) inner = refl
variant_case-value_type (int16_value v) inner = refl
variant_case-value_type (uint16_value v) inner = refl
variant_case-value_type (int32_value v) inner = refl
variant_case-value_type (uint32_value v) inner = refl
variant_case-value_type (int64_value v) inner = refl
variant_case-value_type (uint64_value v) inner = refl
variant_case-value_type (double_value v) inner = refl
variant_case-value_type (string_value v) inner = refl
variant_case-value_type (path_value v) inner = refl
variant_case-value_type (signature_value v) inner = refl

-- A variant is written as its signature and then its value, if the value is aligned there.
pub marshal_variant-eq :
    (v : Value) (bs : List ℕ)
    → length (Writer.marshal_signature (value_signature v) (writer bs big)).bytes
        % value_alignment v
      ≡ 0
    → marshal_variant (variant_of v) (writer bs big)
      ≡ marshal_value v (Writer.marshal_signature (value_signature v) (writer bs big))
unfolding marshal_variant variant_of Writer.push_all Writer.marshal_signature Writer.push_back
marshal_variant-eq v bs h = sym (value_shift v _ h)

pub length-value_signature : (v : Value) → length (value_signature v) ≡ 1
unfolding value_signature
length-value_signature (byte_value v) = refl
length-value_signature (bool_value v) = refl
length-value_signature (int16_value v) = refl
length-value_signature (uint16_value v) = refl
length-value_signature (int32_value v) = refl
length-value_signature (uint32_value v) = refl
length-value_signature (int64_value v) = refl
length-value_signature (uint64_value v) = refl
length-value_signature (double_value v) = refl
length-value_signature (string_value v) = refl
length-value_signature (path_value v) = refl
length-value_signature (signature_value v) = refl

pub length-marshal_signature :
    (v : Value) (bs : List ℕ)
    → length (Writer.marshal_signature (value_signature v) (writer bs big)).bytes ≡ length bs + 3
unfolding Writer.marshal_signature Writer.push_all Writer.push_back
length-marshal_signature v bs = omega (
  arith,
  length-value_signature v,
  length-append (bs ++ (length (value_signature v) % 256 ∷ []) ++ value_signature v) (0 ∷ []),
  length-append (bs ++ (length (value_signature v) % 256 ∷ [])) (value_signature v),
  length-append bs (length (value_signature v) % 256 ∷ []),
)

-- The reader over a value that is aligned, with the bytes of the value apart.
over_value :
    (v : Value) (bs rest : List ℕ) (p : ℕ)
    → length bs % value_alignment v ≡ 0
    → over (marshal_value v (writer bs big)) rest p
      ≡ over (writer bs big) ((marshal_value v (writer [] big)).bytes ++ rest) p
over_value v bs rest p h =
    rw (value_shift v bs h, append_assoc bs (marshal_value v (writer [] big)).bytes rest)

-- The switch on the type of the value, over that value.
case_read :
    (v : Value) (bs rest : List ℕ) (inner : D Variant)
    → IsInRange v
    → length (marshal_value v (writer bs big)).bytes + length rest < 2 ^ 32
    → variant_case inner
        (type_of (begin (signature_of (value_signature v))))
        (over (marshal_value v (writer bs big)) rest (length bs))
      ≡ ok (
        variant_of v,
        over
            (marshal_value v (writer bs big))
            rest
            (length (marshal_value v (writer bs big)).bytes),
      )
case_read v bs rest inner range small = rw (
  type_of-value_signature v,
  variant_case-value_type v inner,
  demarshal_value-marshal_value v (writer bs big) rest range small,
)

-- A variant of a value in range, written in big endian order where the value is aligned behind
-- the signature, is read back by demarshal_variant, and the reader is left behind it, in a
-- buffer of fewer than 2 ^ 32 bytes.
pub demarshal_variant-marshal_variant :
    (v : Value) (bs rest : List ℕ) (fuel : ℕ)
    → IsInRange v
    → (length bs + 3) % value_alignment v ≡ 0
    → length (marshal_variant (variant_of v) (writer bs big)).bytes + length rest < 2 ^ 32
    → demarshal_variant
        (suc fuel)
        (over (marshal_variant (variant_of v) (writer bs big)) rest (length bs))
      ≡ ok (
        variant_of v,
        over
            (marshal_variant (variant_of v) (writer bs big))
            rest
            (length (marshal_variant (variant_of v) (writer bs big)).bytes),
      )
unfolding demarshal_variant Writer.marshal_signature Writer.push_all Writer.push_back
demarshal_variant-marshal_variant v bs rest fuel range aligned small =
    let sig : Marshaling = Writer.marshal_signature (value_signature v) (writer bs big) in
    let there : length sig.bytes % value_alignment v ≡ 0 =
      rw (length-marshal_signature v bs) aligned in
    let kept : List ℕ = (marshal_value v (writer [] big)).bytes in
    let fits : length (marshal_value v (writer sig.bytes big)).bytes + length rest < 2 ^ 32 =
      rw (marshal_variant-eq v bs there) at small in
    let all : length sig.bytes + length (kept ++ rest) < 2 ^ 32 = omega (
      arith,
      ap (λ (m : Marshaling). length m.bytes) (value_shift v sig.bytes there),
      length-append sig.bytes kept,
      length-append kept rest,
      fits,
    ) in
    rw (marshal_variant-eq v bs there) (
      rw
        (
          over_value v sig.bytes rest (length bs) there,
          signature_read (value_signature v) bs big (kept ++ rest)
              (omega (arith, length-value_signature v)) all,
        )
        (ap
            (variant_case (demarshal_variant fuel)
              (type_of (begin (signature_of (value_signature v)))))
            (sym (over_value v sig.bytes rest (length sig.bytes) there))
          ∙ case_read v sig.bytes rest (demarshal_variant fuel) range fits))

-- A variant of a number gives it back.
pub to_uint32-variant_of : (n : ℕ) → n < 2 ^ 32 → to_uint32 (variant_of (uint32_value n)) ≡ ok n
unfolding to_uint32 variant_of marshal_value Writer.marshal_uint32 Writer.marshal_int_big
    Writer.align Writer.push_all
to_uint32-variant_of n h = rw (uint32_read n [] big [] h (omega arith))
