-- ===== src/Wire/Placed.antt =====
-- Where a value stands behind other bytes (dbus-cxx/marshaling.cpp).
use dbus_cxx.Common.{
  ℕ, ◌%◌, ◌<◌, ◌≤◌, ◌≡◌, refl, List, [], ◌∷◌, ◌++◌, length, length-append, append_assoc, append-nil,
  inl, inr, arith,
}
use dbus_cxx.Wire.Words.{big, u32, to_u16, to_u32, to_u64}
use dbus_cxx.Wire.Padding.{padding, IsWidth}
use dbus_cxx.Wire.Writer
use dbus_cxx.Wire.Writer.{Marshaling}
use dbus_cxx.Wire.RoundTrip.{
  padded, marshal_short_big-bytes, marshal_int_big-bytes, marshal_long_big-bytes,
}
use dbus_cxx.Wire.Numbers.{writer}
use dbus_cxx.Wire.Variant.{
  Value, byte_value, bool_value, int16_value, uint16_value, int32_value, uint32_value, int64_value,
  uint64_value, double_value, string_value, path_value, signature_value, value_alignment,
  marshal_value,
}

short_placed :
    (v : ℕ) (bs : List ℕ)
    → Writer.marshal_short_big v (writer bs big)
      ≡ writer (padded 2 (writer bs big) ++ (Writer.marshal_short_big v (writer [] big)).bytes) big
short_placed v bs =
    rw (marshal_short_big-bytes v (writer bs big), marshal_short_big-bytes v (writer [] big))

int_placed :
    (v : ℕ) (bs : List ℕ)
    → Writer.marshal_int_big v (writer bs big)
      ≡ writer (padded 4 (writer bs big) ++ (Writer.marshal_int_big v (writer [] big)).bytes) big
int_placed v bs =
    rw (marshal_int_big-bytes v (writer bs big), marshal_int_big-bytes v (writer [] big))

long_placed :
    (v : ℕ) (bs : List ℕ)
    → Writer.marshal_long_big v (writer bs big)
      ≡ writer (padded 8 (writer bs big) ++ (Writer.marshal_long_big v (writer [] big)).bytes) big
long_placed v bs =
    rw (marshal_long_big-bytes v (writer bs big), marshal_long_big-bytes v (writer [] big))

string_placed :
    (s bs : List ℕ)
    → Writer.marshal_string s (writer bs big)
      ≡ writer (padded 4 (writer bs big) ++ (Writer.marshal_string s (writer [] big)).bytes) big
unfolding Writer.marshal_string Writer.marshal_uint32 Writer.push_all Writer.push_back
string_placed s bs =
    let word : List ℕ = (Writer.marshal_int_big (u32 (length s)) (writer [] big)).bytes in
    rw (
      int_placed (u32 (length s)) bs,
      append_assoc (padded 4 (writer bs big)) word s,
      append_assoc (padded 4 (writer bs big)) (word ++ s) (0 ∷ []),
    )

padded_byte : (bs : List ℕ) → padded 1 (writer bs big) ≡ bs
padded_byte bs = let none : padding 1 (length bs) ≡ 0 = omega arith in rw (none, append-nil)

-- A value is written behind the padding to its alignment as it is at the start of a buffer.
pub value_placed :
    (v : Value) (bs : List ℕ)
    → marshal_value v (writer bs big)
      ≡ writer
          (padded (value_alignment v) (writer bs big) ++ (marshal_value v (writer [] big)).bytes)
          big
unfolding marshal_value value_alignment
value_placed (byte_value v) bs = unfold Writer.marshal_uint8 Writer.push_back in rw padded_byte
value_placed (bool_value v) bs = unfold Writer.marshal_bool in int_placed (Writer.bool_to_int v) bs
value_placed (int16_value v) bs = unfold Writer.marshal_int16 in short_placed (to_u16 v) bs
value_placed (uint16_value v) bs = unfold Writer.marshal_uint16 in short_placed v bs
value_placed (int32_value v) bs = unfold Writer.marshal_int32 in int_placed (to_u32 v) bs
value_placed (uint32_value v) bs = unfold Writer.marshal_uint32 in int_placed v bs
value_placed (int64_value v) bs = unfold Writer.marshal_int64 in long_placed (to_u64 v) bs
value_placed (uint64_value v) bs = unfold Writer.marshal_uint64 in long_placed v bs
value_placed (double_value v) bs = unfold Writer.marshal_double in long_placed v bs
value_placed (string_value v) bs = string_placed v bs
value_placed (path_value v) bs = unfold Writer.marshal_path in string_placed v bs
value_placed (signature_value v) bs =
    unfold Writer.marshal_signature Writer.push_all Writer.push_back in
    rw padded_byte (simp append_assoc)

pub value_alignment-IsWidth : (v : Value) → IsWidth (value_alignment v)
unfolding value_alignment
value_alignment-IsWidth (byte_value v) = inl refl
value_alignment-IsWidth (bool_value v) = inr (inr (inl refl))
value_alignment-IsWidth (int16_value v) = inr (inl refl)
value_alignment-IsWidth (uint16_value v) = inr (inl refl)
value_alignment-IsWidth (int32_value v) = inr (inr (inl refl))
value_alignment-IsWidth (uint32_value v) = inr (inr (inl refl))
value_alignment-IsWidth (int64_value v) = inr (inr (inr refl))
value_alignment-IsWidth (uint64_value v) = inr (inr (inr refl))
value_alignment-IsWidth (double_value v) = inr (inr (inr refl))
value_alignment-IsWidth (string_value v) = inr (inr (inl refl))
value_alignment-IsWidth (path_value v) = inr (inr (inl refl))
value_alignment-IsWidth (signature_value v) = inl refl

-- Nothing is padded at a multiple.
pub padding_aligned : (a n : ℕ) → IsWidth a → n % a ≡ 0 → padding a n ≡ 0
padding_aligned a n w h = ground arith

pub padded_aligned :
    (a : ℕ) (bs : List ℕ) → IsWidth a → length bs % a ≡ 0 → padded a (writer bs big) ≡ bs
padded_aligned a bs w h = rw (padding_aligned a (length bs) w h, append-nil)

-- At a multiple of its alignment a value is written as it is at the start of a buffer.
pub value_shift :
    (v : Value) (bs : List ℕ)
    → length bs % value_alignment v ≡ 0
    → marshal_value v (writer bs big) ≡ writer (bs ++ (marshal_value v (writer [] big)).bytes) big
value_shift v bs h =
    rw (padded_aligned (value_alignment v) bs (value_alignment-IsWidth v) h) at (value_placed v bs)

abbrev word_of : List ℕ → List ℕ
word_of s = (Writer.marshal_uint32 (u32 (length s)) (writer [] big)).bytes

-- No value takes fewer bytes than its alignment.
pub value_alignment-length :
    (v : Value) → value_alignment v ≤ length (marshal_value v (writer [] big)).bytes
unfolding marshal_value value_alignment Writer.marshal_uint8 Writer.marshal_uint16
    Writer.marshal_uint32 Writer.marshal_uint64 Writer.marshal_int16 Writer.marshal_int32
    Writer.marshal_int64 Writer.marshal_bool Writer.marshal_double Writer.marshal_short_big
    Writer.marshal_int_big Writer.marshal_long_big Writer.marshal_path Writer.marshal_string
    Writer.marshal_signature Writer.align Writer.push_all Writer.push_back
value_alignment-length (byte_value v) = omega arith
value_alignment-length (bool_value v) = omega arith
value_alignment-length (int16_value v) = omega arith
value_alignment-length (uint16_value v) = omega arith
value_alignment-length (int32_value v) = omega arith
value_alignment-length (uint32_value v) = omega arith
value_alignment-length (int64_value v) = omega arith
value_alignment-length (uint64_value v) = omega arith
value_alignment-length (double_value v) = omega arith
value_alignment-length (string_value s) = omega (arith, length-append (word_of s ++ s) (0 ∷ []))
value_alignment-length (path_value s) = omega (arith, length-append (word_of s ++ s) (0 ∷ []))
value_alignment-length (signature_value s) = omega arith

pub value_alignment-pos : (v : Value) → 0 < value_alignment v
value_alignment-pos v = let w = value_alignment-IsWidth v in ground arith

pub length-kept : (v : Value) → 0 < length (marshal_value v (writer [] big)).bytes
length-kept v = omega (arith, value_alignment-pos v, value_alignment-length v)
