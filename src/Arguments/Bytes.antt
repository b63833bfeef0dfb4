-- ===== src/Arguments/Bytes.antt =====
-- The bytes that arguments take in the body of a message (dbus-cxx/messageappenditerator.cpp).
use dbus_cxx.Common.{
  ℕ, ◌%◌, ◌≡◌, refl, List, [], ◌∷◌, ◌++◌, append_assoc, append-nil, length, replicate,
}
use dbus_cxx.Wire.Words.{big, byte0, byte1, byte2, byte3, u32, to_u16, to_u32, to_u64}
use dbus_cxx.Wire.Padding.{padding}
use dbus_cxx.Wire.RoundTrip.{
  padded, marshal_short_big-bytes, marshal_int_big-bytes, marshal_long_big-bytes,
}
use dbus_cxx.Wire.Writer
use dbus_cxx.Wire.Writer.{Marshaling, bool_to_int}
use dbus_cxx.Wire.Numbers.{writer}
use dbus_cxx.Wire.Variant.{
  Value, byte_value, bool_value, int16_value, uint16_value, int32_value, uint32_value, int64_value,
  uint64_value, double_value, string_value, path_value, signature_value, marshal_value,
}
use dbus_cxx.Arguments.{marshal_chars, marshal_argument}

pub marshal_chars-bytes : (s bs : List ℕ) → marshal_chars s (writer bs big) ≡ writer (bs ++ s) big
unfolding marshal_chars Writer.marshal_uint8 Writer.push_back
marshal_chars-bytes [] bs = rw append-nil
marshal_chars-bytes (c ∷ s) bs =
    rw (marshal_chars-bytes s (bs ++ (c ∷ [])), append_assoc bs (c ∷ []) s)

-- A signature that is written character by character is written as by Marshaling.
pub marshal_argument-marshal_value :
    (v : Value) (bs : List ℕ) → marshal_argument v (writer bs big) ≡ marshal_value v (writer bs big)
unfolding marshal_argument marshal_value Writer.marshal_signature Writer.marshal_uint8
    Writer.push_back Writer.push_all
marshal_argument-marshal_value (byte_value v) bs = refl
marshal_argument-marshal_value (bool_value v) bs = refl
marshal_argument-marshal_value (int16_value v) bs = refl
marshal_argument-marshal_value (uint16_value v) bs = refl
marshal_argument-marshal_value (int32_value v) bs = refl
marshal_argument-marshal_value (uint32_value v) bs = refl
marshal_argument-marshal_value (int64_value v) bs = refl
marshal_argument-marshal_value (uint64_value v) bs = refl
marshal_argument-marshal_value (double_value v) bs = refl
marshal_argument-marshal_value (string_value v) bs = refl
marshal_argument-marshal_value (path_value v) bs = refl
marshal_argument-marshal_value (signature_value s) bs =
    rw (marshal_chars-bytes s (bs ++ (length s % 256 ∷ [])))

-- What a value adds behind `bs`.
abbrev pub Grows : Value → List ℕ → Type 0
Grows v bs = (x : List ℕ) × (marshal_value v (writer bs big) ≡ writer (bs ++ x) big)

word_grows :
    (n : ℕ) (w bs : List ℕ)
    → (x : List ℕ) × (writer (padded n (writer bs big) ++ w) big ≡ writer (bs ++ x) big)
word_grows n w bs = (
  replicate (padding n (length bs)) 0 ++ w,
  rw (append_assoc bs (replicate (padding n (length bs)) 0) w),
)

text_grows :
    (s bs : List ℕ)
    → (x : List ℕ) × (Writer.marshal_string s (writer bs big) ≡ writer (bs ++ x) big)
unfolding Writer.marshal_string Writer.push_back Writer.push_all Writer.marshal_uint32
text_grows s bs =
    let n : ℕ = u32 (length s) in
    (
      replicate (padding 4 (length bs)) 0
          ++ (byte3 n ∷ byte2 n ∷ byte1 n ∷ byte0 n ∷ (s ++ (0 ∷ []))),
      rw (marshal_int_big-bytes n (writer bs big)) (simp append_assoc),
    )

pub marshal_value-Grows : (v : Value) (bs : List ℕ) → Grows v bs
unfolding marshal_value Writer.marshal_uint8 Writer.push_back Writer.marshal_bool
    Writer.marshal_int16 Writer.marshal_uint16 Writer.marshal_int32 Writer.marshal_uint32
    Writer.marshal_int64 Writer.marshal_uint64 Writer.marshal_double Writer.marshal_path
    Writer.marshal_signature Writer.push_all
marshal_value-Grows (byte_value v) bs = (v ∷ [], refl)
marshal_value-Grows (bool_value v) bs =
    rw (marshal_int_big-bytes (bool_to_int v) (writer bs big)) (word_grows 4 _ bs)
marshal_value-Grows (int16_value v) bs =
    rw (marshal_short_big-bytes (to_u16 v) (writer bs big)) (word_grows 2 _ bs)
marshal_value-Grows (uint16_value v) bs =
    rw (marshal_short_big-bytes v (writer bs big)) (word_grows 2 _ bs)
marshal_value-Grows (int32_value v) bs =
    rw (marshal_int_big-bytes (to_u32 v) (writer bs big)) (word_grows 4 _ bs)
marshal_value-Grows (uint32_value v) bs =
    rw (marshal_int_big-bytes v (writer bs big)) (word_grows 4 _ bs)
marshal_value-Grows (int64_value v) bs =
    rw (marshal_long_big-bytes (to_u64 v) (writer bs big)) (word_grows 8 _ bs)
marshal_value-Grows (uint64_value v) bs =
    rw (marshal_long_big-bytes v (writer bs big)) (word_grows 8 _ bs)
marshal_value-Grows (double_value v) bs =
    rw (marshal_long_big-bytes v (writer bs big)) (word_grows 8 _ bs)
marshal_value-Grows (string_value s) bs = text_grows s bs
marshal_value-Grows (path_value s) bs = text_grows s bs
marshal_value-Grows (signature_value s) bs = (length s % 256 ∷ (s ++ (0 ∷ [])), simp append_assoc)
