-- ===== src/Wire/Writer.antt =====
-- The class Marshaling of dbus-cxx/marshaling.cpp: it appends to a vector of bytes.
use dbus_cxx.Common.{
  ℕ, zero, suc, ◌+◌, ◌-◌, ◌%◌, List, [], ◌∷◌, ◌++◌, Bool, true, false, length, set, ◌==◌,
  if◌then◌else◌,
}
use dbus_cxx.Wire.Words.{
  Endianess, little, big, u32, byte0, byte1, byte2, byte3, byte4, byte5, byte6, byte7, ℤ, to_u16,
  to_u32, to_u64,
}

-- `m_data` and `m_endian`. The vector that the pointer names is part of the state.
pub record Marshaling : Type 0 where
  pub bytes : List ℕ
  pub endian : Endianess

unfoldable pub push_back : ℕ → Marshaling → Marshaling
push_back b m = record m { bytes = m.bytes ++ (b ∷ []) }

-- `for( int x = 0; x < n; x++ ) push_back( 0 )`
unfoldable pub push_zeros : ℕ → List ℕ → List ℕ
push_zeros zero data_bytes = data_bytes
push_zeros (suc n) data_bytes = push_zeros n (data_bytes ++ (0 ∷ []))

unfoldable pub align : ℕ → Marshaling → Marshaling
align alignment m =
    let bytes_to_align = alignment - length m.bytes % alignment in
    if bytes_to_align == alignment
    then m
    else record m { bytes = push_zeros bytes_to_align m.bytes }

unfoldable pub push_all : List ℕ → Marshaling → Marshaling
push_all bs m = record m { bytes = m.bytes ++ bs }

unfoldable pub marshal_short_big : ℕ → Marshaling → Marshaling
unfolding align push_all
marshal_short_big v m = push_all (byte1 v ∷ byte0 v ∷ []) (align 2 m)

unfoldable pub marshal_int_big : ℕ → Marshaling → Marshaling
unfolding align push_all
marshal_int_big v m = push_all (byte3 v ∷ byte2 v ∷ byte1 v ∷ byte0 v ∷ []) (align 4 m)

unfoldable pub marshal_long_big : ℕ → Marshaling → Marshaling
unfolding align push_all
marshal_long_big v m =
    push_all (byte7 v ∷ byte6 v ∷ byte5 v ∷ byte4 v ∷ byte3 v ∷ byte2 v ∷ byte1 v ∷ byte0 v ∷ [])
      (align 8 m)

unfoldable pub marshal_short_little : ℕ → Marshaling → Marshaling
unfolding align push_all
marshal_short_little v m = push_all (byte0 v ∷ byte1 v ∷ []) (align 2 m)

unfoldable pub marshal_int_little : ℕ → Marshaling → Marshaling
unfolding align push_all
marshal_int_little v m = push_all (byte0 v ∷ byte1 v ∷ byte2 v ∷ byte3 v ∷ []) (align 4 m)

unfoldable pub marshal_long_little : ℕ → Marshaling → Marshaling
unfolding align push_all
marshal_long_little v m =
    push_all (byte0 v ∷ byte1 v ∷ byte2 v ∷ byte3 v ∷ byte4 v ∷ byte5 v ∷ byte6 v ∷ byte7 v ∷ [])
      (align 8 m)

abbrev pub if_big {ℓ} : {A : Type ℓ} → Endianess → A → A → A
if_big big x y = x
if_big little x y = y

unfoldable pub marshal_uint8 : ℕ → Marshaling → Marshaling
unfolding push_back
marshal_uint8 v m = push_back v m

unfoldable pub marshal_uint16 : ℕ → Marshaling → Marshaling
marshal_uint16 v m = if_big m.endian (marshal_short_big v m) (marshal_short_little v m)

unfoldable pub marshal_uint32 : ℕ → Marshaling → Marshaling
marshal_uint32 v m = if_big m.endian (marshal_int_big v m) (marshal_int_little v m)

unfoldable pub marshal_uint64 : ℕ → Marshaling → Marshaling
marshal_uint64 v m = if_big m.endian (marshal_long_big v m) (marshal_long_little v m)

-- A signed argument is converted to the unsigned parameter of the helper.
unfoldable pub marshal_int16 : ℤ → Marshaling → Marshaling
marshal_int16 z m =
    if_big m.endian (marshal_short_big (to_u16 z) m) (marshal_short_little (to_u16 z) m)

unfoldable pub marshal_int32 : ℤ → Marshaling → Marshaling
marshal_int32 z m = if_big m.endian (marshal_int_big (to_u32 z) m) (marshal_int_little (to_u32 z) m)

unfoldable pub marshal_int64 : ℤ → Marshaling → Marshaling
marshal_int64 z m =
    if_big m.endian (marshal_long_big (to_u64 z) m) (marshal_long_little (to_u64 z) m)

abbrev pub bool_to_int : Bool → ℕ
bool_to_int true = 1
bool_to_int false = 0

unfoldable pub marshal_bool : Bool → Marshaling → Marshaling
marshal_bool b m =
    if_big m.endian (marshal_int_big (bool_to_int b) m) (marshal_int_little (bool_to_int b) m)

-- A double is its pattern of 64 bits, which is all that the code's `memcpy` uses of it.
unfoldable pub marshal_double : ℕ → Marshaling → Marshaling
marshal_double pattern_bits m =
    if_big m.endian (marshal_long_big pattern_bits m) (marshal_long_little pattern_bits m)

-- `uint32_t len = v.size()`, the length word, the characters, and a null byte.
unfoldable pub marshal_string : List ℕ → Marshaling → Marshaling
unfolding push_back push_all
marshal_string s m = push_back 0 (push_all s (marshal_uint32 (u32 (length s)) m))

unfoldable pub marshal_path : List ℕ → Marshaling → Marshaling
marshal_path p m = marshal_string p m

-- The argument is the text of the signature.
unfoldable pub marshal_signature : List ℕ → Marshaling → Marshaling
unfolding push_back push_all
marshal_signature s m = push_back 0 (push_all s (push_back (length s % 256) m))

-- A variant is written as its signature and the bytes that it keeps.
unfoldable pub marshal_variant : List ℕ → List ℕ → Marshaling → Marshaling
unfolding push_all
marshal_variant sig marshaled m = push_all marshaled (marshal_signature sig m)

unfoldable pub marshal_at_offset : ℕ → ℕ → Marshaling → Marshaling
marshal_at_offset offset value m =
    let put = λ (a b c d : ℕ).
      set (set (set (set m.bytes offset a) (offset + 1) b) (offset + 2) c) (offset + 3) d in
    record m {
      bytes =
          if_big m.endian (put (byte3 value) (byte2 value) (byte1 value) (byte0 value))
            (put (byte0 value) (byte1 value) (byte2 value) (byte3 value));
    }

unfoldable pub current_offset : Marshaling → ℕ
current_offset m = u32 (length m.bytes)

unfoldable pub set_data : List ℕ → Marshaling → Marshaling
set_data bs m = record m { bytes = bs }

unfoldable pub set_endianess : Endianess → Marshaling → Marshaling
set_endianess e m = record m { endian = e }
