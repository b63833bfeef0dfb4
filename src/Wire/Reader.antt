-- ===== src/Wire/Reader.antt =====
-- The class Demarshaling of dbus-cxx/demarshaling.cpp: a cursor over a buffer of bytes. `is_valid`
-- is an `assert`: where it fails the program aborts. A read that no assertion guards may leave the
-- buffer: that is `fault`. `raise` is a C++ exception. `stuck` is no outcome of the program: a loop of the model on fuel ran
-- out of it.
use dbus_cxx.Common.{
  ℕ, zero, suc, ◌+◌, ◌-◌, ◌%◌, List, [], ◌∷◌, Bool, true, not, some, none, length, get_elem?, ◌==◌,
  leb, if◌then◌else◌,
}
use dbus_cxx.Wire.Words.{
  Endianess, little, big, u32, short_of, int_of, long_of, ℤ, pos, negsuc, to_i16, to_i32, to_i64,
}

pub data Outcome {ℓ} (A : Type ℓ) : Type ℓ where
  ok : A → Outcome A
  abort : Outcome A
  fault : Outcome A
  raise : Outcome A
  stuck : Outcome A

-- `m_data` with its `m_dataLen` bytes, `m_dataPos` and `m_endian`.
pub record Demarshaling : Type 0 where
  pub bytes : List ℕ
  pub pos : ℕ
  pub endian : Endianess

abbrev pub D : Type 0 → Type 0
D A = Demarshaling → Outcome (A × Demarshaling)

-- An outcome, and what is done with its value.
abbrev pub and_then : {A B : Type 0} → Outcome A → (A → Outcome B) → Outcome B
and_then (ok a) f = f a
and_then abort f = abort
and_then fault f = fault
and_then raise f = raise
and_then stuck f = stuck

abbrev pub then_on :
    {A B : Type 0} → Outcome (A × Demarshaling) → (A → D B) → Outcome (B × Demarshaling)
then_on (ok (a, r)) f = f a r
then_on abort f = abort
then_on fault f = fault
then_on raise f = raise
then_on stuck f = stuck

abbrev pub pure : {A : Type 0} → A → D A
pure a r = ok (a, r)

infixl 5 ◌>>=◌ ◌>>◌
abbrev pub ◌>>=◌ : {A B : Type 0} → D A → (A → D B) → D B
◌>>=◌ m f r = then_on (m r) f

abbrev pub ◌>>◌ : {B : Type 0} → D (Unit {0}) → D B → D B
m >> k = m >>= λ _. k

-- `assert( ( m_dataPos + bytesWanted ) <= m_dataLen )`, in the arithmetic of uint32_t.
unfoldable pub is_valid : ℕ → D (Unit {0})
is_valid wanted r = if leb (u32 (r.pos + wanted)) (length r.bytes) then ok (tt, r) else abort

-- `m_data[ m_dataPos + i ]`
unfoldable pub byte_at : ℕ → D ℕ
byte_at i r = elim (get_elem? r.bytes (u32 (r.pos + i))) [ none ↦ fault | some b ↦ ok (b, r) ]

unfoldable pub advance : ℕ → D (Unit {0})
advance n r = ok (tt, record r { pos = u32 (r.pos + n) })

unfoldable pub align : ℕ → D (Unit {0})
align alignment r =
    if alignment == 0
    then ok (tt, r)
    else (let bytes_to_align = alignment - r.pos % alignment in
        if bytes_to_align == alignment
        then ok (tt, r)
        else ok (tt, record r { pos = u32 (r.pos + bytes_to_align) }))

unfoldable pub demarshal_uint8 : D ℕ
demarshal_uint8 = do is_valid 1; b ← byte_at 0; advance 1; pure b

unfoldable pub demarshal_short_big : D ℕ
demarshal_short_big = do
  align 2
  is_valid 2
  a ← byte_at 0
  b ← byte_at 1
  advance 2
  pure (short_of b a)

unfoldable pub demarshal_short_little : D ℕ
demarshal_short_little = do
  align 2
  is_valid 2
  a ← byte_at 0
  b ← byte_at 1
  advance 2
  pure (short_of a b)

unfoldable pub demarshal_int_big : D ℕ
demarshal_int_big = do
  align 4
  is_valid 4
  a ← byte_at 0
  b ← byte_at 1
  c ← byte_at 2
  d ← byte_at 3
  advance 4
  pure (int_of d c b a)

unfoldable pub demarshal_int_little : D ℕ
demarshal_int_little = do
  align 4
  is_valid 4
  a ← byte_at 0
  b ← byte_at 1
  c ← byte_at 2
  d ← byte_at 3
  advance 4
  pure (int_of a b c d)

unfoldable pub demarshal_long_big : D ℕ
demarshal_long_big = do
  align 8
  is_valid 8
  a ← byte_at 0
  b ← byte_at 1
  c ← byte_at 2
  d ← byte_at 3
  e ← byte_at 4
  f ← byte_at 5
  g ← byte_at 6
  h ← byte_at 7
  advance 8
  pure (long_of h g f e d c b a)

unfoldable pub demarshal_long_little : D ℕ
demarshal_long_little = do
  align 8
  is_valid 8
  a ← byte_at 0
  b ← byte_at 1
  c ← byte_at 2
  d ← byte_at 3
  e ← byte_at 4
  f ← byte_at 5
  g ← byte_at 6
  h ← byte_at 7
  advance 8
  pure (long_of a b c d e f g h)

abbrev pub if_little : {A : Type 0} → D A → D A → D A
if_little x y r = elim r.endian [ little ↦ x r | big ↦ y r ]

unfoldable pub demarshal_uint16 : D ℕ
demarshal_uint16 = if_little demarshal_short_little demarshal_short_big

unfoldable pub demarshal_uint32 : D ℕ
demarshal_uint32 = if_little demarshal_int_little demarshal_int_big

unfoldable pub demarshal_uint64 : D ℕ
demarshal_uint64 = if_little demarshal_long_little demarshal_long_big

-- The helpers return a signed integer, which is the pattern read as one.
unfoldable pub demarshal_int16 : D ℤ
demarshal_int16 = do w ← if_little demarshal_short_little demarshal_short_big; pure (to_i16 w)

unfoldable pub demarshal_int32 : D ℤ
demarshal_int32 = do w ← if_little demarshal_int_little demarshal_int_big; pure (to_i32 w)

unfoldable pub demarshal_int64 : D ℤ
demarshal_int64 = do w ← if_little demarshal_long_little demarshal_long_big; pure (to_i64 w)

abbrev pub is_nonzero : ℤ → Bool
is_nonzero (pos n) = not (n == 0)
is_nonzero (negsuc n) = true

-- `if( val ) return true; return false;`
unfoldable pub demarshal_boolean : D Bool
demarshal_boolean = do z ← demarshal_int32; pure (is_nonzero z)

-- The pattern of the double, as the code's `memcpy` copies it.
unfoldable pub demarshal_double : D ℕ
demarshal_double = if_little demarshal_long_little demarshal_long_big

-- `std::string( start, len )` from offset `i` on: it reads `len` bytes.
unfoldable pub chars_at : ℕ → ℕ → D (List ℕ)
chars_at zero i r = ok ([], r)
chars_at (suc len) i r = elim (get_elem? r.bytes (r.pos + i)) [
  | none ↦ fault
  | some c ↦ then_on (chars_at len (i + 1) r) (λ cs. pure (c ∷ cs))
]

-- `is_valid( len + 1 )` is computed in uint32_t.
unfoldable pub demarshal_string : D (List ℕ)
demarshal_string = do
  len ← demarshal_uint32
  is_valid (u32 (len + 1))
  s ← chars_at len 0
  advance (u32 (len + 1))
  pure s

unfoldable pub demarshal_path : D (List ℕ)
demarshal_path = demarshal_string

-- The text of the signature. No assertion covers the bytes that the length byte announces.
unfoldable pub demarshal_signature : D (List ℕ)
demarshal_signature = do len ← demarshal_uint8; s ← chars_at len 0; advance (len + 1); pure s

unfoldable pub current_offset : Demarshaling → ℕ
current_offset r = r.pos

unfoldable pub set_endianess : Endianess → Demarshaling → Demarshaling
set_endianess e r = record r { endian = e }

unfoldable pub set_data_offset : ℕ → Demarshaling → Demarshaling
set_data_offset offset r = record r { pos = offset }
