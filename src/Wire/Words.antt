-- ===== src/Wire/Words.antt =====
-- C++ integers of a fixed width as numbers: the bytes of a word and their concatenation, the
-- wrap-around of uint32_t, and the two's complement patterns of the signed types. A mask and a
-- shift, `( v & 0xFF00 ) >> 8`, is written as a quotient and a remainder, `v / 2 ^ 8 % 256`; an
-- `|` of shifted bytes, whose bits are disjoint, is written as a sum.
use dbus_cxx.Common.{ℕ, ◌+◌, ◌-◌, ◌*◌, ◌/◌, ◌%◌, ◌^◌, ◌<◌, ◌≡◌, ltb, if◌then◌else◌, arith}

pub data Endianess : Type 0 where
  little big : Endianess

abbrev pub IsByte : ℕ → Type 0
IsByte b = b < 256

abbrev pub u32 : ℕ → ℕ
u32 n = n % 2 ^ 32

-- Byte `k` of `v`, the lowest first.
abbrev pub byte0 : ℕ → ℕ
byte0 v = v % 256

abbrev pub byte1 : ℕ → ℕ
byte1 v = v / 2 ^ 8 % 256

abbrev pub byte2 : ℕ → ℕ
byte2 v = v / 2 ^ 16 % 256

abbrev pub byte3 : ℕ → ℕ
byte3 v = v / 2 ^ 24 % 256

abbrev pub byte4 : ℕ → ℕ
byte4 v = v / 2 ^ 32 % 256

abbrev pub byte5 : ℕ → ℕ
byte5 v = v / 2 ^ 40 % 256

abbrev pub byte6 : ℕ → ℕ
byte6 v = v / 2 ^ 48 % 256

abbrev pub byte7 : ℕ → ℕ
byte7 v = v / 2 ^ 56 % 256

-- The words with the given bytes, the lowest first.
abbrev pub short_of : ℕ → ℕ → ℕ
short_of a b = a + b * 2 ^ 8

abbrev pub int_of : ℕ → ℕ → ℕ → ℕ → ℕ
int_of a b c d = a + b * 2 ^ 8 + c * 2 ^ 16 + d * 2 ^ 24

abbrev pub long_of : ℕ → ℕ → ℕ → ℕ → ℕ → ℕ → ℕ → ℕ → ℕ
long_of a b c d e f g h =
    a + b * 2 ^ 8 + c * 2 ^ 16 + d * 2 ^ 24 + e * 2 ^ 32 + f * 2 ^ 40 + g * 2 ^ 48 + h * 2 ^ 56

pub short_bytes : (v : ℕ) → v < 2 ^ 16 → short_of (byte0 v) (byte1 v) ≡ v
short_bytes v h = omega arith

pub int_bytes : (v : ℕ) → v < 2 ^ 32 → int_of (byte0 v) (byte1 v) (byte2 v) (byte3 v) ≡ v
int_bytes v h = omega arith

pub long_bytes :
    (v : ℕ)
    → v < 2 ^ 64
    → long_of (byte0 v) (byte1 v) (byte2 v) (byte3 v) (byte4 v) (byte5 v) (byte6 v) (byte7 v) ≡ v
long_bytes v h = omega arith

-- A signed integer: `negsuc n` is -(n + 1).
pub data ℤ : Type 0 where
  pos : ℕ → ℤ
  negsuc : ℕ → ℤ

-- The conversions between a signed integer and its pattern of 16, 32 or 64 bits.
abbrev pub to_u16 : ℤ → ℕ
to_u16 (pos n) = n % 2 ^ 16
to_u16 (negsuc n) = (2 ^ 16 - 1) - n % 2 ^ 16

abbrev pub to_u32 : ℤ → ℕ
to_u32 (pos n) = n % 2 ^ 32
to_u32 (negsuc n) = (2 ^ 32 - 1) - n % 2 ^ 32

abbrev pub to_u64 : ℤ → ℕ
to_u64 (pos n) = n % 2 ^ 64
to_u64 (negsuc n) = (2 ^ 64 - 1) - n % 2 ^ 64

abbrev pub to_i16 : ℕ → ℤ
to_i16 w = if ltb w (2 ^ 15) then pos w else negsuc (2 ^ 16 - 1 - w)

abbrev pub to_i32 : ℕ → ℤ
to_i32 w = if ltb w (2 ^ 31) then pos w else negsuc (2 ^ 32 - 1 - w)

abbrev pub to_i64 : ℕ → ℤ
to_i64 w = if ltb w (2 ^ 63) then pos w else negsuc (2 ^ 64 - 1 - w)

-- The integers that a signed type with `half` nonnegative values holds.
abbrev pub IsSigned : ℕ → ℤ → Type 0
IsSigned half (pos n) = n < half
IsSigned half (negsuc n) = n < half

pub to_i16-to_u16 : (z : ℤ) → IsSigned (2 ^ 15) z → (to_i16 (to_u16 z) ≡ z) × (to_u16 z < 2 ^ 16)
to_i16-to_u16 (pos n) h = ground arith
to_i16-to_u16 (negsuc n) h = ground arith

pub to_i32-to_u32 : (z : ℤ) → IsSigned (2 ^ 31) z → (to_i32 (to_u32 z) ≡ z) × (to_u32 z < 2 ^ 32)
to_i32-to_u32 (pos n) h = ground arith
to_i32-to_u32 (negsuc n) h = ground arith

pub to_i64-to_u64 : (z : ℤ) → IsSigned (2 ^ 63) z → (to_i64 (to_u64 z) ≡ z) × (to_u64 z < 2 ^ 64)
to_i64-to_u64 (pos n) h = ground arith
to_i64-to_u64 (negsuc n) h = ground arith
