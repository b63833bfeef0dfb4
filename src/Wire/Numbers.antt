-- ===== src/Wire/Numbers.antt =====
-- Numbers of every width, in both byte orders, and Booleans (dbus-cxx/marshaling.cpp and
-- demarshaling.cpp).
use dbus_cxx.Common.{ℕ, ◌+◌, ◌<◌, ◌^◌, ◌≡◌, List, Bool, true, false, length, arith}
use dbus_cxx.Wire.Words.{
  Endianess, little, big, ℤ, IsSigned, to_u16, to_u32, to_u64, to_i16-to_u16, to_i32-to_u32,
  to_i64-to_u64,
}
use dbus_cxx.Wire.Writer
use dbus_cxx.Wire.Writer.{Marshaling, bool_to_int}
use dbus_cxx.Wire.Reader
use dbus_cxx.Wire.Reader.{Demarshaling, Outcome, D, ok, is_nonzero}
use dbus_cxx.Wire.RoundTrip.{
  over, marshal_short_big-bytes, marshal_short_little-bytes, marshal_int_big-bytes,
  marshal_int_little-bytes, marshal_long_big-bytes, marshal_long_little-bytes,
  marshal_short_big_read, marshal_short_little_read, marshal_int_big_read, marshal_int_little_read,
  marshal_long_big_read, marshal_long_little_read,
}

-- A writer in the state that is given by its parts.
abbrev pub writer : List ℕ → Endianess → Marshaling
writer bs e = record { bytes = bs; endian = e }

pub uint16_read :
    (v : ℕ) (bs : List ℕ) (e : Endianess) (rest : List ℕ)
    → v < 2 ^ 16
    → length (Writer.marshal_uint16 v (writer bs e)).bytes + length rest < 2 ^ 32
    → Reader.demarshal_uint16 (over (Writer.marshal_uint16 v (writer bs e)) rest (length bs))
      ≡ ok (
        v,
        over
            (Writer.marshal_uint16 v (writer bs e))
            rest
            (length (Writer.marshal_uint16 v (writer bs e)).bytes),
      )
unfolding Writer.marshal_uint16 Reader.demarshal_uint16
uint16_read v bs little rest h small = rw (marshal_short_little-bytes v (writer bs little)) (
    rw (marshal_short_little-bytes v (writer bs little)) at
      (marshal_short_little_read v (writer bs little) rest h small))
uint16_read v bs big rest h small = rw (marshal_short_big-bytes v (writer bs big)) (
    rw (marshal_short_big-bytes v (writer bs big)) at
      (marshal_short_big_read v (writer bs big) rest h small))

pub uint32_read :
    (v : ℕ) (bs : List ℕ) (e : Endianess) (rest : List ℕ)
    → v < 2 ^ 32
    → length (Writer.marshal_uint32 v (writer bs e)).bytes + length rest < 2 ^ 32
    → Reader.demarshal_uint32 (over (Writer.marshal_uint32 v (writer bs e)) rest (length bs))
      ≡ ok (
        v,
        over
            (Writer.marshal_uint32 v (writer bs e))
            rest
            (length (Writer.marshal_uint32 v (writer bs e)).bytes),
      )
unfolding Writer.marshal_uint32 Reader.demarshal_uint32
uint32_read v bs little rest h small = rw (marshal_int_little-bytes v (writer bs little)) (
    rw (marshal_int_little-bytes v (writer bs little)) at
      (marshal_int_little_read v (writer bs little) rest h small))
uint32_read v bs big rest h small = rw (marshal_int_big-bytes v (writer bs big)) (
    rw (marshal_int_big-bytes v (writer bs big)) at
      (marshal_int_big_read v (writer bs big) rest h small))

pub uint64_read :
    (v : ℕ) (bs : List ℕ) (e : Endianess) (rest : List ℕ)
    → v < 2 ^ 64
    → length (Writer.marshal_uint64 v (writer bs e)).bytes + length rest < 2 ^ 32
    → Reader.demarshal_uint64 (over (Writer.marshal_uint64 v (writer bs e)) rest (length bs))
      ≡ ok (
        v,
        over
            (Writer.marshal_uint64 v (writer bs e))
            rest
            (length (Writer.marshal_uint64 v (writer bs e)).bytes),
      )
unfolding Writer.marshal_uint64 Reader.demarshal_uint64
uint64_read v bs little rest h small = rw (marshal_long_little-bytes v (writer bs little)) (
    rw (marshal_long_little-bytes v (writer bs little)) at
      (marshal_long_little_read v (writer bs little) rest h small))
uint64_read v bs big rest h small = rw (marshal_long_big-bytes v (writer bs big)) (
    rw (marshal_long_big-bytes v (writer bs big)) at
      (marshal_long_big_read v (writer bs big) rest h small))

pub double_read :
    (v : ℕ) (bs : List ℕ) (e : Endianess) (rest : List ℕ)
    → v < 2 ^ 64
    → length (Writer.marshal_double v (writer bs e)).bytes + length rest < 2 ^ 32
    → Reader.demarshal_double (over (Writer.marshal_double v (writer bs e)) rest (length bs))
      ≡ ok (
        v,
        over
            (Writer.marshal_double v (writer bs e))
            rest
            (length (Writer.marshal_double v (writer bs e)).bytes),
      )
unfolding Writer.marshal_double Reader.demarshal_double
double_read v bs little rest h small = rw (marshal_long_little-bytes v (writer bs little)) (
    rw (marshal_long_little-bytes v (writer bs little)) at
      (marshal_long_little_read v (writer bs little) rest h small))
double_read v bs big rest h small = rw (marshal_long_big-bytes v (writer bs big)) (
    rw (marshal_long_big-bytes v (writer bs big)) at
      (marshal_long_big_read v (writer bs big) rest h small))

pub int16_read :
    (z : ℤ) (bs : List ℕ) (e : Endianess) (rest : List ℕ)
    → IsSigned (2 ^ 15) z
    → length (Writer.marshal_int16 z (writer bs e)).bytes + length rest < 2 ^ 32
    → Reader.demarshal_int16 (over (Writer.marshal_int16 z (writer bs e)) rest (length bs))
      ≡ ok (
        z,
        over
            (Writer.marshal_int16 z (writer bs e))
            rest
            (length (Writer.marshal_int16 z (writer bs e)).bytes),
      )
unfolding Writer.marshal_int16 Reader.demarshal_int16 Writer.marshal_uint16 Reader.demarshal_uint16
int16_read z bs e rest h small =
    rw (uint16_read (to_u16 z) bs e rest (to_i16-to_u16 z h).1 small, (to_i16-to_u16 z h).0)

pub int32_read :
    (z : ℤ) (bs : List ℕ) (e : Endianess) (rest : List ℕ)
    → IsSigned (2 ^ 31) z
    → length (Writer.marshal_int32 z (writer bs e)).bytes + length rest < 2 ^ 32
    → Reader.demarshal_int32 (over (Writer.marshal_int32 z (writer bs e)) rest (length bs))
      ≡ ok (
        z,
        over
            (Writer.marshal_int32 z (writer bs e))
            rest
            (length (Writer.marshal_int32 z (writer bs e)).bytes),
      )
unfolding Writer.marshal_int32 Reader.demarshal_int32 Writer.marshal_uint32 Reader.demarshal_uint32
int32_read z bs e rest h small =
    rw (uint32_read (to_u32 z) bs e rest (to_i32-to_u32 z h).1 small, (to_i32-to_u32 z h).0)

pub int64_read :
    (z : ℤ) (bs : List ℕ) (e : Endianess) (rest : List ℕ)
    → IsSigned (2 ^ 63) z
    → length (Writer.marshal_int64 z (writer bs e)).bytes + length rest < 2 ^ 32
    → Reader.demarshal_int64 (over (Writer.marshal_int64 z (writer bs e)) rest (length bs))
      ≡ ok (
        z,
        over
            (Writer.marshal_int64 z (writer bs e))
            rest
            (length (Writer.marshal_int64 z (writer bs e)).bytes),
      )
unfolding Writer.marshal_int64 Reader.demarshal_int64 Writer.marshal_uint64 Reader.demarshal_uint64
int64_read z bs e rest h small =
    rw (uint64_read (to_u64 z) bs e rest (to_i64-to_u64 z h).1 small, (to_i64-to_u64 z h).0)

pub bool_read :
    (b : Bool) (bs : List ℕ) (e : Endianess) (rest : List ℕ)
    → length (Writer.marshal_bool b (writer bs e)).bytes + length rest < 2 ^ 32
    → Reader.demarshal_boolean (over (Writer.marshal_bool b (writer bs e)) rest (length bs))
      ≡ ok (
        b,
        over
            (Writer.marshal_bool b (writer bs e))
            rest
            (length (Writer.marshal_bool b (writer bs e)).bytes),
      )
unfolding Writer.marshal_bool Reader.demarshal_boolean Writer.marshal_uint32 Reader.demarshal_int32
    Reader.demarshal_uint32
bool_read true bs e rest small = rw (uint32_read 1 bs e rest (omega arith) small)
bool_read false bs e rest small = rw (uint32_read 0 bs e rest (omega arith) small)
