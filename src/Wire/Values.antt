-- ===== src/Wire/Values.antt =====
-- The values of every simple type (dbus-cxx/marshaling.cpp and demarshaling.cpp).
use dbus_cxx.Common.{
  ℕ, ◌+◌, ◌<◌, ◌^◌, ◌≡◌, List, [], ◌∷◌, length, length-append, append_assoc, arith,
}
use dbus_cxx.Wire.Words.{Endianess}
use dbus_cxx.Wire.Writer
use dbus_cxx.Wire.Writer.{Marshaling}
use dbus_cxx.Wire.Reader
use dbus_cxx.Wire.Reader.{Demarshaling, Outcome, ok}
use dbus_cxx.Wire.RoundTrip.{over}
use dbus_cxx.Wire.Numbers.{
  writer, uint16_read, uint32_read, uint64_read, double_read, int16_read, int32_read, int64_read,
  bool_read,
}
use dbus_cxx.Wire.Text.{uint8_read, string_read, signature_read}
use dbus_cxx.Wire.Variant.{
  Value, byte_value, bool_value, int16_value, uint16_value, int32_value, uint32_value, int64_value,
  uint64_value, double_value, string_value, path_value, signature_value, value_type, IsInRange,
  marshal_value, demarshal_value,
}

byte_read :
    (v : ℕ) (bs : List ℕ) (e : Endianess) (rest : List ℕ)
    → length (Writer.marshal_uint8 v (writer bs e)).bytes + length rest < 2 ^ 32
    → demarshal_value
        (value_type (byte_value v))
        (over (Writer.marshal_uint8 v (writer bs e)) rest (length bs))
      ≡ ok (
        byte_value v,
        over
            (Writer.marshal_uint8 v (writer bs e))
            rest
            (length (Writer.marshal_uint8 v (writer bs e)).bytes),
      )
unfolding Writer.marshal_uint8 demarshal_value
byte_read v bs e rest small = rw (
  append_assoc bs (v ∷ []) rest,
  length-append bs (v ∷ []),
  uint8_read v bs rest e (omega (arith, length-append bs (v ∷ []))),
)

path_read :
    (s : List ℕ) (bs : List ℕ) (e : Endianess) (rest : List ℕ)
    → length (Writer.marshal_path s (writer bs e)).bytes + length rest < 2 ^ 32
    → Reader.demarshal_path (over (Writer.marshal_path s (writer bs e)) rest (length bs))
      ≡ ok (
        s,
        over
            (Writer.marshal_path s (writer bs e))
            rest
            (length (Writer.marshal_path s (writer bs e)).bytes),
      )
unfolding Writer.marshal_path Reader.demarshal_path
path_read s bs e rest h = string_read s bs e rest h

value_read :
    (v : Value) (bs : List ℕ) (e : Endianess) (rest : List ℕ)
    → IsInRange v
    → length (marshal_value v (writer bs e)).bytes + length rest < 2 ^ 32
    → demarshal_value (value_type v) (over (marshal_value v (writer bs e)) rest (length bs))
      ≡ ok (
        v,
        over (marshal_value v (writer bs e)) rest (length (marshal_value v (writer bs e)).bytes),
      )
unfolding marshal_value demarshal_value
value_read (byte_value v) bs e rest h small = byte_read v bs e rest small
value_read (bool_value v) bs e rest h small = rw (bool_read v bs e rest small)
value_read (int16_value v) bs e rest h small = rw (int16_read v bs e rest h small)
value_read (uint16_value v) bs e rest h small = rw (uint16_read v bs e rest h small)
value_read (int32_value v) bs e rest h small = rw (int32_read v bs e rest h small)
value_read (uint32_value v) bs e rest h small = rw (uint32_read v bs e rest h small)
value_read (int64_value v) bs e rest h small = rw (int64_read v bs e rest h small)
value_read (uint64_value v) bs e rest h small = rw (uint64_read v bs e rest h small)
value_read (double_value v) bs e rest h small = rw (double_read v bs e rest h small)
value_read (string_value v) bs e rest h small = rw (string_read v bs e rest small)
value_read (path_value v) bs e rest h small = rw (path_read v bs e rest small)
value_read (signature_value v) bs e rest h small = rw (signature_read v bs e rest h small)

-- A value of any of the twelve types in the range of its C++ type, appended in either byte
-- order behind any bytes with the padding that these call for, is what the reader's function
-- for the type returns from where the writer began; the reader is left where the writer
-- stopped. The buffer is smaller than 2 ^ 32 bytes.
pub demarshal_value-marshal_value :
    (v : Value) (m : Marshaling) (rest : List ℕ)
    → IsInRange v
    → length (marshal_value v m).bytes + length rest < 2 ^ 32
    → demarshal_value (value_type v) (over (marshal_value v m) rest (length m.bytes))
      ≡ ok (v, over (marshal_value v m) rest (length (marshal_value v m).bytes))
demarshal_value-marshal_value v m rest h small = value_read v m.bytes m.endian rest h small
