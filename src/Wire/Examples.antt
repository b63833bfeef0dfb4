-- ===== src/Wire/Examples.antt =====
-- The theorems on the bounds of the reads at short buffers.
use dbus_cxx.Common.{◌≡◌, ◌↔◌, [], ◌∷◌, true, if◌then◌else◌, arith}
use dbus_cxx.Types.{int16, same_type}
use dbus_cxx.Wire.Words.{little, big}
use dbus_cxx.Wire.Writer
use dbus_cxx.Wire.Reader
use dbus_cxx.Wire.Reader.{Demarshaling, ok, fault, raise}
use dbus_cxx.Wire.Safety.{IsSafe, demarshal_uint32-IsSafe, demarshal_signature-overrun}
use dbus_cxx.Wire.Variant.{uint16_value, uint32_value, value_type, variant_of, marshal_value}
use dbus_cxx.Wire.Variant.Equality.{equals-variant_of_iff}
use dbus_cxx.Wire.Variant.Conversions.{equals}
use dbus_cxx.Wire.Variant.Converted.{convert, convert-variant_of}

abbrev short_buffer : Demarshaling
short_buffer = record { bytes = 1 ∷ 0 ∷ 0 ∷ 0 ∷ 2 ∷ 0 ∷ []; pos = 4; endian = little }

demarshal_uint32-IsSafe_example : IsSafe short_buffer (Reader.demarshal_uint32 short_buffer)
demarshal_uint32-IsSafe_example = demarshal_uint32-IsSafe short_buffer (omega arith) (omega arith)

demarshal_signature-overrun_example :
    Reader.demarshal_signature (record { bytes = 0 ∷ 5 ∷ b'i' ∷ []; pos = 1; endian = big }) ≡ fault
demarshal_signature-overrun_example =
    demarshal_signature-overrun 5 (0 ∷ []) (b'i' ∷ []) big (omega arith) (omega arith)

convert-variant_of_example :
    convert int16 (variant_of (uint16_value 700))
    ≡ (if same_type (value_type (uint16_value 700)) int16 then ok (uint16_value 700) else raise)
unfolding variant_of marshal_value Writer.marshal_uint16 Writer.marshal_short_big
convert-variant_of_example = convert-variant_of int16 (uint16_value 700) (omega arith) (omega arith)

equals-variant_of_iff_example :
    (equals (variant_of (uint16_value 700)) (variant_of (uint32_value 700)) ≡ true)
    ↔ (uint16_value 700 ≡ uint32_value 700)
unfolding variant_of marshal_value Writer.marshal_uint16 Writer.marshal_short_big
    Writer.marshal_uint32 Writer.marshal_int_big
equals-variant_of_iff_example =
    equals-variant_of_iff (uint16_value 700) (uint32_value 700) (omega arith) (omega arith)
      (omega arith) (omega arith)
