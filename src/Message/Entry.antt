-- ===== src/Message/Entry.antt =====
-- One entry of the header array, in the writer and in the reader (dbus-cxx/message.cpp).
use dbus_cxx.Common.{
  ℕ, suc, ◌+◌, ◌%◌, ◌<◌, ◌≤◌, ◌^◌, ◌≡◌, ap, List, [], ◌∷◌, ◌++◌, length, length-append,
  append_assoc, replicate, arith,
}
use dbus_cxx.Header.{
  MessageHeaderFields, header_field_to_int, int_to_header_field-header_field_to_int,
}
use dbus_cxx.Message.Format.{marshal_header}
use dbus_cxx.Message.Parse.{Headers, store, demarshal_header}
use dbus_cxx.Wire.Words.{big}
use dbus_cxx.Wire.Padding.{padding, reader_align, writer_align}
use dbus_cxx.Wire.Writer
use dbus_cxx.Wire.Writer.{Marshaling}
use dbus_cxx.Wire.Reader.{ok}
use dbus_cxx.Wire.RoundTrip.{over, padded, length-padded}
use dbus_cxx.Wire.Scan.{eight}
use dbus_cxx.Wire.Numbers.{writer}
use dbus_cxx.Wire.Text.{uint8_read}
use dbus_cxx.Wire.Variants.{demarshal_variant-marshal_variant}
use dbus_cxx.Wire.Variant.{
  Value, byte_value, bool_value, int16_value, uint16_value, int32_value, uint32_value, int64_value,
  uint64_value, double_value, string_value, path_value, signature_value, value_signature,
  value_alignment, IsInRange, variant_of, marshal_value, marshal_variant, demarshal_variant,
}

-- The signature of a value and the bytes that its variant keeps.
abbrev pub variant_bytes : Value → List ℕ
variant_bytes v =
    (length (value_signature v) % 256)
    ∷ (value_signature v ++ (0 ∷ (marshal_value v (writer [] big)).bytes))

-- The entry of field `k` at offset `n`.
abbrev pub entry_bytes : ℕ → MessageHeaderFields → Value → List ℕ
entry_bytes n k v = replicate (padding 8 n) 0 ++ (header_field_to_int k ∷ variant_bytes v)

marshal_variant-bytes :
    (v : Value) (bs : List ℕ)
    → marshal_variant (variant_of v) (writer bs big) ≡ writer (bs ++ variant_bytes v) big
unfolding marshal_variant variant_of Writer.marshal_signature Writer.push_all Writer.push_back
marshal_variant-bytes v bs = simp append_assoc

pub marshal_header-bytes :
    (k : MessageHeaderFields) (v : Value) (bs : List ℕ)
    → marshal_header k (variant_of v) (writer bs big)
      ≡ writer (bs ++ entry_bytes (length bs) k v) big
unfolding marshal_header Writer.marshal_uint8 Writer.push_back
marshal_header-bytes k v bs =
    rw
      (
        writer_align 8 (writer bs big) eight,
        marshal_variant-bytes v (padded 8 (writer bs big) ++ (header_field_to_int k ∷ [])),
      )
      (simp append_assoc)

-- A value that an offset of four suits: none that is aligned at eight.
abbrev pub IsHeaderValue : Value → Type 0
IsHeaderValue v = IsInRange v × (value_alignment v ≤ 4)

aligned_four : (v : Value) (n : ℕ) → value_alignment v ≤ 4 → n % 4 ≡ 0 → n % value_alignment v ≡ 0
unfolding value_alignment
aligned_four (byte_value v) n h e = omega arith
aligned_four (bool_value v) n h e = omega arith
aligned_four (int16_value v) n h e = omega arith
aligned_four (uint16_value v) n h e = omega arith
aligned_four (int32_value v) n h e = omega arith
aligned_four (uint32_value v) n h e = omega arith
aligned_four (int64_value v) n h e = omega arith
aligned_four (uint64_value v) n h e = omega arith
aligned_four (double_value v) n h e = omega arith
aligned_four (string_value v) n h e = omega arith
aligned_four (path_value v) n h e = omega arith
aligned_four (signature_value v) n h e = omega arith

-- The reader over an entry, with the padding and the number of the field apart.
module _ (k : MessageHeaderFields) (v : Value) (bs rest : List ℕ) where
  abbrev num : ℕ
  num = header_field_to_int k

  abbrev front : List ℕ
  front = padded 8 (writer bs big)

  abbrev whole : List ℕ
  whole = bs ++ entry_bytes (length bs) k v

  whole_split : whole ++ rest ≡ front ++ (num ∷ (variant_bytes v ++ rest))
  whole_split = simp append_assoc

  length-front : length front ≡ length bs + padding 8 (length bs)
  length-front = length-padded 8 (writer bs big)

  length-whole : length whole ≡ length front + 1 + length (variant_bytes v)
  length-whole = omega (
    arith,
    length-append front (num ∷ variant_bytes v),
    ap (λ (l : List ℕ). length l)
        (append_assoc bs (replicate (padding 8 (length bs)) 0) (num ∷ variant_bytes v)),
  )

  -- Behind the number of the field stands the variant.
  at_variant :
      (p : ℕ)
      → over (marshal_variant (variant_of v) (writer (front ++ (num ∷ [])) big)) rest p
        ≡ record { bytes = front ++ (num ∷ (variant_bytes v ++ rest)); pos = p; endian = big }
  at_variant p = rw (marshal_variant-bytes v (front ++ (num ∷ []))) (simp append_assoc)

  length_variant :
      length (marshal_variant (variant_of v) (writer (front ++ (num ∷ [])) big)).bytes
      ≡ length whole
  length_variant = rw (marshal_variant-bytes v (front ++ (num ∷ []))) (
      omega (
        arith,
        length-whole,
        length-append (front ++ (num ∷ [])) (variant_bytes v),
        length-append front (num ∷ []),
      ))

  variant_read :
      (fuel : ℕ)
      → IsHeaderValue v
      → length whole + length rest < 2 ^ 32
      → demarshal_variant (suc fuel) (record {
        bytes = front ++ (num ∷ (variant_bytes v ++ rest));
        pos = length front + 1;
        endian = big;
      })
        ≡ ok (
          variant_of v,
          record {
            bytes = front ++ (num ∷ (variant_bytes v ++ rest));
            pos = length whole;
            endian = big;
          },
        )
  variant_read fuel (range, narrow) small =
      let one : length (front ++ (num ∷ [])) ≡ length front + 1 = length-append front (num ∷ []) in
      let mod8 : length front % 8 ≡ 0 = omega (arith, length-front) in
      let aligned : (length (front ++ (num ∷ [])) + 3) % value_alignment v ≡ 0 =
        rw one (aligned_four v _ narrow (omega arith)) in
      rw (length_variant, at_variant (length whole), at_variant (length (front ++ (num ∷ []))), one)
        at
        (demarshal_variant-marshal_variant v (front ++ (num ∷ [])) rest fuel range aligned
          (rw length_variant small))

  pub demarshal_header-marshal_header :
      (fds : List ℕ) (fuel : ℕ) (headers : Headers)
      → IsHeaderValue v
      → length whole + length rest < 2 ^ 32
      → demarshal_header (suc fuel) fds headers (over (writer whole big) rest (length bs))
        ≡ store fds k (variant_of v) headers (over (writer whole big) rest (length whole))
  unfolding demarshal_header
  demarshal_header-marshal_header fds fuel headers good small =
      let fits : length front + 1 + length (variant_bytes v ++ rest) < 2 ^ 32 =
        omega (arith, length-whole, length-append (variant_bytes v) rest) in
      rw (
        reader_align 8 (over (writer whole big) rest (length bs)) eight
            (omega (arith, length-front)),
        ← length-front,
        whole_split,
        uint8_read num front (variant_bytes v ++ rest) big fits,
        variant_read fuel good small,
        int_to_header_field-header_field_to_int.0 k,
      )
