-- ===== src/Wire/Text.antt =====
-- Strings, object paths and signatures (dbus-cxx/marshaling.cpp and demarshaling.cpp).
use dbus_cxx.Common.{
  ℕ, ◌+◌, ◌%◌, ◌<◌, ◌^◌, ◌≡◌, refl, ap, ◌∙◌, List, [], ◌∷◌, ◌++◌, length, length-append,
  append_assoc, get_elem?-append_right, arith,
}
use native.Mathlib.Nat.{add-zero}
use dbus_cxx.Wire.Words.{Endianess, little, big, u32}
use dbus_cxx.Wire.Scan.{behind, is_valid-behind, advance-behind, chars_at-front}
use dbus_cxx.Wire.Writer
use dbus_cxx.Wire.Writer.{Marshaling, push_back, push_all}
use dbus_cxx.Wire.Reader
use dbus_cxx.Wire.Reader.{Demarshaling, Outcome, D, ok, ◌>>=◌, ◌>>◌}
use dbus_cxx.Wire.RoundTrip.{over, marshal_int_big-bytes, marshal_int_little-bytes}
use dbus_cxx.Wire.Numbers.{writer, uint32_read}

-- Writing a number keeps the byte order.
marshal_uint32-endian :
    (v : ℕ) (bs : List ℕ) (e : Endianess) → (Writer.marshal_uint32 v (writer bs e)).endian ≡ e
unfolding Writer.marshal_uint32
marshal_uint32-endian v bs little = rw (marshal_int_little-bytes v (writer bs little))
marshal_uint32-endian v bs big = rw (marshal_int_big-bytes v (writer bs big))

-- The characters, the null byte and what follows, as the writer appends them.
regroup : (front s rest : List ℕ) → front ++ s ++ (0 ∷ []) ++ rest ≡ front ++ (s ++ (0 ∷ rest))
regroup front s rest = append_assoc (front ++ s) (0 ∷ []) rest ∙ append_assoc front s (0 ∷ rest)

length-regroup : (front s : List ℕ) → length (front ++ s ++ (0 ∷ [])) ≡ length front + length s + 1
length-regroup front s = omega (arith, length-append (front ++ s) (0 ∷ []), length-append front s)

-- The characters of `s`, which the reader takes before it passes the null byte.
tail_read :
    (s front rest : List ℕ) (e : Endianess)
    → length front + length s + 1 < 2 ^ 32
    → Reader.then_on
        (Reader.chars_at (length s) 0 (behind front e (s ++ (0 ∷ rest)) 0))
        (λ c. Reader.advance (length s + 1) >> Reader.pure c)
      ≡ ok (
        s,
        record {
          bytes = front ++ s ++ (0 ∷ []) ++ rest;
          pos = length (front ++ s ++ (0 ∷ []));
          endian = e;
        },
      )
tail_read s front rest e h =
    rw
      (
        chars_at-front s front (0 ∷ rest) 0 (behind front e (s ++ (0 ∷ rest)) 0) refl (omega arith),
        advance-behind front e (s ++ (0 ∷ rest)) 0 (length s + 1) (omega arith),
        regroup front s rest,
        length-regroup front s,
      )
      (ground arith)

string_tail :
    (s front rest : List ℕ) (e : Endianess) (p : ℕ)
    → length front + length s + 1 + length rest < 2 ^ 32
    → Reader.demarshal_uint32 (record { bytes = front ++ (s ++ (0 ∷ rest)); pos = p; endian = e })
      ≡ ok (length s, behind front e (s ++ (0 ∷ rest)) 0)
    → Reader.demarshal_string
        (record { bytes = front ++ s ++ (0 ∷ []) ++ rest; pos = p; endian = e })
      ≡ ok (
        s,
        record {
          bytes = front ++ s ++ (0 ∷ []) ++ rest;
          pos = length (front ++ s ++ (0 ∷ []));
          endian = e;
        },
      )
unfolding Reader.demarshal_string
string_tail s front rest e p h first =
    let exact : u32 (length s + 1) ≡ length s + 1 = omega arith in
    let there : length (s ++ (0 ∷ rest)) ≡ length s + 1 + length rest =
      omega (arith, length-append s (0 ∷ rest)) in
    ap (λ (bytes : List ℕ). Reader.demarshal_string (record { bytes = bytes; pos = p; endian = e }))
      (regroup front s rest)
    ∙ rw
        (
          first,
          exact,
          is_valid-behind front e (s ++ (0 ∷ rest)) 0 (length s + 1) (omega arith) (omega arith),
        )
        (tail_read s front rest e (omega arith))

pub string_read :
    (s : List ℕ) (bs : List ℕ) (e : Endianess) (rest : List ℕ)
    → length (Writer.marshal_string s (writer bs e)).bytes + length rest < 2 ^ 32
    → Reader.demarshal_string (over (Writer.marshal_string s (writer bs e)) rest (length bs))
      ≡ ok (
        s,
        over
            (Writer.marshal_string s (writer bs e))
            rest
            (length (Writer.marshal_string s (writer bs e)).bytes),
      )
unfolding Writer.marshal_string Writer.push_all Writer.push_back
string_read s bs e rest h =
    let w : Marshaling = Writer.marshal_uint32 (u32 (length s)) (writer bs e) in
    let fits : length w.bytes + length s + 1 + length rest < 2 ^ 32 =
      omega (arith, length-regroup w.bytes s) in
    let exact : u32 (length s) ≡ length s = omega arith in
    string_tail s w.bytes rest w.endian (length bs) fits (
      uint32_read (u32 (length s)) bs e (s ++ (0 ∷ rest)) (omega arith)
        (omega (arith, length-append s (0 ∷ rest)))
      ∙ rw (exact, add-zero))

-- One byte behind `bs`.
pub uint8_read :
    (b : ℕ) (bs back : List ℕ) (e : Endianess)
    → length bs + 1 + length back < 2 ^ 32
    → Reader.demarshal_uint8 (record { bytes = bs ++ (b ∷ back); pos = length bs; endian = e })
      ≡ ok (b, record { bytes = bs ++ (b ∷ back); pos = length bs + 1; endian = e })
unfolding Reader.demarshal_uint8 Reader.is_valid Reader.byte_at Reader.advance
uint8_read b bs back e h = ground (
  arith,
  length-append bs (b ∷ back),
  get_elem?-append_right bs (b ∷ back) 0 (u32 (length bs + 0)),
)

signature_tail :
    (s bs rest : List ℕ) (e : Endianess)
    → length bs + length s + 2 + length rest < 2 ^ 32
    → Reader.demarshal_signature (record {
      bytes = bs ++ (length s ∷ []) ++ s ++ (0 ∷ []) ++ rest;
      pos = length bs;
      endian = e;
    })
      ≡ ok (
        s,
        record {
          bytes = bs ++ (length s ∷ []) ++ s ++ (0 ∷ []) ++ rest;
          pos = length (bs ++ (length s ∷ []) ++ s ++ (0 ∷ []));
          endian = e;
        },
      )
unfolding Reader.demarshal_signature
signature_tail s bs rest e h =
    let front : List ℕ = bs ++ (length s ∷ []) in
    let back : List ℕ = s ++ (0 ∷ rest) in
    let one : length front ≡ length bs + 1 = length-append bs (length s ∷ []) in
    let passed : record { bytes = bs ++ (length s ∷ back); pos = length bs + 1; endian = e }
        ≡ behind front e back 0 =
      rw (one, add-zero, append_assoc bs (length s ∷ []) back) in
    ap
      (λ (bytes : List ℕ).
        Reader.demarshal_signature (record { bytes = bytes; pos = length bs; endian = e }))
      (regroup front s rest ∙ append_assoc bs (length s ∷ []) back)
    ∙ rw (uint8_read (length s) bs back e (omega (arith, length-append s (0 ∷ rest))), passed)
        (tail_read s front rest e (omega arith))

pub signature_read :
    (s : List ℕ) (bs : List ℕ) (e : Endianess) (rest : List ℕ)
    → length s < 256
    → length (Writer.marshal_signature s (writer bs e)).bytes + length rest < 2 ^ 32
    → Reader.demarshal_signature (over (Writer.marshal_signature s (writer bs e)) rest (length bs))
      ≡ ok (
        s,
        over
            (Writer.marshal_signature s (writer bs e))
            rest
            (length (Writer.marshal_signature s (writer bs e)).bytes),
      )
unfolding Writer.marshal_signature Writer.push_all Writer.push_back
signature_read s bs e rest k h =
    let exact : length s % 256 ≡ length s = omega arith in
    let fits : length bs + length s + 2 + length rest < 2 ^ 32 = omega (
      arith,
      length-regroup (bs ++ (length s % 256 ∷ [])) s,
      length-append bs (length s % 256 ∷ []),
    ) in
    rw exact (signature_tail s bs rest e fits)
