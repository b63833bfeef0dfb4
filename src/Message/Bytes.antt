-- ===== src/Message/Bytes.antt =====
-- The bytes of a message that Message::serialize_to_vector writes (dbus-cxx/message.cpp).
use dbus_cxx.Common.{
  ℕ, ◌+◌, ◌-◌, ◌%◌, ◌<◌, ◌^◌, ◌≡◌, refl, true, false, List, [], ◌∷◌, ◌++◌, length, length-append,
  append_assoc, replicate, arith, if◌then◌else◌,
}
use dbus_cxx.Header.{MessageType}
use dbus_cxx.Message.{Message}
use dbus_cxx.Message.Format.{
  marshal_start, marshal_rest, message_code, message_is_small_enough, is_invalid_message,
  must_have_serial, reply_serial_is_good, serialize_to_vector,
}
use dbus_cxx.Message.Entries.{Fields, map_of, entries_bytes, marshal_headers-bytes}
use dbus_cxx.Wire.Words.{big, byte0, byte1, byte2, byte3, u32}
use dbus_cxx.Wire.Padding.{padding, writer_align}
use dbus_cxx.Wire.Scan.{eight}
use dbus_cxx.Wire.Writer
use dbus_cxx.Wire.Reader.{ok}
use dbus_cxx.Wire.Numbers.{writer}

-- A word of four bytes, the highest first, before `rest`.
abbrev pub word : ℕ → List ℕ → List ℕ
word v rest = byte3 v ∷ byte2 v ∷ byte1 v ∷ byte0 v ∷ rest

-- The fixed part: its last word is the size of the header array.
abbrev pub fixed_bytes : ℕ → ℕ → ℕ → ℕ → ℕ → List ℕ
fixed_bytes code flags body_len serial array_len =
    b'B' ∷ code ∷ flags ∷ 1 ∷ word body_len (word serial (word array_len []))

-- The fixed part and the header array.
abbrev pub header_bytes : ℕ → ℕ → ℕ → ℕ → Fields → List ℕ
header_bytes code flags body_len serial fs =
    fixed_bytes code flags body_len serial (length (entries_bytes 16 fs)) ++ entries_bytes 16 fs

abbrev pub message_bytes : MessageType → ℕ → ℕ → Fields → List ℕ → List ℕ
message_bytes kind flags serial fs body =
    let header = header_bytes (message_code kind) flags (length body) serial fs in
    header ++ replicate (padding 8 (length header)) 0 ++ body

abbrev pub message_of_fields : MessageType → ℕ → ℕ → Fields → List ℕ → List ℕ → Message
message_of_fields kind flags serial fs body fds = record {
  kind = kind;
  valid = true;
  header_map = map_of fs;
  body = body;
  endian = big;
  flags = flags;
  filedescriptors = fds;
  serial = serial;
}

module _ (kind : MessageType) (flags serial first : ℕ) (fs : Fields) (body fds : List ℕ) where
  abbrev msg : Message
  msg = message_of_fields kind flags first fs body fds

  pub start_lem :
      length body < 2 ^ 32
      → marshal_start msg (writer (b'B' ∷ []) big)
        ≡ writer (b'B' ∷ message_code kind ∷ flags ∷ 1 ∷ word (length body) []) big
  unfolding marshal_start Writer.marshal_uint8 Writer.marshal_uint32 Writer.marshal_int_big
      Writer.align Writer.push_all Writer.push_back
  start_lem h = let e : u32 (length body) ≡ length body = omega arith in rw e

  abbrev pub started : List ℕ
  started = b'B' ∷ message_code kind ∷ flags ∷ 1 ∷ word (length body) []

  empty_array :
      Writer.marshal_uint32 0 (Writer.marshal_uint32 serial (writer started big))
      ≡ writer (fixed_bytes (message_code kind) flags (length body) serial 0) big
  unfolding Writer.marshal_uint32 Writer.marshal_int_big Writer.align Writer.push_all
  empty_array = refl

  size_put :
      (n : ℕ) (es : List ℕ)
      → Writer.marshal_at_offset 12 n
          (writer (fixed_bytes (message_code kind) flags (length body) serial 0 ++ es) big)
        ≡ writer (fixed_bytes (message_code kind) flags (length body) serial n ++ es) big
  unfolding Writer.marshal_at_offset
  size_put n es = refl

  abbrev whole_header : List ℕ
  whole_header = header_bytes (message_code kind) flags (length body) serial fs

  header_fits :
      length (message_bytes kind flags serial fs body) < 2 ^ 32
      → (u32 (length whole_header) + 2 ^ 32 - 16) % 2 ^ 32 ≡ length (entries_bytes 16 fs)
  header_fits h =
      let zeros : List ℕ = replicate (padding 8 (length whole_header)) 0 in
      let sixteen : length whole_header ≡ 16 + length (entries_bytes 16 fs) = omega arith in
      omega (
        arith,
        sixteen,
        length-append (whole_header ++ zeros) body,
        length-append whole_header zeros,
      )

  pub rest_lem :
      length (message_bytes kind flags serial fs body) < 2 ^ 32
      → marshal_rest msg serial (writer started big)
        ≡ writer (message_bytes kind flags serial fs body) big
  unfolding marshal_rest Writer.push_all
  rest_lem h =
      rw
        (
          empty_array,
          marshal_headers-bytes fs (fixed_bytes (message_code kind) flags (length body) serial 0),
          header_fits h,
          size_put (length (entries_bytes 16 fs)) (entries_bytes 16 fs),
          writer_align 8 (writer whole_header big) eight,
        )
        (simp append_assoc)

-- A message that may be written: a valid kind, and for a reply the serial that it answers.
abbrev pub IsWritable : Message → Type 0
IsWritable msg =
    (is_invalid_message msg.kind ≡ false)
    × ((if must_have_serial msg.kind then reply_serial_is_good msg else ok true) ≡ ok true)

-- serialize_to_vector of a writable message leaves, in an empty vector, the fixed part of 16
-- bytes, the header array with its size at offset 12, the padding to eight and the body, and
-- reports whether these are fewer than the maximal message size; they have to be fewer than 2 ^
-- 32.
pub serialize_to_vector-message_bytes :
    (kind : MessageType) (flags first serial : ℕ) (fs : Fields) (body fds : List ℕ)
    → IsWritable (message_of_fields kind flags first fs body fds)
    → length (message_bytes kind flags serial fs body) < 2 ^ 32
    → serialize_to_vector (message_of_fields kind flags first fs body fds) [] serial
      ≡ ok (
        message_is_small_enough (message_bytes kind flags serial fs body),
        message_bytes kind flags serial fs body,
      )
unfolding serialize_to_vector Writer.marshal_uint8 Writer.push_back
serialize_to_vector-message_bytes kind flags first serial fs body fds (valid, replies) h =
    let zeros : List ℕ =
      replicate
        (padding 8 (length (header_bytes (message_code kind) flags (length body) serial fs))) 0 in
    rw (
      valid,
      replies,
      start_lem kind flags serial first fs body fds (
          omega (
            arith,
            length-append (header_bytes (message_code kind) flags (length body) serial fs ++ zeros)
                body,
          )),
      rest_lem kind flags serial first fs body fds h,
    )
