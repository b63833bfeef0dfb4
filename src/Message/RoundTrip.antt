-- ===== src/Message/RoundTrip.antt =====
-- Message::create_from_data over the bytes of Message::serialize_to_vector (dbus-
-- cxx/message.cpp).
use dbus_cxx.Common.{
  ℕ, suc, ◌+◌, ◌%◌, ◌<◌, ◌≤◌, ◌^◌, ◌≡◌, refl, sym, true, false, List, [], ◌∷◌, ◌++◌, length,
  length-append, append_assoc, replicate, length-replicate, arith, lt→ltb, some,
}
use dbus_cxx.Header.{MessageType, call, return, error, signal, invalid_message}
use dbus_cxx.Message.Format.{
  message_is_small_enough, message_code, is_invalid_message, serialize_to_vector,
}
use dbus_cxx.Message.Parse.{
  demarshal_headers, demarshal_body, kind_of_code, parse, create_from_data,
}
use dbus_cxx.Message.Entry.{entry_bytes}
use dbus_cxx.Message.Entries.{Fields, map_of, entries_bytes, Ascends, Readable, fds_of}
use dbus_cxx.Message.Loop.{length-entry_bytes, demarshal_headers-marshal_headers}
use dbus_cxx.Message.Bytes.{
  word, fixed_bytes, header_bytes, message_bytes, message_of_fields, IsWritable,
  serialize_to_vector-message_bytes,
}
use dbus_cxx.Wire.Words.{big, byte0, byte1, byte2, byte3, u32, int_bytes}
use dbus_cxx.Wire.Padding.{padding, reader_align}
use dbus_cxx.Wire.Scan.{eight, int_big-behind}
use dbus_cxx.Wire.Text.{uint8_read}
use dbus_cxx.Wire.Reader
use dbus_cxx.Wire.Reader.{ok, Demarshaling}

-- A reader of the big-endian bytes at offset `p`.
abbrev pub reader : List ℕ → ℕ → Demarshaling
reader bs p = record { bytes = bs; pos = p; endian = big }

pub word_at :
    (v : ℕ) (front back : List ℕ)
    → v < 2 ^ 32
    → length front % 4 ≡ 0
    → length front + 4 + length back < 2 ^ 32
    → Reader.demarshal_uint32 (reader (front ++ word v back) (length front))
      ≡ ok (v, reader (front ++ word v back) (length front + 4))
unfolding Reader.demarshal_uint32
word_at v front back h aligned fits = rw (
  int_big-behind front big (length front) back (byte3 v) (byte2 v) (byte1 v) (byte0 v) (omega arith)
      (omega arith),
  int_bytes v h,
)

body_read :
    (body front : List ℕ)
    → length front + length body < 2 ^ 32
    → demarshal_body (length body) (reader (front ++ body) (length front))
      ≡ ok (body, reader (front ++ body) (length front + length body))
unfolding demarshal_body
body_read [] front h = ground arith
body_read (b ∷ body) front h =
    let one : length (front ++ (b ∷ [])) ≡ length front + 1 = length-append front (b ∷ []) in
    let next : front ++ (b ∷ body) ≡ (front ++ (b ∷ [])) ++ body =
      sym (append_assoc front (b ∷ []) body) in
    rw
      (
        uint8_read b front body big (omega arith),
        next,
        ← one,
        body_read body (front ++ (b ∷ [])) (omega (arith, one)),
        one,
      )
      (ground arith)

length-entries_bytes : (fs : Fields) (n : ℕ) → length fs ≤ length (entries_bytes n fs)
length-entries_bytes [] n = omega arith
length-entries_bytes ((k, v) ∷ fs) n = omega (
  arith,
  length-entry_bytes n k v,
  length-entries_bytes fs (n + length (entry_bytes n k v)),
  length-append (entry_bytes n k v) (entries_bytes (n + length (entry_bytes n k v)) fs),
)

kind_of_code-message_code :
    (kind : MessageType)
    → is_invalid_message kind ≡ false
    → kind_of_code (message_code kind) ≡ some kind
kind_of_code-message_code invalid_message h = absurd (cc h)
kind_of_code-message_code call h = refl
kind_of_code-message_code return h = refl
kind_of_code-message_code error h = refl
kind_of_code-message_code signal h = refl

module _ (kind : MessageType) (flags serial : ℕ) (fs : Fields) (body fds : List ℕ) where
  abbrev code : ℕ
  code = message_code kind

  abbrev entries : List ℕ
  entries = entries_bytes 16 fs

  abbrev header : List ℕ
  header = header_bytes code flags (length body) serial fs

  abbrev zeros : List ℕ
  zeros = replicate (padding 8 (length header)) 0

  abbrev bytes : List ℕ
  bytes = message_bytes kind flags serial fs body

  length_bytes : length bytes ≡ length header + padding 8 (length header) + length body
  length_bytes = omega (
    arith,
    length-append (header ++ zeros) body,
    length-append header zeros,
    length-replicate {A = ℕ} (padding 8 (length header)) 0,
  )

  headers_read :
      (fuel : ℕ)
      → Ascends 0 fs
      → Readable (length fds) fs
      → length fds < 2 ^ 31
      → length bytes < 2 ^ 32
      → length fs < fuel
      → demarshal_headers fuel fds (12 + length entries) ([], []) (reader bytes 16)
        ≡ ok ((map_of fs, fds_of fds fs), reader bytes (length header))
  headers_read fuel up good few small f =
      let fixed : List ℕ = fixed_bytes code flags (length body) serial (length entries) in
      let sixteen : length header ≡ 16 + length entries = omega arith in
      rw (append_assoc entries zeros body) (
        demarshal_headers-marshal_headers fs fixed (zeros ++ body) fds fuel (12 + length entries) 0
          [] [] up tt good few (omega arith)
          (omega (
            arith,
            length_bytes,
            length-append zeros body,
            length-replicate {A = ℕ} (padding 8 (length header)) 0,
          ))
          f)

  -- The body behind the padding.
  body_lem :
      length bytes < 2 ^ 32
      → demarshal_body (length body) (reader bytes (length header + padding 8 (length header)))
        ≡ ok (body, reader bytes (length bytes))
  body_lem small =
      let at_body : length (header ++ zeros) ≡ length header + padding 8 (length header) = omega (
        arith,
        length-append header zeros,
        length-replicate {A = ℕ} (padding 8 (length header)) 0,
      ) in
      rw (length_bytes, ← at_body) (body_read body (header ++ zeros) (omega (arith, length_bytes)))

  parse_lem :
      (fuel : ℕ)
      → is_invalid_message kind ≡ false
      → serial < 2 ^ 32
      → Ascends 0 fs
      → Readable (length fds) fs
      → length fds < 2 ^ 31
      → length bytes < 2 ^ 32
      → length fs < fuel
      → parse fds fuel (reader bytes 0)
        ≡ ok (
          message_of_fields kind flags serial fs body (fds_of fds fs),
          reader bytes (length bytes),
        )
  unfolding parse Reader.set_endianess
  parse_lem fuel valid s up good few small f =
      let behind : List ℕ = entries ++ zeros ++ body in
      let sixteen : length header ≡ 16 + length entries = omega arith in
      let size : length behind ≡ length entries + padding 8 (length header) + length body = omega (
        arith,
        length-append (entries ++ zeros) body,
        length-append entries zeros,
        length-replicate {A = ℕ} (padding 8 (length header)) 0,
      ) in
      let fits : length behind + 16 < 2 ^ 32 = omega (arith, length_bytes) in
      let sizes : List ℕ = word (length body) (word serial (word (length entries) behind)) in
      let bound : u32 (12 + length entries) ≡ 12 + length entries = omega (arith, length_bytes) in
      rw
        (
          uint8_read b'B' [] (code ∷ flags ∷ 1 ∷ sizes) big (omega arith),
          uint8_read code (b'B' ∷ []) (flags ∷ 1 ∷ sizes) big (omega arith),
          uint8_read flags (b'B' ∷ code ∷ []) (1 ∷ sizes) big (omega arith),
          uint8_read 1 (b'B' ∷ code ∷ flags ∷ []) sizes big (omega arith),
          word_at (length body) (b'B' ∷ code ∷ flags ∷ 1 ∷ [])
              (word serial (word (length entries) behind)) (omega (arith, length_bytes)) refl
              (omega arith),
          word_at serial (b'B' ∷ code ∷ flags ∷ 1 ∷ word (length body) [])
              (word (length entries) behind) s refl (omega arith),
          word_at (length entries) (b'B' ∷ code ∷ flags ∷ 1 ∷ word (length body) (word serial []))
              behind (omega (arith, length_bytes)) refl (omega arith),
          bound,
          headers_read fuel up good few small f,
          reader_align 8 (reader bytes (length header)) eight (omega (arith, length_bytes)),
          kind_of_code-message_code kind valid,
          body_lem small,
        )
        refl

-- A writable message is serialized, and create_from_data returns it from the bytes: its kind,
-- flags, header fields and body, with the serial that it was sent with and the descriptors that
-- its Unix_FDs field counts. The fields stand in the order of the map, each once; a value is in
-- the range of its type and is not aligned at eight bytes; a Unix_FDs field gives the number of
-- descriptors handed over with the bytes, fewer than 2 ^ 31; the message is smaller than 2 ^ 27
-- bytes.
pub create_from_data-serialize_to_vector :
    (kind : MessageType) (flags first serial : ℕ) (fs : Fields) (body fds : List ℕ)
    → IsWritable (message_of_fields kind flags first fs body fds)
    → serial < 2 ^ 32
    → Ascends 0 fs
    → Readable (length fds) fs
    → length fds < 2 ^ 31
    → length (message_bytes kind flags serial fs body) < 2 ^ 27
    → (serialize_to_vector (message_of_fields kind flags first fs body fds) [] serial
        ≡ ok (true, message_bytes kind flags serial fs body))
      × (create_from_data (message_bytes kind flags serial fs body) fds
          ≡ ok (message_of_fields kind flags serial fs body (fds_of fds fs)))
unfolding create_from_data message_is_small_enough
create_from_data-serialize_to_vector kind flags first serial fs body fds (valid, replies) s up good
      few small =
    let count : length fs ≤ length (entries_bytes 16 fs) = length-entries_bytes fs 16 in
    let sixteen : length (header_bytes (message_code kind) flags (length body) serial fs)
        ≡ 16 + length (entries_bytes 16 fs) =
      omega arith in
    (
      rw (
        serialize_to_vector-message_bytes kind flags first serial fs body fds (valid, replies)
            (omega arith),
        lt→ltb (length (message_bytes kind flags serial fs body)) (2 ^ 27) small,
      ),
      rw (
          parse_lem kind flags serial fs body fds
            (suc (length (message_bytes kind flags serial fs body))) valid s up good few
            (omega arith) (omega (arith, length_bytes kind flags serial fs body))),
    )
