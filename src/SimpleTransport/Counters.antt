-- ===== src/SimpleTransport/Counters.antt =====
-- What the parts of SimpleTransport::readMessage make of the counters and of the buffer
-- (dbus-cxx/simpletransport.cpp).
use dbus_cxx.Common.{
  ℕ, ◌+◌, ◌-◌, ◌%◌, ◌<◌, ◌≤◌, ◌^◌, ◌≡◌, refl, sym, ap, ◌∙◌, List, [], ◌∷◌, ◌++◌, append-nil, some,
  Bool-cases, inl, inr, true, length, take, ltb, leb, arith,
}
use dbus_cxx.Message.Bytes.{word, fixed_bytes}
use dbus_cxx.Message.RoundTrip.{reader, word_at}
use dbus_cxx.Wire.Words.{Endianess, little, big, byte0, byte1, byte2, byte3, u32, int_bytes}
use dbus_cxx.Wire.Scan.{int_little-behind}
use dbus_cxx.Wire.Padding.{padding}
use dbus_cxx.Wire.Reader
use dbus_cxx.Wire.Reader.{and_then, Outcome, ok, fault, Demarshaling}
use dbus_cxx.SimpleTransport.{
  ReadingState, first_header_part, second_header_part, body_part, SimpleTransport, sub32,
}
use dbus_cxx.SimpleTransport.Reading.{announced, padded_size, prepared, counted_down}

-- A word of four bytes, the lowest first, before `rest`.
abbrev little_word : ℕ → List ℕ → List ℕ
little_word v rest = byte0 v ∷ byte1 v ∷ byte2 v ∷ byte3 v ∷ rest

-- The first 16 bytes of a message in either byte order.
abbrev pub first_bytes : Endianess → ℕ → ℕ → ℕ → ℕ → ℕ → ℕ → List ℕ
first_bytes little code flags version body_len serial array_len =
    b'l'
    ∷ code
    ∷ flags
    ∷ version
    ∷ little_word body_len (little_word serial (little_word array_len []))
first_bytes big code flags version body_len serial array_len =
    b'B' ∷ code ∷ flags ∷ version ∷ word body_len (word serial (word array_len []))

-- The sizes that the first 16 bytes give.
abbrev pub Announces : ℕ → ℕ → List ℕ → Type 0
Announces body_len array_len first =
    (e : Endianess) × (announced (reader first 0)
      ≡ ok (some (body_len, array_len), record { bytes = first; pos = 16; endian = e }))

little_word_at :
    (v : ℕ) (front back : List ℕ)
    → v < 2 ^ 32
    → length front % 4 ≡ 0
    → length front + 4 + length back < 2 ^ 32
    → Reader.demarshal_uint32
        (record { bytes = front ++ little_word v back; pos = length front; endian = little })
      ≡ ok (
        v,
        record { bytes = front ++ little_word v back; pos = length front + 4; endian = little },
      )
unfolding Reader.demarshal_uint32
little_word_at v front back h aligned fits = rw (
  int_little-behind front little (length front) back (byte0 v) (byte1 v) (byte2 v) (byte3 v)
      (omega arith) (omega arith),
  int_bytes v h,
)

pub first_bytes-Announces :
    (e : Endianess) (code flags version body_len serial array_len : ℕ)
    → body_len < 2 ^ 32
    → array_len < 2 ^ 32
    → Announces body_len array_len (first_bytes e code flags version body_len serial array_len)
unfolding announced Reader.demarshal_uint8 Reader.set_endianess Reader.set_data_offset
    Reader.is_valid Reader.byte_at Reader.advance
first_bytes-Announces big code flags version body_len serial array_len b h = (
  big,
  rw (
    word_at body_len (b'B' ∷ code ∷ flags ∷ version ∷ []) (word serial (word array_len [])) b refl
        (omega arith),
    word_at array_len (b'B' ∷ code ∷ flags ∷ version ∷ word body_len (word serial [])) [] h refl
        (omega arith),
  ),
)
first_bytes-Announces little code flags version body_len serial array_len b h = (
  little,
  rw (
    little_word_at body_len (b'l' ∷ code ∷ flags ∷ version ∷ [])
        (little_word serial (little_word array_len [])) b refl (omega arith),
    little_word_at array_len
        (b'l' ∷ code ∷ flags ∷ version ∷ little_word body_len (little_word serial [])) [] h refl
        (omega arith),
  ),
)

pub length-first_bytes :
    (e : Endianess) (code flags version body_len serial array_len : ℕ)
    → length (first_bytes e code flags version body_len serial array_len) ≡ 16
length-first_bytes big code flags version body_len serial array_len = refl
length-first_bytes little code flags version body_len serial array_len = refl

pub announced-fixed_bytes :
    (code flags body_len serial array_len : ℕ)
    → body_len < 2 ^ 32
    → array_len < 2 ^ 32
    → Announces body_len array_len (fixed_bytes code flags body_len serial array_len)
announced-fixed_bytes code flags body_len serial array_len b h =
    first_bytes-Announces big code flags 1 body_len serial array_len b h

pub padded_size-padding : (h : ℕ) → h + 32 < 2 ^ 32 → padded_size h ≡ h + padding 8 (16 + h)
unfolding padded_size
padded_size-padding h small = ground arith

pub take-append : (a b : List ℕ) → take (length a) (a ++ b) ≡ a
take-append [] b = refl
take-append (x ∷ a) b = ap (λ (l : List ℕ). x ∷ l) (take-append a b)

-- A transport between two messages.
abbrev pub IsIdle : SimpleTransport → Type 0
IsIdle t =
    (t.reading_state ≡ first_header_part)
    × (t.receive_buffer_location ≡ 0)
    × (t.header_left_to_read ≡ 0)
    × (16 ≤ t.receive_buffer_size)

module _ (t : SimpleTransport) where
  abbrev pub idle : SimpleTransport
  idle = record t {
    reading_state = first_header_part;
    receive_buffer_location = 0;
    header_left_to_read = 0;
  }

  -- With the fixed part in the buffer.
  abbrev pub started : List ℕ → SimpleTransport
  started buffer = record t {
    reading_state = second_header_part;
    receive_buffer = buffer;
    receive_buffer_location = 16;
    header_left_to_read = 0;
  }

  -- With the counters set.
  abbrev pub waiting : ℕ → ℕ → List ℕ → ℕ → SimpleTransport
  waiting header body buffer size = record t {
    reading_state = second_header_part;
    receive_buffer = buffer;
    receive_buffer_location = 16;
    receive_buffer_size = size;
    body_left_to_read = body;
    header_left_to_read = header;
  }

  abbrev pub full : ℕ → List ℕ → ℕ → SimpleTransport
  full n buffer size = record t {
    reading_state = body_part;
    receive_buffer = buffer;
    receive_buffer_location = 16 + n;
    receive_buffer_size = size;
    body_left_to_read = 0;
    header_left_to_read = 0;
  }

  pub all_counted :
      (header body size : ℕ) (buffer : List ℕ)
      → header + body + 40 < 2 ^ 32
      → counted_down (header + body) (waiting header body buffer size)
        ≡ full (header + body) buffer size
  unfolding counted_down
  all_counted header body size buffer small =
      let whole : leb header (header + body) ≡ true = ground arith in
      let none_left : sub32 body (header + body - header) ≡ 0 = omega arith in
      let there : u32 (16 + (header + body)) ≡ 16 + (header + body) = omega arith in
      rw (whole, none_left, there)

  abbrev pub after_message : List ℕ → ℕ → SimpleTransport
  after_message buffer size = record t {
    reading_state = first_header_part;
    receive_buffer = buffer;
    receive_buffer_location = 0;
    receive_buffer_size = size;
    body_left_to_read = 0;
    header_left_to_read = 0;
  }

  -- A buffer that holds the message.
  abbrev pub Prepared : ℕ → ℕ → List ℕ → List ℕ → Type 0
  Prepared header body first junk =
      (p : List ℕ × ℕ) × (prepared body header (started (first ++ junk))
        ≡ waiting header body p.0 p.1)
      × (take 16 p.0 ≡ first)
      × (16 + (header + body) ≤ p.1)

  pub grown :
      (header body : ℕ) (first junk : List ℕ)
      → header + body + 40 < 2 ^ 32
      → length first ≡ 16
      → Prepared header body first junk
  unfolding prepared
  grown header body first junk small sixteen =
      let held : take 16 (first ++ junk) ≡ first =
        ap (λ (n : ℕ). take n (first ++ junk)) (sym sixteen) ∙ take-append first junk in
      let twice : take 16 first ≡ first =
        ap (λ (l : List ℕ). take 16 l) (sym (append-nil first))
        ∙ ap (λ (n : ℕ). take n (first ++ [])) (sym sixteen)
        ∙ take-append first [] in
      let total : u32 (12 + header + body + 12) ≡ 24 + header + body = omega arith in
      elim (Bool-cases (ltb t.receive_buffer_size (u32 (12 + header + body + 12)))) [
        | inl more ↦
            ((first, u32 (12 + header + body + 12)), rw (more, held), twice, omega (arith, total))
        | inr enough ↦
            ((first ++ junk, t.receive_buffer_size), rw enough, held, ground (arith, total, enough))
      ]

pub idle_eq : (t : SimpleTransport) → IsIdle t → idle t ≡ t
idle_eq t (state, place, left, room) =
    ap
      (λ (s : ReadingState). record t {
        reading_state = s;
        receive_buffer_location = 0;
        header_left_to_read = 0;
      })
      (sym state)
    ∙ ap (λ (n : ℕ). record t { receive_buffer_location = n; header_left_to_read = 0 }) (sym place)
    ∙ ap (λ (n : ℕ). record t { header_left_to_read = n }) (sym left)
