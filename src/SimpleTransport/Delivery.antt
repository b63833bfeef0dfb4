-- ===== src/SimpleTransport/Delivery.antt =====
-- Messages that arrive in two reads each (dbus-cxx/simpletransport.cpp).
use dbus_cxx.Common.{
  ℕ, ◌+◌, ◌<◌, ◌≤◌, ◌^◌, ◌≡◌, refl, sym, ap, ◌∙◌, List, [], ◌++◌, Option, some, none, Bool, false,
  not, length, length-append, length-replicate, replicate, take, drop, ltb, ◌==◌, if◌then◌else◌,
  arith,
}
use dbus_cxx.Header.{MessageType}
use dbus_cxx.Message.{Message}
use dbus_cxx.Message.Format.{message_code}
use dbus_cxx.Message.Entries.{Fields, entries_bytes, Ascends, Readable, fds_of}
use dbus_cxx.Message.Parse.{create_from_data}
use dbus_cxx.Message.Bytes.{fixed_bytes, message_bytes, message_of_fields, IsWritable}
use dbus_cxx.Message.RoundTrip.{create_from_data-serialize_to_vector}
use dbus_cxx.Wire.Words.{big, u32}
use dbus_cxx.Wire.Padding.{padding}
use dbus_cxx.Wire.Reader.{and_then, Outcome, ok, fault, Demarshaling}
use dbus_cxx.SimpleTransport.{SimpleTransport, Read, Write, Result, write_message, stored, received}
use dbus_cxx.SimpleTransport.Reading.{
  finish, read_body, prepared, is_too_large, planned, announced, counted_down, read_rest,
  read_second, advanced, read_message,
}
use dbus_cxx.SimpleTransport.Counters.{
  Announces, announced-fixed_bytes, padded_size-padding, take-append, IsIdle, idle, started,
  waiting, full, after_message, all_counted, grown, idle_eq,
}

module _ {K : Type 0} (read : Read K) (fuel : ℕ) (t : SimpleTransport) where
  -- The first 16 bytes of a message.
  pub first_read :
      (first : List ℕ) (k k' : K)
      → length first ≡ 16
      → 16 ≤ t.receive_buffer_size
      → read 16 k ≡ (some first, k')
      → read_message fuel read (idle t) k
        ≡ read_second fuel read (started t (first ++ drop 16 t.receive_buffer)) k'
  unfolding read_message advanced
  first_read first k k' sixteen room h =
      let f : ℕ → SimpleTransport → K → Result K = λ n t' k'.
        if n == 0
        then ok (none, record t' { is_ok = false }, k')
        else read_second fuel read (advanced n t') k' in
      let g : ℕ → Result K = λ n.
        if ltb t.receive_buffer_size (0 + n)
        then fault
        else f n (record (idle t) { receive_buffer = first ++ drop (0 + n) t.receive_buffer }) k' in
      let big_enough : ltb t.receive_buffer_size 16 ≡ false = ground arith in
      ap (received f (idle t)) h
      ∙ ap g sixteen
      ∙ ap
          (λ (b : Bool).
            if b
            then fault
            else read_second fuel read (started t (first ++ drop 16 t.receive_buffer)) k')
          big_enough

  -- The sizes that they announce.
  pub sizes_read :
      (body_len array_len : ℕ) (first buffer : List ℕ) (k : K)
      → length first ≡ 16
      → Announces body_len array_len first
      → body_len + array_len + 40 < 2 ^ 27
      → read_second fuel read (started t (first ++ buffer)) k
        ≡ read_rest read
            (prepared body_len
              (array_len + padding 8 (16 + array_len))
              (started t (first ++ buffer)))
            k
  unfolding read_second is_too_large
  sizes_read body_len array_len first buffer k sixteen announces small =
      let there : SimpleTransport = started t (first ++ buffer) in
      let fits : ltb (2 ^ 27) (u32 (body_len + array_len + 12)) ≡ false = ground arith in
      let held : take 16 (first ++ buffer) ≡ first =
        ap (λ (n : ℕ). take n (first ++ buffer)) (sym sixteen) ∙ take-append first buffer in
      ap
        (λ (bytes : List ℕ).
          planned fuel read there k (announced (record { bytes = bytes; pos = 0; endian = big }))
            (read_rest read))
        held
      ∙ ap
          (λ (o : Outcome (Option (ℕ × ℕ) × Demarshaling)).
            planned fuel read there k o (read_rest read))
          announces.1
      ∙ rw (fits, padded_size-padding array_len (omega arith))

  full_read :
      (first rest junk : List ℕ) (size : ℕ) (msg : Message) (k : K)
      → length first ≡ 16
      → create_from_data (first ++ rest) [] ≡ ok msg
      → read_body read (full t (length rest) (first ++ rest ++ junk) size) k
        ≡ ok (some msg, after_message t (first ++ rest ++ junk) size, k)
  unfolding read_body finish
  full_read first rest junk size msg k sixteen created =
      let whole : take (16 + length rest) (first ++ rest ++ junk) ≡ first ++ rest =
        ap (λ (n : ℕ). take n (first ++ rest ++ junk))
          (omega (arith, sixteen, length-append first rest))
        ∙ take-append (first ++ rest) junk in
      ap
        (λ (l : List ℕ).
          and_then (create_from_data l [])
            (λ m. ok (some m, after_message t (first ++ rest ++ junk) size, k)))
        whole
      ∙ ap
          (λ (o : Outcome Message).
            and_then o (λ m. ok (some m, after_message t (first ++ rest ++ junk) size, k)))
          created

  rest_read :
      (first rest buffer : List ℕ) (header body size : ℕ) (msg : Message) (k k' : K)
      → take 16 buffer ≡ first
      → length first ≡ 16
      → length rest ≡ header + body
      → header + body + 40 < 2 ^ 32
      → 16 + (header + body) ≤ size
      → create_from_data (first ++ rest) [] ≡ ok msg
      → read (header + body) k ≡ (some rest, k')
      → read_rest read (waiting t header body buffer size) k
        ≡ ok (some msg, after_message t (stored 16 rest buffer) size, k')
  rest_read first rest buffer header body size msg k k' begun sixteen rest_length small room created
        h =
      let f : ℕ → SimpleTransport → K → Result K =
        λ n t' k'. read_body read (counted_down n t') k' in
      let asked : u32 (header + body) ≡ header + body = omega arith in
      let fits : ltb size (16 + length rest) ≡ false = ground (arith, rest_length) in
      let junk : List ℕ = drop (16 + length rest) buffer in
      ap (λ (n : ℕ). received f (waiting t header body buffer size) (read n k)) asked
      ∙ ap (received f (waiting t header body buffer size)) h
      ∙ ap
          (λ (b : Bool).
            if b
            then fault
            else f (length rest) (waiting t header body (stored 16 rest buffer) size) k')
          fits
      ∙ ap
          (λ (n : ℕ).
            read_body read (counted_down n (waiting t header body (stored 16 rest buffer) size)) k')
          rest_length
      ∙ ap (λ (u : SimpleTransport). read_body read u k')
          (all_counted t header body size (stored 16 rest buffer) small)
      ∙ ap (λ (n : ℕ). read_body read (full t n (stored 16 rest buffer) size) k') (sym rest_length)
      ∙ rw begun (full_read first rest junk size msg k' sixteen created)

-- What a call of readMessage on a message that arrives in two reads gives.
abbrev pub Delivers : {K : Type 0} → ℕ → Read K → SimpleTransport → K → Message → K → Type 0
Delivers fuel read t k msg k' =
    (t' : SimpleTransport) × IsIdle t' × (read_message fuel read t k ≡ ok (some msg, t', k'))

pub read_message-two_reads :
    {K : Type 0} (read : Read K) (fuel : ℕ) (t : SimpleTransport) (body_len array_len : ℕ)
    (first rest : List ℕ) (msg : Message) (k k' k'' : K)
    → IsIdle t
    → length first ≡ 16
    → Announces body_len array_len first
    → body_len + array_len + 60 < 2 ^ 27
    → length rest ≡ array_len + padding 8 (16 + array_len) + body_len
    → create_from_data (first ++ rest) [] ≡ ok msg
    → read 16 k ≡ (some first, k')
    → read (length rest) k' ≡ (some rest, k'')
    → Delivers fuel read t k msg k''
read_message-two_reads read fuel t body_len array_len first rest msg k k' k'' still sixteen
      announces small rest_length created first_bytes rest_bytes =
    let header : ℕ = array_len + padding 8 (16 + array_len) in
    let ((buffer, size), is_waiting, begun, room) =
      grown t header body_len first (drop 16 t.receive_buffer) (omega arith) sixteen in
    (
      after_message t (stored 16 rest buffer) size,
      (refl, refl, refl, omega (arith, room)),
      ap (λ (u : SimpleTransport). read_message fuel read u k) (sym (idle_eq t still))
          ∙ first_read read fuel t first k k' sixteen still.3 first_bytes
          ∙ sizes_read read fuel t body_len array_len first (drop 16 t.receive_buffer) k' sixteen
              announces (omega arith)
          ∙ ap (λ (u : SimpleTransport). read_rest read u k') is_waiting
          ∙ rest_read read fuel t first rest buffer header body_len size msg k' k'' begun sixteen
              rest_length (omega arith) room created
              (ap (λ (n : ℕ). read n k') (sym rest_length) ∙ rest_bytes),
    )

-- writeMessage of a writable message hands the kernel the bytes of the message in one call; and
-- where the kernel gives a transport between two messages the first 16 of these bytes and then
-- the others, one call of readMessage returns the message with the serial that it was sent with
-- and is again between two messages. The message has header fields in order that can be read
-- back, no descriptors, and is at least 60 bytes below 2 ^ 27.
pub read_message-write_message :
    {K L : Type 0} (read : Read K) (write : Write L) (fuel : ℕ) (sender receiver : SimpleTransport)
    (kind : MessageType) (flags first serial : ℕ) (fs : Fields) (body : List ℕ) (k k' k'' : K)
    (l : L)
    → IsWritable (message_of_fields kind flags first fs body [])
    → serial < 2 ^ 32
    → Ascends 0 fs
    → Readable 0 fs
    → length (message_bytes kind flags serial fs body) + 60 < 2 ^ 27
    → IsIdle receiver
    → read 16 k ≡ (some (take 16 (message_bytes kind flags serial fs body)), k')
    → read (length (drop 16 (message_bytes kind flags serial fs body))) k'
      ≡ (some (drop 16 (message_bytes kind flags serial fs body)), k'')
    → (write_message write (message_of_fields kind flags first fs body []) serial sender l
        ≡ ok (
          (write (message_bytes kind flags serial fs body) l).0,
          record sender { send_buffer = message_bytes kind flags serial fs body },
          (write (message_bytes kind flags serial fs body) l).1,
        ))
      × Delivers fuel read receiver k
          (message_of_fields kind flags serial fs body (fds_of [] fs))
          k''
unfolding write_message
read_message-write_message {K} {L} read write fuel sender receiver kind flags first serial fs body k
      k' k'' l valid s up good small still first_bytes rest_bytes =
    let bytes : List ℕ = message_bytes kind flags serial fs body in
    let (written, parsed) =
      create_from_data-serialize_to_vector kind flags first serial fs body [] valid s up good
        (omega arith) (omega arith) in
    let entries : List ℕ = entries_bytes 16 fs in
    let zeros : List ℕ = replicate (padding 8 (length (fixed_bytes 0 0 0 0 0 ++ entries))) 0 in
    let rest_length : length (entries ++ zeros ++ body)
        ≡ length entries + padding 8 (16 + length entries) + length body =
      omega (
        arith,
        length-append (entries ++ zeros) body,
        length-append entries zeros,
        length-replicate {A = ℕ} (padding 8 (length (fixed_bytes 0 0 0 0 0 ++ entries))) 0,
      ) in
    (
      ap
          (λ (o : Outcome (Bool × List ℕ)). and_then o (λ p.
            if not p.0
            then ok (some 0, record sender { send_buffer = p.1 }, l)
            else ok ((write p.1 l).0, record sender { send_buffer = p.1 }, (write p.1 l).1)))
          written,
      read_message-two_reads read fuel receiver (length body) (length entries)
          (fixed_bytes (message_code kind) flags (length body) serial (length entries))
          (entries ++ zeros ++ body) (message_of_fields kind flags serial fs body (fds_of [] fs)) k
          k' k'' still refl
          (announced-fixed_bytes (message_code kind) flags (length body) serial (length entries)
            (omega (arith, rest_length)) (omega (arith, rest_length)))
          (omega (arith, rest_length)) rest_length parsed first_bytes rest_bytes,
    )
