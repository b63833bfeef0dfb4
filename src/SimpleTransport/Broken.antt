-- ===== src/SimpleTransport/Broken.antt =====
-- Reads that SimpleTransport::readMessage does not count down well: a header array that arrives in
-- two reads, and announced sizes whose sum wraps around (dbus-cxx/simpletransport.cpp).
use dbus_cxx.Common.{
  ℕ, zero, suc, ◌+◌, ◌<◌, ◌≤◌, ◌^◌, ◌≡◌, refl, sym, ap, ◌∙◌, List, [], ◌++◌, Option, some, none,
  Bool-cases, inl, inr, true, false, length, replicate, take, drop, ltb, leb, ◌==◌, arith,
}
use dbus_cxx.Message.Bytes.{fixed_bytes}
use dbus_cxx.Wire.Words.{u32}
use dbus_cxx.Wire.Padding.{padding}
use dbus_cxx.Wire.Reader.{and_then, Outcome, ok, fault, Demarshaling}
use dbus_cxx.SimpleTransport.{
  second_header_part, SimpleTransport, Read, Result, sub32, stored, received,
}
use dbus_cxx.SimpleTransport.Reading.{
  read_body, counted_down, read_rest, read_second, read_message, prepared, planned, is_too_large,
  padded_size,
}
use dbus_cxx.SimpleTransport.Counters.{
  announced-fixed_bytes, IsIdle, idle_eq, started, waiting, grown,
}
use dbus_cxx.SimpleTransport.Delivery.{first_read, sizes_read}
use dbus_cxx.SimpleTransport.Queue.{Results, after_result, read_times}

module _ {K : Type 0} (read : Read K) (fuel : ℕ) (t : SimpleTransport) where
  -- Within the header array, at `place` of the buffer.
  abbrev halfway : ℕ → ℕ → ℕ → List ℕ → ℕ → SimpleTransport
  halfway header body place buffer size = record t {
    reading_state = second_header_part;
    receive_buffer = buffer;
    receive_buffer_location = place;
    receive_buffer_size = size;
    body_left_to_read = body;
    header_left_to_read = header;
  }

  -- A read of less than the header array: all of it is taken off the body.
  partial_read :
      (header body place size : ℕ) (buffer bytes : List ℕ) (k k' : K)
      → length bytes < header
      → place + length bytes ≤ size
      → place + length bytes < 2 ^ 32
      → read (u32 (header + body)) k ≡ (some bytes, k')
      → read_rest read (halfway header body place buffer size) k
        ≡ ok (
          none,
          halfway header
              (sub32 body (length bytes))
              (place + length bytes)
              (stored place bytes buffer)
              size,
          k',
        )
  unfolding counted_down read_body
  partial_read header body place size buffer bytes k k' short room small h =
      let f : ℕ → SimpleTransport → K → Result K =
        λ n t' k'. read_body read (counted_down n t') k' in
      let fits : ltb size (place + length bytes) ≡ false = ground arith in
      let more : leb header (length bytes) ≡ false = ground arith in
      let there : u32 (place + length bytes) ≡ place + length bytes = omega arith in
      let waits : (header == 0) ≡ false = ground arith in
      ap (received f (halfway header body place buffer size)) h ∙ rw (fits, more, there, waits)

  call :
      (header body place size : ℕ) (buffer : List ℕ) (k : K)
      → 0 < header
      → read_message fuel read (halfway header body place buffer size) k
        ≡ read_rest read (halfway header body place buffer size) k
  unfolding read_message read_second
  call header body place size buffer k h =
      let waits : (header == 0) ≡ false = ground arith in rw waits

  -- With nothing left to ask for, no call makes a difference.
  stalled :
      (n header body place size : ℕ) (buffer : List ℕ) (k : K)
      → 0 < header
      → u32 (header + body) ≡ 0
      → body < 2 ^ 32
      → place ≤ size
      → place < 2 ^ 32
      → read 0 k ≡ (some [], k)
      → (t' : SimpleTransport) × (read_times n fuel read (halfway header body place buffer size) k
          ≡ ok (replicate n none, t', k))
  stalled zero header body place size buffer k h nothing b room small still =
      (halfway header body place buffer size, refl)
  stalled (suc n) header body place size buffer k h nothing b room small still =
      let again =
        stalled n header body place size (stored place [] buffer) k h nothing b room small still in
      let same : sub32 body 0 ≡ body = omega arith in
      let here : place + 0 ≡ place = omega arith in
      let one : read_message fuel read (halfway header body place buffer size) k
          ≡ ok (none, halfway header body place (stored place [] buffer) size, k) =
        call header body place size buffer k h
        ∙ partial_read header body place size buffer [] k k h (omega (arith, room))
            (omega (arith, small)) (ap (λ (m : ℕ). read m k) nothing ∙ still)
        ∙ ap (λ (m : ℕ). ok (none, halfway header m (place + 0) (stored place [] buffer) size, k))
            same
        ∙ ap (λ (m : ℕ). ok (none, halfway header body m (stored place [] buffer) size, k)) here in
      (
        again.0,
        ap (λ (o : Result K). and_then o (λ p. after_result p.0 (read_times n fuel read p.1 p.2)))
              one
            ∙ ap (after_result none) again.1,
      )

-- Where the header array and the body of a message come to a transport between two messages in
-- two reads, the first and the second each shorter than the padded header array, and nothing is
-- given where nothing is asked for, no number of calls of readMessage returns a message.
pub read_times-header_in_two :
    {K : Type 0} (read : Read K) (fuel n : ℕ) (t : SimpleTransport)
    (code flags body_len serial array_len : ℕ) (a b : List ℕ) (k k' k'' last : K)
    → IsIdle t
    → body_len + array_len + 60 < 2 ^ 27
    → length a + length b ≡ array_len + padding 8 (16 + array_len) + body_len
    → 0 < length a
    → length a < array_len + padding 8 (16 + array_len)
    → length b < array_len + padding 8 (16 + array_len)
    → read 16 k ≡ (some (fixed_bytes code flags body_len serial array_len), k')
    → read (length a + length b) k' ≡ (some a, k'')
    → read (length b) k'' ≡ (some b, last)
    → read 0 last ≡ (some [], last)
    → (t' : SimpleTransport) × (read_times (suc (suc n)) fuel read t k
        ≡ ok (replicate (suc (suc n)) none, t', last))
read_times-header_in_two {K} read fuel n t code flags body_len serial array_len a b k k' k'' last
      still small whole some_a short_a short_b first_bytes a_bytes b_bytes no_more =
    let first : List ℕ = fixed_bytes code flags body_len serial array_len in
    let header : ℕ = array_len + padding 8 (16 + array_len) in
    let ((buffer, size), is_waiting, begun, room) =
      grown t header body_len first (drop 16 t.receive_buffer) (omega arith) refl in
    let asked_a : u32 (header + body_len) ≡ length a + length b = omega arith in
    let left : ℕ = sub32 body_len (length a) in
    let asked_b : u32 (header + left) ≡ length b = omega arith in
    let asked_none : u32 (header + sub32 left (length b)) ≡ 0 = omega arith in
    let place : ℕ = 16 + length a in
    let one : read_message fuel read t k
        ≡ ok (none, halfway read fuel t header left place (stored 16 a buffer) size, k'') =
      ap (λ (u : SimpleTransport). read_message fuel read u k) (sym (idle_eq t still))
      ∙ first_read read fuel t first k k' refl still.3 first_bytes
      ∙ sizes_read read fuel t body_len array_len first (drop 16 t.receive_buffer) k' refl
          (announced-fixed_bytes code flags body_len serial array_len (omega arith) (omega arith))
          (omega arith)
      ∙ ap (λ (u : SimpleTransport). read_rest read u k') is_waiting
      ∙ partial_read read fuel t header body_len 16 size buffer a k' k'' short_a
          (omega (arith, room, whole)) (omega arith)
          (ap (λ (m : ℕ). read m k') asked_a ∙ a_bytes) in
    let two =
      call read fuel t header left place size (stored 16 a buffer) k'' (omega arith)
      ∙ partial_read read fuel t header left place size (stored 16 a buffer) b k'' last short_b
          (omega (arith, room, whole)) (omega arith)
          (ap (λ (m : ℕ). read m k'') asked_b ∙ b_bytes) in
    let later =
      stalled read fuel t n header (sub32 left (length b)) (place + length b) size
        (stored place b (stored 16 a buffer)) last (omega arith) asked_none (omega arith)
        (omega (arith, room, whole)) (omega arith) no_more in
    (
      later.0,
      ap
            (λ (o : Result K).
              and_then o (λ p. after_result p.0 (read_times (suc n) fuel read p.1 p.2)))
            one
          ∙ ap
              (λ (o : Result K).
                after_result none
                  (and_then o (λ p. after_result p.0 (read_times n fuel read p.1 p.2))))
              two
          ∙ ap (λ (o : Results K). after_result none (after_result none o)) later.1,
    )

rest_overruns :
    {K : Type 0} (read : Read K) (t : SimpleTransport) (bytes : List ℕ) (k k' : K)
    → t.receive_buffer_size < t.receive_buffer_location + length bytes
    → read (u32 (t.header_left_to_read + t.body_left_to_read)) k ≡ (some bytes, k')
    → read_rest read t k ≡ fault
rest_overruns {K} read t bytes k k' over h =
    let f : ℕ → SimpleTransport → K → Result K = λ n t' k'. read_body read (counted_down n t') k' in
    let beyond : ltb t.receive_buffer_size (t.receive_buffer_location + length bytes) ≡ true =
      ground arith in
    ap (received f t) h ∙ rw beyond

-- The sizes that wrap around: the buffer stays as small as it is.
wrapped :
    {K : Type 0} (read : Read K) (t : SimpleTransport) (body_len : ℕ) (buffer bytes : List ℕ)
    (k k' : K)
    → 2 ^ 32 ≤ body_len + 20
    → body_len + 8 < 2 ^ 32
    → 16 ≤ t.receive_buffer_size
    → t.receive_buffer_size < 8 + length bytes
    → read (body_len + 8) k ≡ (some bytes, k')
    → read_rest read (prepared body_len 8 (started t buffer)) k ≡ fault
unfolding prepared
wrapped read t body_len buffer bytes k k' low high room over h =
    let total : u32 (12 + 8 + body_len + 12) + 2 ^ 32 ≡ body_len + 32 = omega arith in
    let asked : read (u32 (8 + body_len)) k ≡ (some bytes, k') =
      ap (λ (n : ℕ). read n k) (omega arith) ∙ h in
    elim (Bool-cases (ltb t.receive_buffer_size (u32 (12 + 8 + body_len + 12)))) [
      | inl more ↦ rw more (
          rest_overruns read (waiting t 8 body_len (take 16 buffer) (u32 (12 + 8 + body_len + 12)))
            bytes k k' (omega (arith, total, high, low, room, over)) asked)
      | inr enough ↦ rw enough (
          rest_overruns read (waiting t 8 body_len buffer t.receive_buffer_size) bytes k k'
            (omega (arith, over)) asked)
    ]

-- Where the first 16 bytes announce a header array of 8 bytes and a body of 2 ^ 32 - 20 or more
-- but fewer than 2 ^ 32 - 8 bytes, the message passes the test of its size, and as soon as at
-- least 8 bytes more than the buffer is long come in the next read, they are stored outside the
-- buffer.
pub read_message-overrun :
    {K : Type 0} (read : Read K) (fuel : ℕ) (t : SimpleTransport) (code flags body_len serial : ℕ)
    (bytes : List ℕ) (k k' k'' : K)
    → IsIdle t
    → 2 ^ 32 ≤ body_len + 20
    → body_len + 8 < 2 ^ 32
    → t.receive_buffer_size < 8 + length bytes
    → read 16 k ≡ (some (fixed_bytes code flags body_len serial 8), k')
    → read (body_len + 8) k' ≡ (some bytes, k'')
    → read_message fuel read t k ≡ fault
unfolding read_second is_too_large padded_size
read_message-overrun read fuel t code flags body_len serial bytes k k' k'' still low high over
      first_bytes more_bytes =
    let first : List ℕ = fixed_bytes code flags body_len serial 8 in
    let buffer : List ℕ = first ++ drop 16 t.receive_buffer in
    let there : SimpleTransport = started t buffer in
    let passes : ltb (2 ^ 27) (u32 (body_len + 8 + 12)) ≡ false = ground arith in
    ap (λ (u : SimpleTransport). read_message fuel read u k) (sym (idle_eq t still))
    ∙ first_read read fuel t first k k' refl still.3 first_bytes
    ∙ ap
        (λ (o : Outcome (Option (ℕ × ℕ) × Demarshaling)).
          planned fuel read there k' o (read_rest read))
        (announced-fixed_bytes code flags body_len serial 8 (omega arith) (omega arith)).1
    ∙ rw passes (wrapped read t body_len buffer bytes k' k'' low high still.3 over more_bytes)
