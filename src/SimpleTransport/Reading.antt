-- ===== src/SimpleTransport/Reading.antt =====
-- SimpleTransport::readMessage of dbus-cxx/simpletransport.cpp, one function for each of its parts.
use dbus_cxx.Common.{
  ℕ, ◌+◌, ◌-◌, ◌%◌, [], Option, some, none, Bool, false, not, take, ltb, leb, ◌==◌, if◌then◌else◌,
}
use dbus_cxx.Message.Format.{maximum_message_size}
use dbus_cxx.Message.Parse.{create_from_data}
use dbus_cxx.Wire.Words.{Endianess, little, big, u32}
use dbus_cxx.Wire.Reader
use dbus_cxx.Wire.Reader.{
  and_then, Outcome, ok, abort, fault, raise, stuck, D, Demarshaling, pure, then_on, ◌>>=◌, ◌>>◌,
}
use dbus_cxx.SimpleTransport.{
  sub32, is_first, is_second, is_body, purge_data, received, first_header_part, second_header_part,
  body_part, SimpleTransport, Read, Result,
}

-- The third `if` of `readMessage`: the rest of the body, and the message.
unfoldable pub finish : {K : Type 0} → SimpleTransport → K → Result K
finish t k =
    if t.body_left_to_read == 0
    then and_then (create_from_data (take t.receive_buffer_location t.receive_buffer) []) (λ msg.
      ok (
        some msg,
        record t {
          receive_buffer_location = 0;
          reading_state = first_header_part;
          header_left_to_read = 0;
        },
        k,
      ))
    else ok (none, t, k)

unfoldable pub read_body : {K : Type 0} → Read K → SimpleTransport → K → Result K
read_body read t k =
    if not (is_body t.reading_state)
    then ok (none, t, k)
    else if not (t.body_left_to_read == 0)
    then received (λ n t'. finish (record t' { body_left_to_read = sub32 t'.body_left_to_read n }))
        t (read t.body_left_to_read k)
    else finish t k

-- The sizes of the body and of the header array, and nothing for an unknown byte order.
abbrev set_offset : ℕ → D (Unit {0})
set_offset n r = ok (tt, Reader.set_data_offset n r)

abbrev sizes : Endianess → D (Option (ℕ × ℕ))
sizes e r =
    (do
      set_offset 4
      body_to_read ← Reader.demarshal_uint32
      set_offset 12
      header_array_size ← Reader.demarshal_uint32
      pure (some (body_to_read, header_array_size)))
      (Reader.set_endianess e r)

unfoldable pub announced : D (Option (ℕ × ℕ))
announced = do
  endian ← Reader.demarshal_uint8
  (if endian == b'l' then sizes little else if endian == b'B' then sizes big else pure none)

-- The size of the header array with its padding to a multiple of eight.
unfoldable pub padded_size : ℕ → ℕ
padded_size header_array_size =
    let bytes_to_add = 8 - u32 (16 + header_array_size) % 8 in
    if bytes_to_add == 8 then header_array_size else u32 (header_array_size + bytes_to_add)

-- The counters, and a buffer that is large enough.
unfoldable pub prepared : ℕ → ℕ → SimpleTransport → SimpleTransport
prepared body_to_read header_to_read t =
    let counted = record t {
      body_left_to_read = body_to_read;
      header_left_to_read = header_to_read;
    } in
    let total_message_size = u32 (12 + header_to_read + body_to_read + 12) in
    if ltb t.receive_buffer_size total_message_size
    then record counted {
      receive_buffer_size = total_message_size;
      receive_buffer = take t.receive_buffer_location t.receive_buffer;
    }
    else counted

unfoldable pub is_too_large : ℕ → ℕ → Bool
is_too_large body_to_read header_array_size =
    ltb maximum_message_size (u32 (body_to_read + header_array_size + 12))

-- The transport with its counters set, and nothing where the data were purged.
abbrev pub planned :
    {K : Type 0}
    → ℕ
    → Read K
    → SimpleTransport
    → K
    → Outcome (Option (ℕ × ℕ) × Demarshaling)
    → (SimpleTransport → K → Result K)
    → Result K
planned fuel read t k (ok (none, r)) f =
    and_then (purge_data fuel read t k) (λ p. ok (none, p.0, p.1))
planned fuel read t k (ok (some (b, h), r)) f =
    if is_too_large b h
    then and_then (purge_data fuel read t k) (λ p. ok (none, p.0, p.1))
    else f (prepared b (padded_size h) t) k
planned fuel read t k abort f = abort
planned fuel read t k fault f = fault
planned fuel read t k raise f = raise
planned fuel read t k stuck f = stuck

-- What a read of `n` bytes does to the counters and the state.
unfoldable pub counted_down : ℕ → SimpleTransport → SimpleTransport
counted_down n t =
    let there = record t { receive_buffer_location = u32 (t.receive_buffer_location + n) } in
    let left =
      if leb t.header_left_to_read n
      then record there {
        header_left_to_read = 0;
        body_left_to_read = sub32 t.body_left_to_read (n - t.header_left_to_read);
      }
      else record there { body_left_to_read = sub32 t.body_left_to_read n } in
    if left.header_left_to_read == 0 then record left { reading_state = body_part } else left

abbrev pub read_rest : {K : Type 0} → Read K → SimpleTransport → K → Result K
read_rest read t k =
    received (λ n t'. read_body read (counted_down n t')) t
      (read (u32 (t.header_left_to_read + t.body_left_to_read)) k)

-- The second `if`, and what follows it.
unfoldable pub read_second : {K : Type 0} → ℕ → Read K → SimpleTransport → K → Result K
read_second fuel read t k =
    if not (is_second t.reading_state)
    then read_body read t k
    else if t.header_left_to_read == 0
    then planned fuel read t k
        (announced (record { bytes = take 16 t.receive_buffer; pos = 0; endian = big }))
        (read_rest read)
    else read_rest read t k

unfoldable pub advanced : ℕ → SimpleTransport → SimpleTransport
advanced n t =
    let there = record t { receive_buffer_location = u32 (t.receive_buffer_location + n) } in
    if there.receive_buffer_location == 16
    then record there { reading_state = second_header_part }
    else there

-- `readMessage`: the first `if`, and what follows it. A count of 0 is the end of the stream.
unfoldable pub read_message : {K : Type 0} → ℕ → Read K → SimpleTransport → K → Result K
read_message fuel read t k =
    if not (is_first t.reading_state)
    then read_second fuel read t k
    else received
        (λ n t' k'.
          if n == 0
          then ok (none, record t' { is_ok = false }, k')
          else read_second fuel read (advanced n t') k')
        t (read (sub32 16 t.receive_buffer_location) k)
