-- ===== src/SimpleTransport.antt =====
-- The class SimpleTransport of dbus-cxx/simpletransport.cpp. The system calls `read` and `write` are
-- parameters: `K` is what the kernel keeps of the descriptor. The count that a call returns is the
-- number of the bytes that it gives, and `none` is the -1. The bytes written to the receive buffer so
-- far are a list; a read beyond the end of the buffer is a fault.
pub mod Reading
pub mod Counters
pub mod Delivery
pub mod Queue
pub mod Broken
mod Examples
use dbus_cxx.Common.{
  ℕ, zero, suc, ◌+◌, ◌-◌, ◌%◌, ◌^◌, List, [], ◌∷◌, ◌++◌, Option, some, none, Bool, true, false, not,
  length, take, drop, ltb, if◌then◌else◌,
}
use dbus_cxx.Message.{Message}
use dbus_cxx.Message.Format.{serialize_to_vector}
use dbus_cxx.Wire.Words.{u32}
use dbus_cxx.Wire.Reader.{and_then, Outcome, ok, fault, stuck}

pub data ReadingState : Type 0 where
  first_header_part second_header_part body_part : ReadingState

pub record SimpleTransport : Type 0 where
  pub is_ok : Bool
  pub reading_state : ReadingState
  pub send_buffer : List ℕ
  pub receive_buffer : List ℕ
  pub receive_buffer_location : ℕ
  pub receive_buffer_size : ℕ
  pub body_left_to_read : ℕ
  pub header_left_to_read : ℕ

abbrev pub Read : Type 0 → Type 0
Read K = ℕ → K → Option (List ℕ) × K

abbrev pub Write : Type 0 → Type 0
Write K = List ℕ → K → Option ℕ × K

-- The message that a call returns, or none, and what it leaves.
abbrev pub Result : Type 0 → Type 0
Result K = Outcome (Option Message × SimpleTransport × K)

-- The constructor, where the null byte, if there is one to write, is written.
unfoldable pub create : SimpleTransport
create = record {
  is_ok = true;
  reading_state = first_header_part;
  send_buffer = [];
  receive_buffer = [];
  receive_buffer_location = 0;
  receive_buffer_size = 512;
  body_left_to_read = 0;
  header_left_to_read = 0;
}

-- A difference of two numbers of 32 bits.
abbrev pub sub32 : ℕ → ℕ → ℕ
sub32 a b = u32 (a + (2 ^ 32 - b % 2 ^ 32))

abbrev pub is_first : ReadingState → Bool
is_first first_header_part = true
is_first _ = false

abbrev pub is_second : ReadingState → Bool
is_second second_header_part = true
is_second _ = false

abbrev pub is_body : ReadingState → Bool
is_body body_part = true
is_body _ = false

-- The buffer with `bytes` at offset `p`.
abbrev pub stored : ℕ → List ℕ → List ℕ → List ℕ
stored p bytes buffer = take p buffer ++ bytes ++ drop (p + length bytes) buffer

unfoldable pub write_message :
    {K : Type 0}
    → Write K
    → Message
    → ℕ
    → SimpleTransport
    → K
    → Outcome (Option ℕ × SimpleTransport × K)
write_message write msg serial t k = and_then (serialize_to_vector msg [] serial) (λ p.
    let sent = record t { send_buffer = p.1 } in
    if not p.0 then ok (some 0, sent, k) else (let out = write p.1 k in ok (out.0, sent, out.1)))

-- `do … while( bytes_read > 0 )`, on fuel.
unfoldable pub purge_loop : {K : Type 0} → ℕ → Read K → K → Outcome K
purge_loop zero read k = stuck
purge_loop (suc fuel) read k =
    let out = read 1024 k in
    elim out.0 [
      | none ↦ ok out.1
      | some bytes ↦ elim bytes [ [] ↦ ok out.1 | b ∷ bs ↦ purge_loop fuel read out.1 ]
    ]

unfoldable pub purge_data :
    {K : Type 0} → ℕ → Read K → SimpleTransport → K → Outcome (SimpleTransport × K)
purge_data fuel read t k = and_then (purge_loop fuel read k) (λ after. ok (
  record t {
    receive_buffer_location = 0;
    reading_state = first_header_part;
    header_left_to_read = 0;
  },
  after,
))

-- `read` to the buffer's location, and what is done with the count unless it is -1.
abbrev pub received :
    {K : Type 0}
    → (ℕ → SimpleTransport → K → Result K)
    → SimpleTransport
    → Option (List ℕ) × K
    → Result K
received f t (none, k) = ok (none, t, k)
received f t (some bytes, k) =
    if ltb t.receive_buffer_size (t.receive_buffer_location + length bytes)
    then fault
    else f (length bytes)
        (record t { receive_buffer = stored t.receive_buffer_location bytes t.receive_buffer }) k
