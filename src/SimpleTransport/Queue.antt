-- ===== src/SimpleTransport/Queue.antt =====
-- Messages that arrive one behind the other (dbus-cxx/simpletransport.cpp).
use dbus_cxx.Common.{
  arith, ℕ, zero, suc, ◌+◌, ◌<◌, ◌^◌, ◌≡◌, refl, ap, ◌∙◌, List, [], ◌∷◌, ◌++◌, Option, some, length,
}
use mathlib.Core.List.{map}
use dbus_cxx.Message.{Message}
use dbus_cxx.Message.Parse.{create_from_data}
use dbus_cxx.Wire.Padding.{padding}
use dbus_cxx.Wire.Reader.{and_then, Outcome, ok}
use dbus_cxx.SimpleTransport.{SimpleTransport, Read, Result}
use dbus_cxx.SimpleTransport.Reading.{read_message}
use dbus_cxx.SimpleTransport.Counters.{
  IsIdle, first_bytes, first_bytes-Announces, length-first_bytes,
}
use dbus_cxx.Wire.Words.{Endianess}
use dbus_cxx.SimpleTransport.Delivery.{read_message-two_reads}

abbrev pub Results : Type 0 → Type 0
Results K = Outcome (List (Option Message) × SimpleTransport × K)

abbrev pub after_result : {K : Type 0} → Option Message → Results K → Results K
after_result msg o = and_then o (λ q. ok (msg ∷ q.0, q.1, q.2))

-- The results of one call after the other.
abbrev pub read_times : {K : Type 0} → ℕ → ℕ → Read K → SimpleTransport → K → Results K
read_times zero fuel read t k = ok ([], t, k)
read_times (suc n) fuel read t k =
    and_then (read_message fuel read t k) (λ p. after_result p.0 (read_times n fuel read p.1 p.2))

-- Messages of which each is given in two reads, the one behind the other.
pub data Arrives {K : Type 0} (read : Read K) : List Message → K → K → Type 0 where
  nothing : {k : K} → Arrives read [] k k
  message :
      {k k' k'' last : K} {msg : Message} {msgs : List Message} (e : Endianess)
      (code flags version body_len serial array_len : ℕ) (rest : List ℕ)
      → body_len + array_len + 60 < 2 ^ 27
      → length rest ≡ array_len + padding 8 (16 + array_len) + body_len
      → create_from_data (first_bytes e code flags version body_len serial array_len ++ rest) []
        ≡ ok msg
      → read 16 k ≡ (some (first_bytes e code flags version body_len serial array_len), k')
      → read (length rest) k' ≡ (some rest, k'')
      → Arrives read msgs k'' last
      → Arrives read (msg ∷ msgs) k last

-- A transport between two messages implements a queue of the messages that arrive one behind
-- the other: as many calls of readMessage as there are messages return them in order, and the
-- transport is again between two messages. Each message, of either byte order, arrives in two
-- reads, the first 16 bytes and the rest; create_from_data makes it from its bytes with no
-- descriptors; and the sizes of body and header array that its first 16 bytes announce sum up
-- to fewer than 2 ^ 27 - 60 and agree with the length of the rest.
pub read_times-Arrives :
    {K : Type 0} (read : Read K) (fuel : ℕ) (t : SimpleTransport) (msgs : List Message) (k last : K)
    → IsIdle t
    → Arrives read msgs k last
    → (t' : SimpleTransport) × IsIdle t'
      × (read_times (length msgs) fuel read t k ≡ ok (map (λ msg. some msg) msgs, t', last))
read_times-Arrives read fuel t _ k _ still nothing = (t, still, refl)
read_times-Arrives read fuel t _ k last still
      (message {k' = k'} {k'' = k''} {msg = msg} {msgs = msgs} e code flags version body_len serial
        array_len rest small rest_length created first_given rest_given others) =
    let (t', still', one) =
      read_message-two_reads read fuel t body_len array_len
        (first_bytes e code flags version body_len serial array_len) rest msg k k' k'' still
        (length-first_bytes e code flags version body_len serial array_len)
        (first_bytes-Announces e code flags version body_len serial array_len (omega arith)
          (omega arith))
        small rest_length created first_given rest_given in
    let (t'', still'', more) = read_times-Arrives read fuel t' msgs k'' last still' others in
    (
      t'',
      still'',
      ap
            (λ (o : Result _).
              and_then o (λ p. after_result p.0 (read_times (length msgs) fuel read p.1 p.2)))
            one
          ∙ ap (after_result (some msg)) more,
    )
