-- ===== src/Message/Parse.antt =====
-- Message::create_from_data of dbus-cxx/message.cpp.
use dbus_cxx.Common.{
  ℕ, zero, suc, ◌+◌, ◌^◌, List, [], ◌∷◌, ◌++◌, Bool, true, false, Option, some, none, length,
  get_elem?, ltb, ◌==◌, if◌then◌else◌,
}
use dbus_cxx.Header.{
  MessageHeaderFields, MessageType, invalid_field, unix_fds_field, call, return, error, signal,
  int_to_header_field,
}
use dbus_cxx.Message.{Message, HeaderMap, insert}
use dbus_cxx.Wire.Words.{Endianess, little, big, u32}
use dbus_cxx.Wire.Reader
use dbus_cxx.Wire.Reader.{
  Demarshaling, Outcome, ok, fault, stuck, raise, abort, D, pure, then_on, ◌>>=◌, ◌>>◌,
}
use dbus_cxx.Wire.Variant.{Variant, to_uint32, demarshal_variant}

-- `for( fd_num = 0; fd_num < total_fds; fd_num++ ) real_fds.push_back( fds[ fd_num ] )`: the first
-- `n` of the descriptors, from the `i`th on. Beyond the end of the vector the read is a fault.
unfoldable pub push_fds : ℕ → ℕ → List ℕ → List ℕ → Outcome (List ℕ)
push_fds zero i fds real_fds = ok real_fds
push_fds (suc n) i fds real_fds = elim (get_elem? fds i) [
  | none ↦ fault
  | some fd ↦ push_fds n (i + 1) fds (real_fds ++ (fd ∷ []))
]

-- `int total_fds = value.to_uint32()`: a pattern above 2 ^ 31 is a negative number, and nothing is
-- copied.
abbrev pub fds_from : Outcome ℕ → List ℕ → List ℕ → Outcome (List ℕ)
fds_from (ok n) fds real_fds = push_fds (if ltb n (2 ^ 31) then n else 0) 0 fds real_fds
fds_from abort fds real_fds = abort
fds_from fault fds real_fds = fault
fds_from raise fds real_fds = raise
fds_from stuck fds real_fds = stuck

abbrev pub is_unix_fds : MessageHeaderFields → Bool
is_unix_fds unix_fds_field = true
is_unix_fds _ = false

abbrev pub is_invalid_field : MessageHeaderFields → Bool
is_invalid_field invalid_field = true
is_invalid_field _ = false

-- What the loop over the header array builds: the map and the descriptors.
abbrev pub Headers : Type 0
Headers = HeaderMap × List ℕ

abbrev with_fds : MessageHeaderFields → Variant → HeaderMap → Outcome (List ℕ) → D Headers
with_fds key value map (ok fds) r = ok ((insert key value map, fds), r)
with_fds key value map abort r = abort
with_fds key value map fault r = fault
with_fds key value map raise r = raise
with_fds key value map stuck r = stuck

-- An entry that has been read: an unknown field is passed over.
unfoldable pub store : List ℕ → MessageHeaderFields → Variant → Headers → D Headers
unfolding push_fds
store fds key value (map, real_fds) =
    if is_invalid_field key
    then pure (map, real_fds)
    else with_fds key value map
        (if is_unix_fds key then fds_from (to_uint32 value) fds real_fds else ok real_fds)

-- One round of the loop. `fuel` bounds the variants in variants.
unfoldable pub demarshal_header : ℕ → List ℕ → Headers → D Headers
demarshal_header fuel fds headers = do
  Reader.align 8
  key ← Reader.demarshal_uint8
  value ← demarshal_variant fuel
  store fds (int_to_header_field key) value headers

-- `while( current_offset() < ( 12 + arrayLen ) )`, on fuel.
unfoldable pub demarshal_headers : ℕ → List ℕ → ℕ → Headers → D Headers
demarshal_headers zero fds bound headers r = stuck
demarshal_headers (suc fuel) fds bound headers r = elim (ltb (Reader.current_offset r) bound) [
  | true ↦ then_on (demarshal_header (suc fuel) fds headers r) (demarshal_headers fuel fds bound)
  | false ↦ ok (headers, r)
]

-- The loop that reads the body.
unfoldable pub demarshal_body : ℕ → D (List ℕ)
demarshal_body zero = pure []
demarshal_body (suc n) = do b ← Reader.demarshal_uint8; rest ← demarshal_body n; pure (b ∷ rest)

-- The switch on the type byte. For any other value `retmsg` stays null, and is used: a fault.
abbrev pub kind_of_code : ℕ → Option MessageType
kind_of_code n =
    if n == 1
    then some call
    else if n == 2
    then some return
    else if n == 3
    then some error
    else if n == 4
    then some signal
    else none

-- The state that the fields are copied to.
abbrev pub filled : Option MessageType → ℕ → ℕ → Endianess → Headers → ℕ → D Message
filled none serial flags e headers body_len r = fault
filled (some kind) serial flags e (map, fds) body_len r =
    then_on (demarshal_body body_len r) (λ body. pure (record {
      kind = kind;
      valid = true;
      header_map = map;
      body = body;
      endian = e;
      flags = flags;
      filedescriptors = fds;
      serial = serial;
    }))

abbrev pub byte_order : ℕ → Endianess
byte_order b = if b == b'l' then little else big

abbrev set_order : Endianess → D (Unit {0})
set_order e r = ok (tt, Reader.set_endianess e r)

unfoldable pub parse : List ℕ → ℕ → D Message
parse fds fuel = do
  order ← Reader.demarshal_uint8
  set_order (byte_order order)
  method_type ← Reader.demarshal_uint8
  flags ← Reader.demarshal_uint8
  version ← Reader.demarshal_uint8
  body_len ← Reader.demarshal_uint32
  serial ← Reader.demarshal_uint32
  array_len ← Reader.demarshal_uint32
  headers ← demarshal_headers fuel fds (u32 (12 + array_len)) ([], [])
  Reader.align 8
  filled (kind_of_code method_type) serial flags (byte_order order) headers body_len

abbrev message_of : Outcome (Message × Demarshaling) → Outcome Message
message_of (ok (msg, _)) = ok msg
message_of abort = abort
message_of fault = fault
message_of raise = raise
message_of stuck = stuck

-- A header takes a byte at least, so a round for each byte and one more are enough.
unfoldable pub create_from_data : List ℕ → List ℕ → Outcome Message
create_from_data bytes fds =
    message_of (parse fds (suc (length bytes)) (record { bytes = bytes; pos = 0; endian = big }))
