-- ===== src/Message/Fields.antt =====
-- The header map of a message (dbus-cxx/message.cpp).
use dbus_cxx.Common.{
  ℕ, ◌+◌, ◌<◌, ◌^◌, ◌≡◌, ◌≢◌, refl, sym, ap, ◌∙◌, List, [], ◌∷◌, length, length-append, append-nil,
  ◌≤◌, Bool-cases, inl, inr, true, false, Option, none, some, ==_refl, arith,
}
use dbus_cxx.Header.{
  MessageHeaderFields, destination_field, header_field_to_int, int_to_header_field,
  int_to_header_field-header_field_to_int,
}
use dbus_cxx.Validator.{validate_bus_name}
use dbus_cxx.Message.{
  Message, HeaderMap, find, insert, header_field, set_header_field, set_destination, destination,
}
use dbus_cxx.Wire.Words.{big}
use dbus_cxx.Wire.Writer
use dbus_cxx.Wire.Reader
use dbus_cxx.Wire.Reader.{Outcome, ok}
use dbus_cxx.Wire.Text.{string_read}
use dbus_cxx.Wire.Numbers.{writer}
use dbus_cxx.Wire.Variant.{Variant, string_value, variant_of, to_string, marshal_value, no_variant}

pub find-insert :
    (k : MessageHeaderFields) (v : Variant) (m : HeaderMap) → find k (insert k v m) ≡ some v
unfolding find insert
find-insert k v [] = rw (==_refl (header_field_to_int k))
find-insert k v ((j, w) ∷ m) = ground (arith, find-insert k v m)

pub find-insert_other :
    (k j : MessageHeaderFields) (v : Variant) (m : HeaderMap)
    → header_field_to_int j ≢ header_field_to_int k
    → find j (insert k v m) ≡ find j m
unfolding find insert
find-insert_other k j v [] h = ground arith
find-insert_other k j v ((i, w) ∷ m) h = ground (arith, find-insert_other k j v m h)

pub insert-insert :
    (k : MessageHeaderFields) (v w : Variant) (m : HeaderMap)
    → insert k w (insert k v m) ≡ insert k w m
unfolding insert
insert-insert k v w [] = ground arith
insert-insert k v w ((j, x) ∷ m) = ground (arith, insert-insert k v w m)

-- Two fields with the same number are the same.
header_field_to_int_injective :
    (j k : MessageHeaderFields) → header_field_to_int j ≡ header_field_to_int k → j ≡ k
header_field_to_int_injective j k e =
    sym (int_to_header_field-header_field_to_int.0 j)
    ∙ ap int_to_header_field e
    ∙ int_to_header_field-header_field_to_int.0 k

-- After set_header_field, which returns the old value of the field, header_field returns the
-- new one, and for every other field what it returned before.
pub header_field-set_header_field :
    (k : MessageHeaderFields) (v : Variant) (msg : Message)
    → (header_field k (set_header_field k v msg).0 ≡ v)
      × ((set_header_field k v msg).1 ≡ header_field k msg)
      × ((j : MessageHeaderFields)
          → j ≢ k
          → header_field j (set_header_field k v msg).0 ≡ header_field j msg)
unfolding header_field set_header_field
header_field-set_header_field k v msg = (
  ap (λ (o : Option Variant). elim o [ none ↦ no_variant | some w ↦ w ])
      (find-insert k v msg.header_map),
  refl,
  λ j other.
      ap (λ (o : Option Variant). elim o [ none ↦ no_variant | some w ↦ w ])
        (find-insert_other k j v msg.header_map (λ e. other (header_field_to_int_injective j k e))),
)

pub length-marshal_string :
    (s : List ℕ) → length (Writer.marshal_string s (writer [] big)).bytes ≡ length s + 5
unfolding Writer.marshal_string Writer.push_all Writer.push_back Writer.marshal_uint32
    Writer.marshal_int_big Writer.align
length-marshal_string s = omega (arith, length-append s (0 ∷ []))

pub to_string-variant_of :
    (s : List ℕ) → length s + 16 < 2 ^ 32 → to_string (variant_of (string_value s)) ≡ ok s
unfolding to_string variant_of marshal_value Writer.marshal_string Writer.push_all Writer.push_back
    Writer.marshal_uint32 Writer.marshal_int_big Writer.align
to_string-variant_of s h =
    let size : length (Writer.marshal_string s (writer [] big)).bytes ≡ length s + 5 =
      length-marshal_string s in
    let kept : List ℕ = (Writer.marshal_string s (writer [] big)).bytes in
    let read : Reader.demarshal_string (record { bytes = kept; pos = 0; endian = big })
        ≡ ok (s, record { bytes = kept; pos = length kept; endian = big }) =
      rw (append-nil kept) at (string_read s [] big [] (omega (arith, size))) in
    rw read

bus_name_length : (s : List ℕ) → validate_bus_name s ≡ true → length s ≤ 255
unfolding validate_bus_name
bus_name_length [] h = omega arith
bus_name_length (c ∷ cs) h = ground arith

destination_lem :
    (s : List ℕ) (msg : Message)
    → validate_bus_name s ≡ true
    → destination (set_header_field destination_field (variant_of (string_value s)) msg).0 ≡ ok s
unfolding destination variant_of to_string
destination_lem s msg h =
    let found =
      (header_field-set_header_field destination_field (variant_of (string_value s)) msg).0 in
    rw found (to_string-variant_of s (let short = bus_name_length s h in omega arith))

-- set_destination returns whether the name is a valid bus name; where it is, destination
-- returns the name from then on, and where it is not, the message is as it was.
pub destination-set_destination :
    (s : List ℕ) (msg : Message)
    → ((set_destination s msg).1 ≡ validate_bus_name s)
      × (validate_bus_name s ≡ true → destination (set_destination s msg).0 ≡ ok s)
      × (validate_bus_name s ≡ false → (set_destination s msg).0 ≡ msg)
unfolding set_destination set_header_field
destination-set_destination s msg = elim (Bool-cases (validate_bus_name s)) [
  | inl e ↦ rw (e, set_destination) (refl, λ _. destination_lem s msg e, λ f. absurd (cc f))
  | inr e ↦ rw (e, set_destination) (refl, λ f. absurd (cc f), λ _. refl)
]
