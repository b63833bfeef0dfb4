-- ===== src/Arguments/Fields.antt =====
-- The message that arguments are appended to: its Signature field and its body
-- (dbus-cxx/messageappenditerator.cpp, message.cpp).
use dbus_cxx.Common.{
  ℕ, ◌<◌, ◌≡◌, refl, ap, ◌∙◌, List, [], ◌∷◌, ◌++◌, append_assoc, append-nil, length, length-append,
  Bool, not, true, false, if◌then◌else◌, Option, none, some, All, arith,
}
use dbus_cxx.Header.{signature_field}
use dbus_cxx.Message.{Message, HeaderMap, insert, header_field, invalidate}
use dbus_cxx.Message.Fields.{find-insert, insert-insert}
use dbus_cxx.Wire.Words.{big}
use dbus_cxx.Wire.Writer
use dbus_cxx.Wire.Reader
use dbus_cxx.Wire.Reader.{and_then, Outcome, ok}
use dbus_cxx.Wire.Numbers.{writer}
use dbus_cxx.Wire.Text.{signature_read}
use dbus_cxx.Wire.Variant.{
  Value, byte_value, bool_value, int16_value, uint16_value, int32_value, uint32_value, int64_value,
  uint64_value, double_value, string_value, path_value, signature_value, IsInRange, Variant,
  no_variant, variant_of, value_signature, marshal_value,
}
use dbus_cxx.Wire.Variant.Conversions.{to_signature}
use dbus_cxx.Arguments.{old_signature, append_signature, is_too_long, marshal_argument, append}
use dbus_cxx.Arguments.Bytes.{marshal_argument-marshal_value}

-- The values one after the other.
abbrev pub append_all : List Value → Message → Outcome Message
append_all [] msg = ok msg
append_all (v ∷ vs) msg = and_then (append v msg) (append_all vs)

abbrev pub signatures : List Value → List ℕ
signatures [] = []
signatures (v ∷ vs) = value_signature v ++ signatures vs

-- The body that starts with `b` and has the values behind it.
abbrev pub body_of : List ℕ → List Value → List ℕ
body_of b [] = b
body_of b (v ∷ vs) = body_of (marshal_value v (writer b big)).bytes vs

-- The message with a signature and a body.
abbrev pub with_arguments : List ℕ → List ℕ → Message → Message
with_arguments s b msg = record msg {
  header_map = insert signature_field (variant_of (signature_value s)) msg.header_map;
  body = b;
}

pub to_signature-variant_of :
    (s : List ℕ) → length s < 256 → to_signature (variant_of (signature_value s)) ≡ ok s
unfolding to_signature variant_of marshal_value Writer.marshal_signature Writer.push_all
    Writer.push_back
to_signature-variant_of s h =
    let kept : List ℕ = (Writer.marshal_signature s (writer [] big)).bytes in
    let read : Reader.demarshal_signature (record { bytes = kept; pos = 0; endian = big })
        ≡ ok (s, record { bytes = kept; pos = length kept; endian = big }) =
      rw (append-nil kept) at
        (signature_read s [] big [] h (omega (arith, length-append s (0 ∷ [])))) in
    rw read

-- The field that a message with arguments has.
pub header_field-with_arguments :
    (s b : List ℕ) (msg : Message)
    → header_field signature_field (with_arguments s b msg) ≡ variant_of (signature_value s)
unfolding header_field
header_field-with_arguments s b msg =
    ap (λ (o : Option Variant). elim o [ none ↦ no_variant | some w ↦ w ])
      (find-insert signature_field (variant_of (signature_value s)) msg.header_map)

old_variant : (s : List ℕ) → length s < 256 → old_signature (variant_of (signature_value s)) ≡ ok s
unfolding variant_of
old_variant s h = to_signature-variant_of s h

old_with_arguments :
    (s b : List ℕ) (msg : Message)
    → length s < 256
    → old_signature (header_field signature_field (with_arguments s b msg)) ≡ ok s
old_with_arguments s b msg h =
    ap old_signature (header_field-with_arguments s b msg) ∙ old_variant s h

pub short_enough : (v : Value) → IsInRange v → is_too_long v ≡ false
short_enough (byte_value v) h = refl
short_enough (bool_value v) h = refl
short_enough (int16_value v) h = refl
short_enough (uint16_value v) h = refl
short_enough (int32_value v) h = refl
short_enough (uint32_value v) h = refl
short_enough (int64_value v) h = refl
short_enough (uint64_value v) h = refl
short_enough (double_value v) h = refl
short_enough (string_value v) h = refl
short_enough (path_value v) h = refl
short_enough (signature_value v) h = ground arith

-- A message with the field set, and with the bytes of a value behind its body.
abbrev with_field : List ℕ → Message → Message
with_field s msg = with_arguments s msg.body msg

abbrev with_value : Value → Message → Outcome Message
with_value v m =
    ok (record m { body = (marshal_argument v (record { bytes = m.body; endian = big })).bytes })

append_valid :
    (v : Value) (msg : Message)
    → IsInRange v
    → msg.valid ≡ true
    → append v msg ≡ and_then (append_signature (value_signature v) msg) (with_value v)
unfolding append
append_valid v msg range valid =
    let rest : Outcome Message =
      and_then (append_signature (value_signature v) msg) (with_value v) in
    ap (λ (b : Bool). if not b then ok msg else if is_too_long v then ok (invalidate msg) else rest)
      valid
    ∙ ap (λ (b : Bool). if b then ok (invalidate msg) else rest) (short_enough v range)

pub append_signature_lem :
    (to_append old : List ℕ) (msg : Message)
    → old_signature (header_field signature_field msg) ≡ ok old
    → append_signature to_append msg ≡ ok (with_field (old ++ to_append) msg)
unfolding append_signature
append_signature_lem to_append old msg before =
    ap (λ (o : Outcome (List ℕ)). and_then o (λ t. ok (with_field (t ++ to_append) msg))) before

-- What `append` does to a valid message whose signature is `old`.
pub appended :
    (v : Value) (msg : Message) (old : List ℕ)
    → IsInRange v
    → msg.valid ≡ true
    → old_signature (header_field signature_field msg) ≡ ok old
    → append v msg
      ≡ ok (
          with_arguments
            (old ++ value_signature v)
            (marshal_value v (writer msg.body big)).bytes
            msg)
appended v msg old range valid before =
    append_valid v msg range valid
    ∙ ap (λ (o : Outcome Message). and_then o (with_value v))
        (append_signature_lem (value_signature v) old msg before)
    ∙ ap (λ (m : Writer.Marshaling). ok (with_arguments (old ++ value_signature v) m.bytes msg))
        (marshal_argument-marshal_value v msg.body)

-- The field is replaced where there is one.
with_arguments_twice :
    (s t b c : List ℕ) (msg : Message)
    → with_arguments t c (with_arguments s b msg) ≡ with_arguments t c msg
with_arguments_twice s t b c msg =
    ap (λ (m : HeaderMap). record msg { header_map = m; body = c })
      (insert-insert signature_field (variant_of (signature_value s))
        (variant_of (signature_value t)) msg.header_map)

pub append_all-with_arguments :
    (vs : List Value) (s b : List ℕ) (msg : Message)
    → All IsInRange vs
    → msg.valid ≡ true
    → length (s ++ signatures vs) < 256
    → append_all vs (with_arguments s b msg)
      ≡ ok (with_arguments (s ++ signatures vs) (body_of b vs) msg)
append_all-with_arguments [] s b msg range valid short = rw append-nil
append_all-with_arguments (v ∷ vs) s b msg (range, ranges) valid short =
    let behind : s ++ value_signature v ++ signatures vs
        ≡ s ++ (value_signature v ++ signatures vs) =
      append_assoc s (value_signature v) (signatures vs) in
    let c : List ℕ = (marshal_value v (writer b big)).bytes in
    ap (λ (o : Outcome Message). and_then o (append_all vs))
      (appended v (with_arguments s b msg) s range valid (
        old_with_arguments s b msg
          (omega (arith, length-append s (value_signature v ++ signatures vs)))))
    ∙ ap (append_all vs) (with_arguments_twice s (s ++ value_signature v) b c msg)
    ∙ append_all-with_arguments vs (s ++ value_signature v) c msg ranges valid (rw behind short)
    ∙ ap (λ (t : List ℕ). ok (with_arguments t (body_of c vs) msg)) behind

-- A message with no signature yet.
pub append_all-first :
    (v : Value) (vs : List Value) (msg : Message)
    → All IsInRange (v ∷ vs)
    → msg.valid ≡ true
    → header_field signature_field msg ≡ no_variant
    → length (signatures (v ∷ vs)) < 256
    → append_all (v ∷ vs) msg
      ≡ ok (with_arguments (signatures (v ∷ vs)) (body_of msg.body (v ∷ vs)) msg)
append_all-first v vs msg (range, ranges) valid none_yet short =
    ap (λ (o : Outcome Message). and_then o (append_all vs))
      (appended v msg [] range valid (ap old_signature none_yet))
    ∙ append_all-with_arguments vs (value_signature v) (marshal_value v (writer msg.body big)).bytes
        msg ranges valid short
