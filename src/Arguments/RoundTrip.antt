-- ===== src/Arguments/RoundTrip.antt =====
-- What is appended to a message and what its iterator reads
-- (dbus-cxx/messageappenditerator.cpp, messageiterator.cpp and message.cpp).
use dbus_cxx.Common.{
  ℕ, ◌<◌, ◌^◌, ◌≡◌, refl, ap, ◌∙◌, List, [], ◌∷◌, length, Bool, true, if◌then◌else◌, All,
}
use mathlib.Core.List.{map}
use dbus_cxx.Types.{invalid, char_to_dbus_type, is_container, type_number, same_type, signature}
use dbus_cxx.Header.{signature_field}
use dbus_cxx.Message.{Message, header_field}
use dbus_cxx.Signature.{Signature, link, signature_of, no_signature}
use dbus_cxx.Signature.Iterator
use dbus_cxx.Signature.Iterator.{SignatureIterator}
use dbus_cxx.Signature.Plain.{Item, single, IsItem, item_node, items_text}
use dbus_cxx.Signature.Printed.{signature_of-items_text}
use dbus_cxx.Wire.Words.{big}
use dbus_cxx.Wire.Reader.{and_then, Outcome, ok}
use dbus_cxx.Wire.Variant.{
  Value, byte_value, bool_value, int16_value, uint16_value, int32_value, uint32_value, int64_value,
  uint64_value, double_value, string_value, path_value, signature_value, value_type,
  value_signature, IsInRange, Variant, no_variant, variant_of,
}
use dbus_cxx.Wire.Variant.Conversions.{to_signature}
use dbus_cxx.Arguments.{MessageIterator, iterator_of, message_signature}
use dbus_cxx.Arguments.Fields.{
  append_all, signatures, body_of, with_arguments, to_signature-variant_of,
  header_field-with_arguments, append_all-first,
}
use dbus_cxx.Arguments.Reading.{extract_all, extract_all-body_of, chain, reading}

abbrev items : List Value → List Item
items [] = []
items (v ∷ vs) = single (type_number (value_type v)) ∷ items vs

-- A value's signature is the character of its type, which is a single type.
one-IsItem :
    (v : Value)
    → IsItem (single (type_number (value_type v)))
      × (char_to_dbus_type (type_number (value_type v)) ≡ value_type v)
      × (value_signature v ≡ type_number (value_type v) ∷ [])
unfolding char_to_dbus_type is_container value_signature
one-IsItem (byte_value v) = (refl, refl, refl)
one-IsItem (bool_value v) = (refl, refl, refl)
one-IsItem (int16_value v) = (refl, refl, refl)
one-IsItem (uint16_value v) = (refl, refl, refl)
one-IsItem (int32_value v) = (refl, refl, refl)
one-IsItem (uint32_value v) = (refl, refl, refl)
one-IsItem (int64_value v) = (refl, refl, refl)
one-IsItem (uint64_value v) = (refl, refl, refl)
one-IsItem (double_value v) = (refl, refl, refl)
one-IsItem (string_value v) = (refl, refl, refl)
one-IsItem (path_value v) = (refl, refl, refl)
one-IsItem (signature_value v) = (refl, refl, refl)

items-IsItem : (vs : List Value) → All IsItem (items vs)
items-IsItem [] = tt
items-IsItem (v ∷ vs) = ((one-IsItem v).0, items-IsItem vs)

items_text-signatures : (vs : List Value) → items_text (items vs) ≡ signatures vs
items_text-signatures [] = refl
items_text-signatures (v ∷ vs) = rw ((one-IsItem v).2, items_text-signatures vs)

link-chain : (vs : List Value) → link (map item_node (items vs)) ≡ chain vs
link-chain [] = refl
link-chain (v ∷ vs) = rw ((one-IsItem v).1, link-chain vs)

-- The iterator of the arguments' signature is at the chain of their types.
begin-signatures :
    (v : Value) (vs : List Value)
    → Iterator.begin (signature_of (signatures (v ∷ vs)))
      ≡ record { valid = true; current = chain (v ∷ vs); first = chain (v ∷ vs) }
unfolding Iterator.begin Iterator.iterator_of
begin-signatures v vs =
    let parsed = rw (items_text-signatures (v ∷ vs)) at (
      signature_of-items_text (single (type_number (value_type v))) (items vs)
        (items-IsItem (v ∷ vs))) in
    ap
      (λ (b : Bool).
        if b
        then Iterator.iterator_of (signature_of (signatures (v ∷ vs))).starting_node
        else Iterator.no_iterator)
      parsed.0
    ∙ ap Iterator.iterator_of (parsed.1 ∙ link-chain (v ∷ vs))

pub message_signature-with_arguments :
    (s b : List ℕ) (msg : Message)
    → length s < 256
    → message_signature (with_arguments s b msg) ≡ ok (signature_of s)
unfolding message_signature variant_of
message_signature-with_arguments s b msg short =
    ap
      (λ (v : Variant).
        if same_type v.current_type signature
        then and_then (to_signature v) (λ t. ok (signature_of t))
        else ok no_signature)
      (header_field-with_arguments s b msg)
    ∙ ap (λ (o : Outcome (List ℕ)). and_then o (λ t. ok (signature_of t)))
        (to_signature-variant_of s short)

pub iterator_of-with_arguments :
    (v : Value) (vs : List Value) (b : List ℕ) (msg : Message)
    → msg.valid ≡ true
    → msg.endian ≡ big
    → length (signatures (v ∷ vs)) < 256
    → iterator_of (with_arguments (signatures (v ∷ vs)) b msg)
      ≡ ok (reading b 0 (chain (v ∷ vs)) (chain (v ∷ vs)))
unfolding iterator_of
iterator_of-with_arguments v vs b msg valid same short =
    let it : Signature → MessageIterator = λ sig. record {
      message_valid = msg.valid;
      demarshal = record { bytes = b; pos = 0; endian = msg.endian };
      signature_iterator = Iterator.begin sig;
      subiter_type = invalid;
      array_last_position = 0;
    } in
    ap (λ (o : Outcome Signature). and_then o (λ sig. ok (it sig)))
      (message_signature-with_arguments (signatures (v ∷ vs)) b msg short)
    ∙ rw (begin-signatures v vs, valid, same)

-- One or more values, each of one of the twelve simple types and in the range of its C++ type,
-- are appended to a valid big-endian message with an empty body and no Signature field; the
-- iterator over the arguments then reads the same values, each to the C++ type of its argument,
-- in order. The signature has fewer than 256 characters and the body fewer than 2 ^ 32 bytes.
pub extract_all-append_all :
    (v : Value) (vs : List Value) (msg : Message)
    → All IsInRange (v ∷ vs)
    → msg.valid ≡ true
    → msg.endian ≡ big
    → msg.body ≡ []
    → header_field signature_field msg ≡ no_variant
    → length (signatures (v ∷ vs)) < 256
    → length (body_of [] (v ∷ vs)) < 2 ^ 32
    → and_then (and_then (append_all (v ∷ vs) msg) iterator_of) (extract_all (length (v ∷ vs)))
      ≡ ok (v ∷ vs)
extract_all-append_all v vs msg range valid same empty none_yet short small =
    ap (λ (o : Outcome Message). and_then (and_then o iterator_of) (extract_all (length (v ∷ vs))))
      (append_all-first v vs msg range valid none_yet short)
    ∙ ap (λ (o : Outcome MessageIterator). and_then o (extract_all (length (v ∷ vs))))
        (iterator_of-with_arguments v vs (body_of msg.body (v ∷ vs)) msg valid same short)
    ∙ ap
        (λ (b : List ℕ).
          extract_all (length (v ∷ vs))
            (reading (body_of b (v ∷ vs)) 0 (chain (v ∷ vs)) (chain (v ∷ vs))))
        empty
    ∙ extract_all-body_of v vs [] (chain (v ∷ vs)) range small
