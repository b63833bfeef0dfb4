-- ===== src/Arguments/Appended.antt =====
-- What `operator<<` of a vector does to a message with no arguments
-- (dbus-cxx/messageappenditerator.cpp and messageappenditerator.h).
use dbus_cxx.Common.{
  ℕ, ◌≤◌, ◌≡◌, refl, ap, ◌∙◌, List, [], ◌∷◌, ◌++◌, length, ltb, Bool-cases, inl, inr, true, false,
  All, arith,
}
use dbus_cxx.Types.{array_type, none_type}
use dbus_cxx.Header.{signature_field}
use dbus_cxx.Message.{Message, header_field}
use dbus_cxx.Wire.Words.{big, u32}
use dbus_cxx.Wire.Writer
use dbus_cxx.Wire.Writer.{Marshaling}
use dbus_cxx.Wire.Padding.{IsWidth, writer_align}
use dbus_cxx.Wire.RoundTrip.{padded}
use dbus_cxx.Wire.Reader.{and_then, Outcome, ok, abort, fault, raise, stuck}
use dbus_cxx.Wire.Numbers.{writer}
use dbus_cxx.Wire.Variant.{Value, value_signature, IsInRange, no_variant, marshal_value}
use dbus_cxx.Arguments.{old_signature, append, append_signature, is_too_long, marshal_argument}
use dbus_cxx.Arguments.Bytes.{marshal_argument-marshal_value, marshal_chars-bytes}
use dbus_cxx.Arguments.Containers.{
  AppendIterator, Sub, no_sub, sub, append_iterator, signed, marshaled, append_value, on_sub,
  close_container, closed, open_container, container_signature, container_alignment,
  maximum_array_size, append_elements, append_vector, close_or_throw,
}
use dbus_cxx.Arguments.Fields.{body_of, with_arguments, append_signature_lem, short_enough}

-- The iterator outside containers, over a message and the container that is open.
abbrev pub outside : Message → Sub → AppendIterator
outside msg s = record {
  message = msg;
  container = none_type;
  working_buffer = [];
  array_alignment = 0;
  subiter = s;
}

-- The iterator in an array.
abbrev inside : Message → List ℕ → ℕ → AppendIterator
inside msg buffer a = record {
  message = msg;
  container = array_type;
  working_buffer = buffer;
  array_alignment = a;
  subiter = no_sub;
}

opened :
    (sig : List ℕ) (msg : Message)
    → header_field signature_field msg ≡ no_variant
    → open_container array_type sig (append_iterator msg)
      ≡ ok (
          outside
            (with_arguments (b'a' ∷ sig) msg.body msg)
            (sub array_type [] (container_alignment array_type sig) no_sub))
unfolding open_container append_iterator close_container closed signed container_signature
opened sig msg none_yet =
    rw (append_signature_lem (b'a' ∷ sig) [] msg (ap old_signature none_yet)) refl

append_value-inside :
    (v : Value) (msg : Message) (buffer : List ℕ) (a : ℕ)
    → IsInRange v
    → msg.valid ≡ true
    → append_value v (inside msg buffer a)
      ≡ ok (inside msg (marshal_value v (writer buffer big)).bytes a)
unfolding append_value signed marshaled
append_value-inside v msg buffer a range valid =
    rw (valid, short_enough v range, marshal_argument-marshal_value v buffer)

append_elements-body_of :
    (vs : List Value) (msg : Message) (buffer : List ℕ) (a : ℕ)
    → All IsInRange vs
    → msg.valid ≡ true
    → append_elements vs (outside msg (sub array_type buffer a no_sub))
      ≡ ok (outside msg (sub array_type (body_of buffer vs) a no_sub))
unfolding append_elements on_sub
append_elements-body_of [] msg buffer a range valid = refl
append_elements-body_of (v ∷ vs) msg buffer a (range, ranges) valid =
    rw (append_value-inside v msg buffer a range valid)
      (append_elements-body_of vs msg (marshal_value v (writer buffer big)).bytes a ranges valid)

same_body :
    (v : Value) (o : Outcome Message)
    → and_then
        (and_then o (λ m. ok (append_iterator m)))
        (λ i. ok (marshaled (marshal_argument v) i))
      ≡ and_then
          (and_then o
            (λ m. ok (record m { body = (marshal_argument v (writer m.body big)).bytes })))
          (λ m. ok (append_iterator m))
unfolding append_iterator marshaled
same_body v (ok m) = refl
same_body v abort = refl
same_body v fault = refl
same_body v raise = refl
same_body v stuck = refl

-- Outside containers a value is appended as by `append`.
append_value-append :
    (v : Value) (msg : Message)
    → append_value v (append_iterator msg) ≡ and_then (append v msg) (λ m. ok (append_iterator m))
unfolding append_value append append_iterator signed
append_value-append v msg = elim (Bool-cases msg.valid) [
  | inr e ↦ rw e refl
  | inl e ↦ elim (Bool-cases (is_too_long v)) [
    | inl f ↦ rw (e, f) refl
    | inr f ↦
        rw (e, f) (same_body v (append_signature (value_signature v) (record msg { valid = true })))
  ]
]

-- The number of bytes of the elements, and the padding to the first of them.
abbrev pub array_head : ℕ → ℕ → List ℕ
array_head a n = padded a (writer (Writer.marshal_uint32 n (writer [] big)).bytes big)

-- The end of the array: its size, the padding, and the elements' bytes.
closed-array :
    (msg : Message) (buffer : List ℕ) (a : ℕ)
    → IsWidth a
    → length buffer ≤ maximum_array_size
    → msg.body ≡ []
    → close_or_throw (outside msg (sub array_type buffer a no_sub))
      ≡ ok (outside (record msg { body = array_head a (length buffer) ++ buffer }) no_sub)
unfolding close_container closed marshaled Writer.marshal_uint32
closed-array msg buffer a width small empty =
    let size : u32 (length buffer) ≡ length buffer = omega arith in
    let fits : ltb maximum_array_size (length buffer) ≡ false = ground arith in
    rw (size, fits, empty, writer_align a _ width, marshal_chars-bytes buffer)

-- A vector whose elements take at most 2 ^ 26 bytes.
pub append_vector-with_arguments :
    (sig : List ℕ) (vs : List Value) (msg : Message)
    → All IsInRange vs
    → msg.valid ≡ true
    → header_field signature_field msg ≡ no_variant
    → msg.body ≡ []
    → IsWidth (container_alignment array_type sig)
    → length (body_of [] vs) ≤ maximum_array_size
    → append_vector sig vs (append_iterator msg)
      ≡ ok (
          outside
            (with_arguments
              (b'a' ∷ sig)
              (array_head (container_alignment array_type sig) (length (body_of [] vs))
                ++ body_of [] vs)
              msg)
            no_sub)
unfolding append_vector
append_vector-with_arguments sig vs msg range valid none_yet empty width small =
    let a : ℕ = container_alignment array_type sig in
    let there : Message = with_arguments (b'a' ∷ sig) msg.body msg in
    ap
      (λ (o : Outcome AppendIterator).
        and_then o (λ i. and_then (append_elements vs i) close_or_throw))
      (opened sig msg none_yet)
    ∙ ap (λ (o : Outcome AppendIterator). and_then o close_or_throw)
        (append_elements-body_of vs there [] a range valid)
    ∙ closed-array there (body_of [] vs) a width small empty
