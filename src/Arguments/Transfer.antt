-- ===== src/Arguments/Transfer.antt =====
-- A vector that is appended to a message and read from it
-- (dbus-cxx/messageappenditerator.cpp, messageappenditerator.h, messageiterator.cpp and
-- messageiterator.h).
use dbus_cxx.Common.{
  ℕ, ◌+◌, ◌-◌, ◌/◌, ◌<◌, ◌≤◌, ◌^◌, ◌≡◌, refl, ap, ◌∙◌, List, [], ◌∷◌, length, take, true, All,
  All-map, arith,
}
use dbus_cxx.Types
use dbus_cxx.Types.{DataType, alignment, type_number, array_type, invalid}
use dbus_cxx.Header.{signature_field}
use dbus_cxx.Message.{Message, header_field}
use dbus_cxx.Wire.Words.{big}
use dbus_cxx.Wire.Reader.{and_then, Outcome, ok}
use dbus_cxx.Wire.Variant.{Value, no_variant}
use dbus_cxx.Arguments.{iterator_of}
use dbus_cxx.Arguments.Arrays.{extract_array}
use dbus_cxx.Arguments.Containers.{append_iterator, append_vector, maximum_array_size}
use dbus_cxx.Arguments.Fields.{body_of, with_arguments}
use dbus_cxx.Arguments.RoundTrip.{message_signature-with_arguments}
use dbus_cxx.Arguments.Reading.{reading}
use dbus_cxx.Arguments.Elements.{IsElement, Stops}
use dbus_cxx.Arguments.Stopping.{IsNarrow}
use dbus_cxx.Arguments.Appended.{append_vector-with_arguments}
use dbus_cxx.Arguments.Vectors.{IsSimple, IsVector, simple-IsVector}
use dbus_cxx.Arguments.Received.{
  size_word, length-size_word, vector_node, elements_behind, get_array-elements,
}
use dbus_cxx.Arguments.Widths.{
  elements-aligned, fixed-IsOfWidth, length-vector_body, narrow-Stops, vector_body, wide-Stops,
}

-- A vector of elements of the type `t` is appended to a message; the iterator over its arguments
-- reads a vector.
abbrev pub transfer : DataType → List Value → Message → Outcome (List Value)
transfer t vs msg =
    and_then
      (and_then (append_vector (type_number t ∷ []) vs (append_iterator msg))
        (λ i. iterator_of i.message))
      (λ it. and_then (extract_array true it) (λ p. ok p.0))

-- A message with no arguments yet.
abbrev pub IsEmpty : Message → Type 0
IsEmpty msg =
    (msg.valid ≡ true)
    × (msg.endian ≡ big)
    × (msg.body ≡ [])
    × (header_field signature_field msg ≡ no_variant)

iterator_of-vector :
    (t : DataType) (b : List ℕ) (msg : Message)
    → IsVector t
    → IsEmpty msg
    → iterator_of (with_arguments (b'a' ∷ type_number t ∷ []) b msg)
      ≡ ok (reading b 0 (vector_node t) (vector_node t))
unfolding iterator_of
iterator_of-vector t b msg (aligned, width, parsed) (valid, same, empty, none_yet) = rw (
  message_signature-with_arguments (b'a' ∷ type_number t ∷ []) b msg (omega arith),
  parsed,
  valid,
  same,
)

-- What comes back, where the reader stops after `m` elements.
transferred :
    (t : DataType) (m : ℕ) (vs : List Value) (msg : Message)
    → IsSimple t
    → All (IsElement t) vs
    → IsEmpty msg
    → length (body_of [] vs) ≤ maximum_array_size
    → Stops (length (body_of [] vs)) m (size_word (length (body_of [] vs))) vs
    → transfer t vs msg ≡ ok (take m vs)
unfolding extract_array
transferred t m vs msg simple elements (valid, same, empty, none_yet) small stops =
    let known = simple-IsVector t simple in
    let n : ℕ = length (body_of [] vs) in
    let split = elements_behind (alignment t) n vs known.1 (elements-aligned t vs elements) in
    let l = length-vector_body t vs known.1 in
    let read =
      get_array-elements t n m vs split.0 (vector_node t) elements stops (omega arith)
        (rw split.1 at (let fits : length (vector_body t vs) < 2 ^ 32 = ground arith in fits)) in
    let written = rw known.0 at (
      append_vector-with_arguments (type_number t ∷ []) vs msg (All-map vs (λ v e. e.0) elements)
        valid none_yet empty (rw known.0 (known.1)) small) in
    rw (
      written,
      iterator_of-vector t (vector_body t vs) msg known (valid, same, empty, none_yet),
      split.1,
      read,
    )

take-length : (vs : List Value) → take (length vs) vs ≡ vs
take-length [] = refl
take-length (v ∷ vs) = ap (λ (us : List Value). v ∷ us) (take-length vs)

-- A vector of no more than 2 ^ 26 bytes, whose elements are of one of the simple types that are
-- aligned to four or eight bytes and in range, is appended to a valid big-endian message with
-- no arguments; the iterator over its arguments, where the offset is read before the size, then
-- reads the same vector.
pub extract_array-append_vector :
    (t : DataType) (vs : List Value) (msg : Message)
    → IsSimple t
    → 4 ≤ alignment t
    → All (IsElement t) vs
    → IsEmpty msg
    → length (body_of [] vs) ≤ maximum_array_size
    → transfer t vs msg ≡ ok vs
extract_array-append_vector t vs msg simple wide elements empty small =
    transferred t (length vs) vs msg simple elements empty small
      (wide-Stops t vs (simple-IsVector t simple).1 wide elements)
    ∙ ap ok (take-length vs)

-- A vector of no more than 2 ^ 26 bytes, whose elements are of one of the fixed types that take
-- one or two bytes and in range, is appended to a valid big-endian message with no arguments.
-- The iterator, where the offset is read before the size, stops too early: of bytes it does not
-- read the last three, of integers of 16 bits the last one.
pub extract_array-narrow :
    (t : DataType) (vs : List Value) (msg : Message)
    → Types.is_fixed t ≡ true
    → alignment t < 4
    → All (IsElement t) vs
    → IsEmpty msg
    → length (body_of [] vs) ≤ maximum_array_size
    → transfer t vs msg ≡ ok (take (length vs + 1 - 4 / alignment t) vs)
extract_array-narrow t vs msg fixed narrow elements empty small =
    let simple : IsSimple t = unfold Types.is_fixed Types.is_container in ground arith in
    let width : IsNarrow (alignment t) = unfold Types.is_fixed alignment in ground arith in
    transferred t (length vs + 1 - 4 / alignment t) vs msg simple elements empty small (
      narrow-Stops (alignment t) vs (size_word (length (body_of [] vs))) width
        (All-map vs (λ v e. rw e.1 at (fixed-IsOfWidth v (rw e.1 fixed))) elements)
        (length-size_word (length (body_of [] vs))))
