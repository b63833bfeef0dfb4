-- ===== src/Arguments/Received.antt =====
-- The vector that `get_array` reads from the body of a message (dbus-cxx/messageiterator.h).
use dbus_cxx.Common.{
  ℕ, zero, suc, ◌+◌, ◌%◌, ◌<◌, ◌≤◌, ◌^◌, ◌≡◌, refl, sym, ap, ◌∙◌, List, [], ◌∷◌, ◌++◌, append_assoc,
  append-nil, length, length-append, replicate, take, true, All, arith,
}
use dbus_cxx.Types
use dbus_cxx.Types.{DataType, array}
use dbus_cxx.Signature.{Tree, null, node}
use dbus_cxx.Signature.Iterator
use dbus_cxx.Wire.Words.{big, u32}
use dbus_cxx.Wire.Writer
use dbus_cxx.Wire.Padding.{IsWidth, padding}
use dbus_cxx.Wire.RoundTrip.{length-padded}
use dbus_cxx.Wire.Reader
use dbus_cxx.Wire.Reader.{and_then, Outcome, ok, Demarshaling}
use dbus_cxx.Wire.Numbers.{writer, uint32_read}
use dbus_cxx.Wire.Variant.{Value, value_alignment, marshal_value}
use dbus_cxx.Wire.Placed.{length-kept}
use dbus_cxx.Arguments.{arg_type}
use dbus_cxx.Arguments.Arrays.{is_array, is_container, recurse, enter, enter_array, get_array}
use dbus_cxx.Arguments.Fields.{body_of}
use dbus_cxx.Arguments.Reading.{reading, body_grows}
use dbus_cxx.Arguments.Elements.{element_reading, Stops, IsElement, array_loop-body_of}
use dbus_cxx.Arguments.Stopping.{body_shift, body_padded, length-placed, length-body_of}
use dbus_cxx.Arguments.Appended.{array_head}

-- The size of an array at the start of a body.
abbrev pub size_word : ℕ → List ℕ
size_word n = (Writer.marshal_uint32 n (writer [] big)).bytes

pub length-size_word : (n : ℕ) → length (size_word n) ≡ 4
unfolding Writer.marshal_uint32 Writer.marshal_int_big Writer.align Writer.push_all
length-size_word n = refl

abbrev pub vector_node : DataType → Tree
vector_node t = node array (node t null null) null

pub first_behind :
    (a n : ℕ) (v : Value) (vs : List Value)
    → IsWidth a
    → All (λ u. value_alignment u ≡ a) (v ∷ vs)
    → array_head a n ++ body_of [] (v ∷ vs) ≡ body_of (size_word n) (v ∷ vs)
first_behind a n v vs width aligned =
    let even : length (array_head a n) % a ≡ 0 =
      let l = length-padded a (writer (size_word n) big) in
      let s = length-size_word n in ground arith in
    sym (body_shift a (v ∷ vs) (array_head a n) [] aligned width even)
    ∙ ap (λ (x : List ℕ). body_of x (v ∷ vs)) (append-nil (array_head a n))
    ∙ body_padded a v vs (size_word n) aligned.0 width

-- The elements stand behind the size, with nothing behind them but the padding of an empty array.
pub elements_behind :
    (a n : ℕ) (vs : List Value)
    → IsWidth a
    → All (λ v. value_alignment v ≡ a) vs
    → (rest : List ℕ) × (array_head a n ++ body_of [] vs ≡ body_of (size_word n) vs ++ rest)
elements_behind a n [] width aligned =
    (replicate (padding a (length (size_word n))) 0, append-nil (array_head a n))
elements_behind a n (v ∷ vs) width aligned =
    ([], first_behind a n v vs width aligned ∙ sym (append-nil (body_of (size_word n) (v ∷ vs))))

Stops-few :
    (last m : ℕ) (b : List ℕ) (vs : List Value)
    → Stops last m b vs
    → length b + m ≤ length (body_of b vs)
Stops-few last zero b vs stops = omega (arith, length-body_of b vs)
Stops-few last (suc m) b [] stops = absurd stops
Stops-few last (suc m) b (v ∷ vs) (here, stops) = omega (
  arith,
  Stops-few last m (marshal_value v (writer b big)).bytes vs stops,
  length-placed v b,
  length-kept v,
)

size_read :
    (n : ℕ) (more : List ℕ)
    → n < 2 ^ 32
    → length (size_word n ++ more) < 2 ^ 32
    → Reader.demarshal_uint32 (record { bytes = size_word n ++ more; pos = 0; endian = big })
      ≡ ok (n, record { bytes = size_word n ++ more; pos = length (size_word n); endian = big })
unfolding Writer.marshal_uint32 Writer.marshal_int_big Writer.align Writer.push_all
size_read n more fits small =
    uint32_read n [] big more fits (omega (arith, length-append (size_word n) more))

-- The subiterator of an array at the start of the body.
entered :
    (t : DataType) (n : ℕ) (more : List ℕ) (first : Tree)
    → n < 2 ^ 32
    → length (size_word n ++ more) < 2 ^ 32
    → recurse true (reading (size_word n ++ more) 0 (vector_node t) first)
      ≡ ok (element_reading t n (size_word n ++ more) (length (size_word n)))
unfolding recurse is_container enter enter_array arg_type Iterator.type_of Iterator.recurse
    Iterator.iterator_of Types.is_container
entered t n more first fits small =
    let same : u32 (0 + n) ≡ n = omega arith in
    rw (size_read n more fits small) (
      ap (λ (last : ℕ). ok (element_reading t last (size_word n ++ more) (length (size_word n))))
        same)

-- The elements up to the end of the array, and the iterator behind the last of them.
pub get_array-elements :
    (t : DataType) (n m : ℕ) (vs : List Value) (rest : List ℕ) (first : Tree)
    → All (IsElement t) vs
    → Stops n m (size_word n) vs
    → n < 2 ^ 32
    → length (body_of (size_word n) vs ++ rest) < 2 ^ 32
    → get_array true (reading (body_of (size_word n) vs ++ rest) 0 (vector_node t) first)
      ≡ ok (
        take m vs,
        reading
            (body_of (size_word n) vs ++ rest)
            (length (body_of (size_word n) (take m vs)))
            (vector_node t)
            first,
      )
unfolding get_array is_array arg_type Iterator.type_of
get_array-elements t n m vs rest first elements stops fits small =
    let full : List ℕ = body_of (size_word n) vs ++ rest in
    let more = body_grows vs (size_word n) in
    let split : full ≡ size_word n ++ (more.0 ++ rest) =
      ap (λ (x : List ℕ). x ++ rest) more.1 ∙ append_assoc (size_word n) more.0 rest in
    let inner : recurse true (reading full 0 (vector_node t) first)
        ≡ ok (element_reading t n full (length (size_word n))) =
      rw split (entered t n (more.0 ++ rest) first fits (rw split at small)) in
    rw (
      inner,
      array_loop-body_of t n m (suc (length full)) vs (size_word n) rest elements stops small (
          omega (
            arith,
            Stops-few n m (size_word n) vs stops,
            length-append (body_of (size_word n) vs) rest,
          )),
    )
