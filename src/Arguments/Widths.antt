-- ===== src/Arguments/Widths.antt =====
-- After how many elements the reader of a vector stops, by the width of the elements
-- (dbus-cxx/messageappenditerator.cpp and messageiterator.cpp).
use dbus_cxx.Common.{
  ℕ, ◌+◌, ◌-◌, ◌*◌, ◌/◌, ◌%◌, ◌≤◌, ◌≡◌, inl, inr, refl, ap, ◌∙◌, List, [], ◌∷◌, ◌++◌, length,
  length-append, true, All, All-map, arith,
}
use dbus_cxx.Types
use dbus_cxx.Types.{DataType, alignment, type_number, array_type, invalid}
use dbus_cxx.Wire.Words.{big}
use dbus_cxx.Wire.Writer
use dbus_cxx.Wire.Writer.{Marshaling}
use dbus_cxx.Wire.Padding.{IsWidth, padding}
use dbus_cxx.Wire.RoundTrip.{length-padded}
use dbus_cxx.Wire.Numbers.{writer}
use dbus_cxx.Wire.Placed.{value_alignment-length}
use dbus_cxx.Wire.Variant.{
  Value, byte_value, bool_value, int16_value, uint16_value, int32_value, uint32_value, int64_value,
  uint64_value, double_value, string_value, path_value, signature_value, value_type,
  value_alignment, marshal_value,
}
use dbus_cxx.Arguments.Fields.{body_of}
use dbus_cxx.Arguments.Elements.{IsElement, Stops}
use dbus_cxx.Arguments.Stopping.{IsOfWidth, IsNarrow, long-Stops, narrow_width-Stops, length-narrow}
use dbus_cxx.Arguments.Appended.{array_head}
use dbus_cxx.Arguments.Received.{size_word, length-size_word, first_behind}

alignment-value_type : (v : Value) → value_alignment v ≡ alignment (value_type v)
unfolding value_alignment alignment
alignment-value_type (byte_value v) = refl
alignment-value_type (bool_value v) = refl
alignment-value_type (int16_value v) = refl
alignment-value_type (uint16_value v) = refl
alignment-value_type (int32_value v) = refl
alignment-value_type (uint32_value v) = refl
alignment-value_type (int64_value v) = refl
alignment-value_type (uint64_value v) = refl
alignment-value_type (double_value v) = refl
alignment-value_type (string_value v) = refl
alignment-value_type (path_value v) = refl
alignment-value_type (signature_value v) = refl

pub elements-aligned :
    (t : DataType) (vs : List Value)
    → All (IsElement t) vs
    → All (λ v. value_alignment v ≡ alignment t) vs
elements-aligned t vs elements =
    All-map vs (λ v e. alignment-value_type v ∙ ap alignment e.1) elements

-- The body that a vector makes.
abbrev pub vector_body : DataType → List Value → List ℕ
vector_body t vs = array_head (alignment t) (length (body_of [] vs)) ++ body_of [] vs

pub length-vector_body :
    (t : DataType) (vs : List Value)
    → IsWidth (alignment t)
    → length (vector_body t vs) ≡ 4 + padding (alignment t) 4 + length (body_of [] vs)
length-vector_body t vs width =
    let n : ℕ = length (body_of [] vs) in
    omega (
      arith,
      length-append (array_head (alignment t) n) (body_of [] vs),
      length-padded (alignment t) (writer (size_word n) big),
      ap (padding (alignment t)) (length-size_word n),
      length-size_word n,
    )

-- Where the reader is behind the last element.
length-behind_size :
    (t : DataType) (v : Value) (vs : List Value)
    → IsWidth (alignment t)
    → All (IsElement t) (v ∷ vs)
    → length (body_of (size_word (length (body_of [] (v ∷ vs)))) (v ∷ vs))
      ≡ 4 + padding (alignment t) 4 + length (body_of [] (v ∷ vs))
length-behind_size t v vs width elements =
    let n : ℕ = length (body_of [] (v ∷ vs)) in
    omega (
      arith,
      length-vector_body t (v ∷ vs) width,
      ap (λ (b : List ℕ). length b)
          (first_behind (alignment t) n v vs width (elements-aligned t (v ∷ vs) elements)),
    )

wide_head : (a : ℕ) → IsWidth a → 4 ≤ a → 4 + padding a 4 ≡ a
wide_head a width wide = ground arith

pub wide-Stops :
    (t : DataType) (vs : List Value)
    → IsWidth (alignment t)
    → 4 ≤ alignment t
    → All (IsElement t) vs
    → Stops (length (body_of [] vs)) (length vs) (size_word (length (body_of [] vs))) vs
wide-Stops t [] width wide elements = omega (arith, length-size_word 0)
wide-Stops t (v ∷ vs) width wide elements =
    let n : ℕ = length (body_of [] (v ∷ vs)) in
    long-Stops (alignment t) n (v ∷ vs) (size_word n)
      (All-map (v ∷ vs) (λ u e. omega (arith, value_alignment-length u, e))
        (elements-aligned t (v ∷ vs) elements))
      (omega arith)
      (omega (arith, length-behind_size t v vs width elements, wide_head (alignment t) width wide))

-- The fixed types have the width to which they are aligned.
pub fixed-IsOfWidth :
    (v : Value) → Types.is_fixed (value_type v) ≡ true → IsOfWidth (alignment (value_type v)) v
unfolding value_alignment alignment Types.is_fixed marshal_value Writer.marshal_uint8
    Writer.marshal_uint16 Writer.marshal_uint32 Writer.marshal_uint64 Writer.marshal_int16
    Writer.marshal_int32 Writer.marshal_int64 Writer.marshal_short_big Writer.marshal_int_big
    Writer.marshal_long_big Writer.align Writer.push_all Writer.push_back
fixed-IsOfWidth (byte_value v) h = (refl, refl)
fixed-IsOfWidth (bool_value v) h = absurd (ground arith)
fixed-IsOfWidth (int16_value v) h = (refl, refl)
fixed-IsOfWidth (uint16_value v) h = (refl, refl)
fixed-IsOfWidth (int32_value v) h = (refl, refl)
fixed-IsOfWidth (uint32_value v) h = (refl, refl)
fixed-IsOfWidth (int64_value v) h = (refl, refl)
fixed-IsOfWidth (uint64_value v) h = (refl, refl)
fixed-IsOfWidth (double_value v) h = absurd (ground arith)
fixed-IsOfWidth (string_value v) h = absurd (ground arith)
fixed-IsOfWidth (path_value v) h = absurd (ground arith)
fixed-IsOfWidth (signature_value v) h = absurd (ground arith)

length-narrow_body :
    (w : ℕ) (vs : List Value) (b : List ℕ)
    → IsNarrow w
    → All (IsOfWidth w) vs
    → length b % w ≡ 0
    → length (body_of b vs) ≡ length b + length vs * w
length-narrow_body w [] b narrow wide even = omega arith
length-narrow_body w (v ∷ vs) b narrow (wide, wides) even =
    let l = length-narrow w v b narrow wide even in
    length-narrow_body w vs (marshal_value v (writer b big)).bytes narrow wides l.1 ∙ grind arith

pub narrow-Stops :
    (w : ℕ) (vs : List Value) (b : List ℕ)
    → IsNarrow w
    → All (IsOfWidth w) vs
    → length b ≡ 4
    → Stops (length (body_of [] vs)) (length vs + 1 - 4 / w) b vs
narrow-Stops w vs b (inl e) wide four =
    let l = length-narrow_body w vs [] (inl e) wide (grind arith) in
    narrow_width-Stops w (length (body_of [] vs)) (length vs + 1 - 4 / w) vs b (inl e) wide
      (grind arith) (grind arith) (grind arith) (grind arith)
narrow-Stops w vs b (inr e) wide four =
    let l = length-narrow_body w vs [] (inr e) wide (grind arith) in
    narrow_width-Stops w (length (body_of [] vs)) (length vs + 1 - 4 / w) vs b (inr e) wide
      (grind arith) (grind arith) (grind arith) (grind arith)
