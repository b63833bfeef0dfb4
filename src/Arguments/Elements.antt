-- ===== src/Arguments/Elements.antt =====
-- The loop over the elements of an array (dbus-cxx/messageiterator.h).
use dbus_cxx.Common.{
  ℕ, zero, suc, ◌<◌, ◌≤◌, ◌^◌, ◌≡◌, ap, ◌∙◌, List, [], ◌∷◌, ◌++◌, append_assoc, length, take,
  Bool-cases, inl, inr, not, true, false, ltb, All, arith,
}
use dbus_cxx.Types.{DataType, array}
use dbus_cxx.Signature.{null, node}
use dbus_cxx.Signature.Iterator
use dbus_cxx.Wire.Words.{big}
use dbus_cxx.Wire.Reader.{ok}
use dbus_cxx.Wire.Numbers.{writer}
use dbus_cxx.Wire.Variant.{Value, value_type, IsInRange, marshal_value}
use dbus_cxx.Arguments.{MessageIterator, arg_type, is_valid, next, extract}
use dbus_cxx.Arguments.Arrays.{array_loop}
use dbus_cxx.Arguments.Fields.{body_of}
use dbus_cxx.Arguments.Reading.{reading_in, extract-value, value_type-valid, body_grows}

-- The subiterator of an array whose elements have the type `t`.
abbrev pub element_reading : DataType → ℕ → List ℕ → ℕ → MessageIterator
element_reading t last full p = reading_in array last full p (node t null null) (node t null null)

element_reading-valid :
    (v : Value) (last p : ℕ) (full : List ℕ)
    → is_valid (element_reading (value_type v) last full p) ≡ not (ltb last p)
unfolding is_valid arg_type Iterator.type_of
element_reading-valid v last p full = rw (value_type-valid v)

next-element :
    (t : DataType) (last p : ℕ) (full : List ℕ)
    → (next (element_reading t last full p)).0 ≡ element_reading t last full p
unfolding next
next-element t last p full = elim (Bool-cases (is_valid (element_reading t last full p))) [
  | inl e ↦ rw e
  | inr e ↦ rw e
]

-- The loop ends after `m` of the elements that are written behind `b`.
abbrev pub Stops : ℕ → ℕ → List ℕ → List Value → Type 0
Stops last zero b vs = last < length b
Stops last (suc m) b [] = ⊥
Stops last (suc m) b (v ∷ vs) =
    (length b ≤ last) × Stops last m (marshal_value v (writer b big)).bytes vs

abbrev pub IsElement : DataType → Value → Type 0
IsElement t v = IsInRange v × (value_type v ≡ t)

invalid_behind :
    (t : DataType) (last p : ℕ) (full : List ℕ)
    → last < p
    → is_valid (element_reading t last full p) ≡ false
unfolding is_valid arg_type Iterator.type_of
invalid_behind t last p full over = ground arith

stopped :
    (t : DataType) (last p fuel : ℕ) (full : List ℕ)
    → last < p
    → array_loop (suc fuel) (element_reading t last full p) ≡ ok ([], element_reading t last full p)
unfolding array_loop
stopped t last p fuel full over = rw (invalid_behind t last p full over)

-- One element, at a place where the array has not ended.
extract-element :
    (t : DataType) (last : ℕ) (v : Value) (b rest : List ℕ)
    → IsElement t v
    → length ((marshal_value v (writer b big)).bytes ++ rest) < 2 ^ 32
    → extract (element_reading t last ((marshal_value v (writer b big)).bytes ++ rest) (length b))
      ≡ ok (
        v,
        element_reading t last
            ((marshal_value v (writer b big)).bytes ++ rest)
            (length (marshal_value v (writer b big)).bytes),
      )
extract-element t last v b rest (range, same) small =
    let c : List ℕ = (marshal_value v (writer b big)).bytes in
    rw same at (
      extract-value array last v b rest null null (node (value_type v) null null) range small
      ∙ ap (λ (it : MessageIterator). ok (v, it))
          (next-element (value_type v) last (length c) (c ++ rest)))

loop_step :
    (fuel : ℕ) (it there : MessageIterator) (v : Value) (out : List Value × MessageIterator)
    → is_valid it ≡ true
    → extract it ≡ ok (v, there)
    → array_loop fuel there ≡ ok out
    → array_loop (suc fuel) it ≡ ok (v ∷ out.0, out.1)
unfolding array_loop
loop_step fuel it there v out valid read more = rw (valid, read, more)

-- The loop reads the elements up to the end of the array, and is left behind the last of them.
pub array_loop-body_of :
    (t : DataType) (last m fuel : ℕ) (vs : List Value) (b rest : List ℕ)
    → All (IsElement t) vs
    → Stops last m b vs
    → length (body_of b vs ++ rest) < 2 ^ 32
    → m < fuel
    → array_loop fuel (element_reading t last (body_of b vs ++ rest) (length b))
      ≡ ok (
        take m vs,
        element_reading t last (body_of b vs ++ rest) (length (body_of b (take m vs))),
      )
array_loop-body_of t last m zero vs b rest elements stops small f = absurd (omega arith)
array_loop-body_of t last zero (suc fuel) vs b rest elements stops small f =
    stopped t last (length b) fuel (body_of b vs ++ rest) stops
array_loop-body_of t last (suc m) (suc fuel) [] b rest elements stops small f = absurd stops
array_loop-body_of t last (suc m) (suc fuel) (v ∷ vs) b rest (element, elements) (before, stops)
      small f =
    let c : List ℕ = (marshal_value v (writer b big)).bytes in
    let more = body_grows vs c in
    let full : body_of c vs ++ rest ≡ c ++ (more.0 ++ rest) =
      ap (λ (x : List ℕ). x ++ rest) more.1 ∙ append_assoc c more.0 rest in
    let valid : is_valid (element_reading t last (body_of c vs ++ rest) (length b)) ≡ true =
      rw element.1 at (element_reading-valid v last (length b) (body_of c vs ++ rest))
      ∙ ground arith in
    loop_step fuel (element_reading t last (body_of c vs ++ rest) (length b))
      (element_reading t last (body_of c vs ++ rest) (length c)) v
      (take m vs, element_reading t last (body_of c vs ++ rest) (length (body_of c (take m vs))))
      valid (rw full (extract-element t last v b (more.0 ++ rest) element (rw full at small)))
      (array_loop-body_of t last m fuel vs c rest elements stops small (omega arith))
