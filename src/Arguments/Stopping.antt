-- ===== src/Arguments/Stopping.antt =====
-- Where the elements of an array stand, and after how many of them it ends
-- (dbus-cxx/messageappenditerator.cpp and messageiterator.cpp).
use dbus_cxx.Common.{
  ℕ, zero, suc, ◌+◌, ◌-◌, ◌*◌, ◌%◌, ◌<◌, ◌≤◌, ◌≡◌, ◌⊎◌, refl, sym, ap, ◌∙◌, List, [], ◌∷◌, ◌++◌,
  append_assoc, append-nil, length, length-append, replicate, inl, inr, All, arith,
}
use dbus_cxx.Wire.Words.{big}
use dbus_cxx.Wire.Writer.{Marshaling}
use dbus_cxx.Wire.Padding.{IsWidth, padding}
use dbus_cxx.Wire.RoundTrip.{padded, length-padded}
use dbus_cxx.Wire.Numbers.{writer}
use dbus_cxx.Wire.Variant.{Value, value_alignment, marshal_value}
use dbus_cxx.Wire.Placed.{value_placed, value_alignment-IsWidth, padding_aligned}
use dbus_cxx.Arguments.Fields.{body_of}
use dbus_cxx.Arguments.Reading.{body_grows}
use dbus_cxx.Arguments.Elements.{Stops}

-- The bytes of a value at the start of a buffer.
abbrev pub kept : Value → List ℕ
kept v = (marshal_value v (writer [] big)).bytes

pub length-placed :
    (v : Value) (b : List ℕ)
    → length (marshal_value v (writer b big)).bytes
      ≡ length b + padding (value_alignment v) (length b) + length (kept v)
length-placed v b =
    ap (λ (m : Marshaling). length m.bytes) (value_placed v b)
    ∙ omega (
      arith,
      length-append (padded (value_alignment v) (writer b big)) (kept v),
      length-padded (value_alignment v) (writer b big),
    )

pub length-body_of : (b : List ℕ) (vs : List Value) → length b ≤ length (body_of b vs)
length-body_of b vs =
    let more = body_grows vs b in
    omega (arith, ap (λ (x : List ℕ). length x) more.1, length-append b more.0)

-- Every element is read where none of them is shorter than what the end of the array falls short.
pub long-Stops :
    (short last : ℕ) (vs : List Value) (b : List ℕ)
    → All (λ v. short ≤ length (kept v)) vs
    → 0 < short
    → last + short ≡ length (body_of b vs)
    → Stops last (length vs) b vs
long-Stops short last [] b long pos end = omega arith
long-Stops short last (v ∷ vs) b (long, longs) pos end =
    let c : List ℕ = (marshal_value v (writer b big)).bytes in
    (
      omega (arith, length-placed v b, length-body_of c vs),
      long-Stops short last vs c longs pos end,
    )

-- Elements of one width, which is their alignment, stand one behind the other.
abbrev pub IsOfWidth : ℕ → Value → Type 0
IsOfWidth w v = (value_alignment v ≡ w) × (length (kept v) ≡ w)

abbrev pub IsNarrow : ℕ → Type 0
IsNarrow w = (w ≡ 1) ⊎ (w ≡ 2)

pub length-narrow :
    (w : ℕ) (v : Value) (b : List ℕ)
    → IsNarrow w
    → IsOfWidth w v
    → length b % w ≡ 0
    → (length (marshal_value v (writer b big)).bytes ≡ length b + w)
      × (length (marshal_value v (writer b big)).bytes % w ≡ 0)
length-narrow w v b (inl e) (aligned, wide) start =
    let l = length-placed v b in
    let none : padding (value_alignment v) (length b) ≡ 0 =
      padding_aligned (value_alignment v) (length b) (value_alignment-IsWidth v) (grind arith) in
    (omega arith, grind arith)
length-narrow w v b (inr e) (aligned, wide) start =
    let l = length-placed v b in
    let none : padding (value_alignment v) (length b) ≡ 0 =
      padding_aligned (value_alignment v) (length b) (value_alignment-IsWidth v) (grind arith) in
    (omega arith, grind arith)

-- A place in the array after so many elements.
pub narrow_width-Stops :
    (w last m : ℕ) (vs : List Value) (b : List ℕ)
    → IsNarrow w
    → All (IsOfWidth w) vs
    → length b % w ≡ 0
    → m ≤ length vs
    → last < length b + m * w
    → m * w ≤ last + w - length b
    → Stops last m b vs
narrow_width-Stops w last zero vs b narrow wide start few over last_one = omega arith
narrow_width-Stops w last (suc m) [] b narrow wide start few over last_one = omega arith
narrow_width-Stops w last (suc m) (v ∷ vs) b narrow (wide, wides) start few over last_one =
    let l = length-narrow w v b narrow wide start in
    (
      grind arith,
      narrow_width-Stops w last m vs (marshal_value v (writer b big)).bytes narrow wides l.1
          (omega arith) (grind arith) (grind arith),
    )

-- Behind whole multiples of the alignment the elements are written as at the start of a buffer.
padding_behind : (a n k : ℕ) → IsWidth a → n % a ≡ 0 → padding a (n + k) ≡ padding a k
padding_behind a n k w h = ground arith

pub body_shift :
    (a : ℕ) (vs : List Value) (front b : List ℕ)
    → All (λ v. value_alignment v ≡ a) vs
    → IsWidth a
    → length front % a ≡ 0
    → body_of (front ++ b) vs ≡ front ++ body_of b vs
body_shift a [] front b all w h = refl
body_shift a (v ∷ vs) front b (e, all) w h =
    let pad : List ℕ = replicate (padding a (length b)) 0 in
    let here : (marshal_value v (writer b big)).bytes ≡ b ++ pad ++ kept v =
      rw e at (ap (λ (m : Marshaling). m.bytes) (value_placed v b)) in
    let there : (marshal_value v (writer (front ++ b) big)).bytes
        ≡ front ++ b ++ replicate (padding a (length (front ++ b))) 0 ++ kept v =
      rw e at (ap (λ (m : Marshaling). m.bytes) (value_placed v (front ++ b))) in
    let same : padding a (length (front ++ b)) ≡ padding a (length b) =
      ap (padding a) (length-append front b) ∙ padding_behind a (length front) (length b) w h in
    let moved : (marshal_value v (writer (front ++ b) big)).bytes
        ≡ front ++ (marshal_value v (writer b big)).bytes =
      rw (there, here, same) (simp append_assoc) in
    ap (λ (x : List ℕ). body_of x vs) moved
    ∙ body_shift a vs front (marshal_value v (writer b big)).bytes all w h

-- Padding to the alignment of the first element changes nothing.
pub body_padded :
    (a : ℕ) (v : Value) (vs : List Value) (b : List ℕ)
    → value_alignment v ≡ a
    → IsWidth a
    → body_of (padded a (writer b big)) (v ∷ vs) ≡ body_of b (v ∷ vs)
body_padded a v vs b e w =
    let none : padding a (length (padded a (writer b big))) ≡ 0 =
      ap (padding a) (length-padded a (writer b big)) ∙ ground arith in
    let same : marshal_value v (writer (padded a (writer b big)) big)
        ≡ marshal_value v (writer b big) =
      value_placed v (padded a (writer b big))
      ∙ rw (e, none, append-nil) refl
      ∙ sym (rw e at (value_placed v b)) in
    ap (λ (m : Marshaling). body_of m.bytes vs) same
