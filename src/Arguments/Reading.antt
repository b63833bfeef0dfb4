-- ===== src/Arguments/Reading.antt =====
-- The values that a message iterator reads one after the other
-- (dbus-cxx/messageiterator.cpp and messageiterator.h).
use dbus_cxx.Common.{
  ℕ, zero, suc, ◌<◌, ◌^◌, ◌≡◌, refl, sym, ap, ◌∙◌, List, [], ◌∷◌, ◌++◌, append_assoc, append-nil,
  length, length-append, true, false, All, arith,
}
use dbus_cxx.Types.{
  DataType, invalid, byte, boolean, int16, uint16, int32, uint32, int64, uint64, double, string,
  object_path, signature,
}
use dbus_cxx.Signature.{Tree, null, node, is_invalid}
use dbus_cxx.Signature.Iterator
use dbus_cxx.Wire.Words.{big}
use dbus_cxx.Wire.Writer.{Marshaling}
use dbus_cxx.Wire.Reader
use dbus_cxx.Wire.Reader.{and_then, Outcome, ok, abort, fault, raise, stuck, Demarshaling, then_on}
use dbus_cxx.Wire.Numbers.{writer}
use dbus_cxx.Wire.Values.{demarshal_value-marshal_value}
use dbus_cxx.Wire.Variant.{
  Value, byte_value, bool_value, int16_value, uint16_value, int32_value, uint32_value, int64_value,
  uint64_value, double_value, string_value, path_value, signature_value, value_type, IsInRange,
  marshal_value, demarshal_value,
}
use dbus_cxx.Arguments.{
  MessageIterator, arg_type, next, taken, get, extract, as_value, get_bool, get_uint8, get_int16,
  get_uint16, get_int32, get_uint32, get_int64, get_uint64, get_double, get_string, get_signature,
  is_valid,
}
use dbus_cxx.Arguments.Bytes.{marshal_value-Grows}
use dbus_cxx.Arguments.Fields.{body_of}

-- So many values, one after the other.
abbrev pub extract_all : ℕ → MessageIterator → Outcome (List Value)
extract_all zero it = ok []
extract_all (suc n) it =
    and_then (extract it) (λ p. and_then (extract_all n p.1) (λ vs. ok (p.0 ∷ vs)))

-- The chain of the nodes of the values' types.
abbrev pub chain : List Value → Tree
chain [] = null
chain (v ∷ vs) = node (value_type v) null (chain vs)

-- The iterator at a place of the body and a node of the signature, in a container or in none.
abbrev pub reading_in : DataType → ℕ → List ℕ → ℕ → Tree → Tree → MessageIterator
reading_in container last full p current first = record {
  message_valid = true;
  demarshal = record { bytes = full; pos = p; endian = big };
  signature_iterator = record { valid = true; current = current; first = first };
  subiter_type = container;
  array_last_position = last;
}

abbrev pub reading : List ℕ → ℕ → Tree → Tree → MessageIterator
reading full p current first = reading_in invalid 0 full p current first

as_value-taken :
    {A : Type 0} (f : A → Value) (it : MessageIterator) (o : Outcome (A × Demarshaling))
    → as_value f (taken it o) ≡ taken it (then_on o (λ a r. ok (f a, r)))
as_value-taken f it (ok a) = refl
as_value-taken f it abort = refl
as_value-taken f it fault = refl
as_value-taken f it raise = refl
as_value-taken f it stuck = refl

-- At an argument of its type a value is read by the function of Demarshaling.
get-demarshal_value :
    (c : DataType) (last : ℕ) (v : Value) (full : List ℕ) (p : ℕ) (sub rest first : Tree)
    → get (value_type v) (reading_in c last full p (node (value_type v) sub rest) first)
      ≡ taken
          (reading_in c last full p (node (value_type v) sub rest) first)
          (demarshal_value (value_type v) (record { bytes = full; pos = p; endian = big }))
unfolding get get_bool get_uint8 get_int16 get_uint16 get_int32 get_uint32 get_int64 get_uint64
    get_double get_string get_signature demarshal_value arg_type Iterator.type_of
    Reader.demarshal_path
get-demarshal_value c last (byte_value v) full p sub rest first =
    as_value-taken _ (reading_in c last full p (node byte sub rest) first) _
get-demarshal_value c last (bool_value v) full p sub rest first =
    as_value-taken _ (reading_in c last full p (node boolean sub rest) first) _
get-demarshal_value c last (int16_value v) full p sub rest first =
    as_value-taken _ (reading_in c last full p (node int16 sub rest) first) _
get-demarshal_value c last (uint16_value v) full p sub rest first =
    as_value-taken _ (reading_in c last full p (node uint16 sub rest) first) _
get-demarshal_value c last (int32_value v) full p sub rest first =
    as_value-taken _ (reading_in c last full p (node int32 sub rest) first) _
get-demarshal_value c last (uint32_value v) full p sub rest first =
    as_value-taken _ (reading_in c last full p (node uint32 sub rest) first) _
get-demarshal_value c last (int64_value v) full p sub rest first =
    as_value-taken _ (reading_in c last full p (node int64 sub rest) first) _
get-demarshal_value c last (uint64_value v) full p sub rest first =
    as_value-taken _ (reading_in c last full p (node uint64 sub rest) first) _
get-demarshal_value c last (double_value v) full p sub rest first =
    as_value-taken _ (reading_in c last full p (node double sub rest) first) _
get-demarshal_value c last (string_value v) full p sub rest first =
    as_value-taken _ (reading_in c last full p (node string sub rest) first) _
get-demarshal_value c last (path_value v) full p sub rest first =
    as_value-taken _ (reading_in c last full p (node object_path sub rest) first) _
get-demarshal_value c last (signature_value v) full p sub rest first =
    as_value-taken _ (reading_in c last full p (node signature sub rest) first) _

pub value_type-valid : (v : Value) → is_invalid (value_type v) ≡ false
value_type-valid (byte_value v) = refl
value_type-valid (bool_value v) = refl
value_type-valid (int16_value v) = refl
value_type-valid (uint16_value v) = refl
value_type-valid (int32_value v) = refl
value_type-valid (uint32_value v) = refl
value_type-valid (int64_value v) = refl
value_type-valid (uint64_value v) = refl
value_type-valid (double_value v) = refl
value_type-valid (string_value v) = refl
value_type-valid (path_value v) = refl
value_type-valid (signature_value v) = refl

-- The next node, where there is one.
pub next-node :
    (v w : Value) (full : List ℕ) (p : ℕ) (ws : List Value) (first : Tree)
    → (next (reading full p (chain (v ∷ w ∷ ws)) first)).0 ≡ reading full p (chain (w ∷ ws)) first
unfolding next is_valid arg_type Iterator.type_of Iterator.next Iterator.is_valid
next-node v w full p ws first = rw (value_type-valid v, value_type-valid w)

pub body_grows : (vs : List Value) (b : List ℕ) → (x : List ℕ) × (body_of b vs ≡ b ++ x)
body_grows [] b = ([], sym (append-nil b))
body_grows (v ∷ vs) b =
    let one = marshal_value-Grows v b in
    let more = body_grows vs (b ++ one.0) in
    (
      one.0 ++ more.0,
      ap (λ (m : Marshaling). body_of m.bytes vs) one.1 ∙ more.1 ∙ append_assoc b one.0 more.0,
    )

-- One value, with any bytes behind it.
pub extract-value :
    (c : DataType) (last : ℕ) (v : Value) (b rest : List ℕ) (sub after first : Tree)
    → IsInRange v
    → length ((marshal_value v (writer b big)).bytes ++ rest) < 2 ^ 32
    → extract (
        reading_in c last
          ((marshal_value v (writer b big)).bytes ++ rest)
          (length b)
          (node (value_type v) sub after)
          first)
      ≡ ok (
        v,
        (next (
            reading_in c last
              ((marshal_value v (writer b big)).bytes ++ rest)
              (length (marshal_value v (writer b big)).bytes)
              (node (value_type v) sub after)
              first)).0,
      )
unfolding extract arg_type Iterator.type_of
extract-value c last v b rest sub after first range small =
    let one = marshal_value-Grows v b in
    let m : Marshaling = marshal_value v (writer b big) in
    let it : MessageIterator =
      reading_in c last (m.bytes ++ rest) (length b) (node (value_type v) sub after) first in
    let same : m.endian ≡ big = ap (λ (w : Marshaling). w.endian) one.1 in
    let read : demarshal_value (value_type v)
          (record { bytes = m.bytes ++ rest; pos = length b; endian = big })
        ≡ ok (v, record { bytes = m.bytes ++ rest; pos = length m.bytes; endian = big }) =
      rw same at (
        demarshal_value-marshal_value v (writer b big) rest range
          (omega (arith, length-append m.bytes rest))) in
    ap (λ (o : Outcome (Value × MessageIterator)). and_then o (λ p. ok (p.0, (next p.1).0)))
      (get-demarshal_value c last v (m.bytes ++ rest) (length b) sub after first
        ∙ ap (taken it) read)

-- The first value of a body.
extract-body_of :
    (v : Value) (vs : List Value) (b : List ℕ) (first : Tree)
    → IsInRange v
    → length (body_of b (v ∷ vs)) < 2 ^ 32
    → extract (reading (body_of b (v ∷ vs)) (length b) (chain (v ∷ vs)) first)
      ≡ ok (
        v,
        (next (
            reading
              (body_of b (v ∷ vs))
              (length (marshal_value v (writer b big)).bytes)
              (chain (v ∷ vs))
              first)).0,
      )
extract-body_of v vs b first range small =
    let more = body_grows vs (marshal_value v (writer b big)).bytes in
    rw (sym more.1) at
      (extract-value invalid 0 v b more.0 null (chain vs) first range (rw more.1 at small))

pub extract_all-body_of :
    (v : Value) (vs : List Value) (b : List ℕ) (first : Tree)
    → All IsInRange (v ∷ vs)
    → length (body_of b (v ∷ vs)) < 2 ^ 32
    → extract_all (length (v ∷ vs)) (reading (body_of b (v ∷ vs)) (length b) (chain (v ∷ vs)) first)
      ≡ ok (v ∷ vs)
extract_all-body_of v [] b first (range, ranges) small =
    ap
      (λ (o : Outcome (Value × MessageIterator)).
        and_then o (λ p. and_then (extract_all zero p.1) (λ ws. ok (p.0 ∷ ws))))
      (extract-body_of v [] b first range small)
extract_all-body_of v (w ∷ ws) b first (range, ranges) small =
    let c : List ℕ = (marshal_value v (writer b big)).bytes in
    let others : MessageIterator → Outcome (List Value) = extract_all (length (w ∷ ws)) in
    ap
      (λ (o : Outcome (Value × MessageIterator)).
        and_then o (λ p. and_then (others p.1) (λ us. ok (p.0 ∷ us))))
      (extract-body_of v (w ∷ ws) b first range small)
    ∙ ap (λ (o : Outcome (List Value)). and_then o (λ us. ok (v ∷ us)))
        (ap others (next-node v w (body_of c (w ∷ ws)) (length c) ws first)
          ∙ extract_all-body_of w ws c first ranges small)
