-- ===== src/Arguments/Arrays.antt =====
-- The containers that MessageIterator reads (dbus-cxx/messageiterator.cpp and messageiterator.h). A
-- subiterator reads by the reader of the iterator that it comes from. Where C++ leaves the order of
-- the two calls in a sum open, `offset_first` says whether the left one comes first.
use dbus_cxx.Common.{
  ℕ, zero, suc, ◌+◌, List, [], ◌∷◌, Bool, false, not, ◌&&◌, length, if◌then◌else◌,
}
use dbus_cxx.Types
use dbus_cxx.Types.{DataType, invalid, array, variant, struct, dict_entry, same_type}
use dbus_cxx.Signature.{signature_of}
use dbus_cxx.Signature.Iterator
use dbus_cxx.Signature.Iterator.{SignatureIterator, begin, no_iterator}
use dbus_cxx.Wire.Words.{big, u32}
use dbus_cxx.Wire.Reader
use dbus_cxx.Wire.Reader.{Demarshaling, Outcome, ok, raise, stuck, and_then}
use dbus_cxx.Wire.Variant.{Value}
use dbus_cxx.Arguments.{MessageIterator, arg_type, is_valid, next, extract}

unfoldable pub is_fixed : MessageIterator → Bool
is_fixed it = Types.is_fixed (arg_type it)

unfoldable pub is_container : MessageIterator → Bool
is_container it = Types.is_container (arg_type it)

unfoldable pub is_array : MessageIterator → Bool
is_array it = same_type (arg_type it) array

unfoldable pub element_type : MessageIterator → DataType
element_type it = if not (is_array it) then invalid else Iterator.element_type it.signature_iterator

unfoldable pub is_dict : MessageIterator → Bool
is_dict it = is_array it && same_type (element_type it) dict_entry

-- An iterator with no message.
unfoldable pub no_message : MessageIterator
no_message = record {
  message_valid = false;
  demarshal = record { bytes = []; pos = 0; endian = big };
  signature_iterator = no_iterator;
  subiter_type = invalid;
  array_last_position = 0;
}

-- A subiterator over the signature `sig`.
abbrev over_signature : MessageIterator → SignatureIterator → Demarshaling → MessageIterator
over_signature it sig r = record {
  message_valid = it.message_valid;
  demarshal = r;
  signature_iterator = sig;
  subiter_type = invalid;
  array_last_position = 0;
}

unfoldable pub enter_array : Bool → MessageIterator → Outcome MessageIterator
enter_array offset_first it = and_then (Reader.demarshal_uint32 it.demarshal) (λ p. ok (record {
  message_valid = it.message_valid;
  demarshal = p.1;
  signature_iterator = Iterator.recurse it.signature_iterator;
  subiter_type = array;
  array_last_position = u32 ((if offset_first then it.demarshal.pos else p.1.pos) + p.0);
}))

-- The constructor of a subiterator, by the type of the container.
unfoldable pub enter : Bool → DataType → MessageIterator → Outcome MessageIterator
enter offset_first array it = enter_array offset_first it
enter offset_first variant it =
    and_then (Reader.demarshal_signature it.demarshal)
      (λ p. ok (over_signature it (begin (signature_of p.0)) p.1))
enter offset_first dict_entry it =
    and_then (Reader.align 8 it.demarshal)
      (λ p. ok (over_signature it (Iterator.recurse it.signature_iterator) p.1))
enter offset_first struct it =
    and_then (Reader.align 8 it.demarshal)
      (λ p. ok (over_signature it (Iterator.recurse it.signature_iterator) p.1))
enter offset_first _ it =
    ok (over_signature it (Iterator.recurse it.signature_iterator) it.demarshal)

unfoldable pub recurse : Bool → MessageIterator → Outcome MessageIterator
recurse offset_first it =
    if not (is_container it) then ok no_message else enter offset_first (arg_type it) it

-- The loop over the elements, on fuel.
unfoldable pub array_loop : ℕ → MessageIterator → Outcome (List Value × MessageIterator)
array_loop zero it = stuck
array_loop (suc fuel) it =
    if is_valid it
    then and_then (extract it) (λ p. and_then (array_loop fuel p.1) (λ q. ok (p.0 ∷ q.0, q.1)))
    else ok ([], it)

-- `get_array`, and the iterator with its reader behind the array. An element takes a byte at least.
unfoldable pub get_array : Bool → MessageIterator → Outcome (List Value × MessageIterator)
get_array offset_first it =
    if not (is_array it)
    then raise
    else and_then (recurse offset_first it) (λ s.
      and_then (array_loop (suc (length it.demarshal.bytes)) s)
        (λ p. ok (p.0, record it { demarshal = p.1.demarshal })))

-- `operator>>` of a vector.
unfoldable pub extract_array : Bool → MessageIterator → Outcome (List Value × MessageIterator)
extract_array offset_first it = and_then (get_array offset_first it) (λ p. ok (p.0, (next p.1).0))

-- So many values from a subiterator.
unfoldable pub struct_loop : ℕ → MessageIterator → Outcome (List Value × MessageIterator)
struct_loop zero it = ok ([], it)
struct_loop (suc n) it =
    and_then (extract it) (λ p. and_then (struct_loop n p.1) (λ q. ok (p.0 ∷ q.0, q.1)))

-- `operator>>` of a tuple of `n` values. An argument that is no container has a subiterator with no
-- message, and its reader stays where it is.
unfoldable pub extract_struct : Bool → ℕ → MessageIterator → Outcome (List Value × MessageIterator)
extract_struct offset_first n it = and_then (recurse offset_first it) (λ s.
    and_then (struct_loop n s) (λ p.
      ok (p.0, (next (if is_container it then record it { demarshal = p.1.demarshal } else it)).0)))
