-- ===== src/Arguments/Containers.antt =====
-- The containers that MessageAppendIterator writes (dbus-cxx/messageappenditerator.cpp and
-- messageappenditerator.h), for iterators that have a message. The subiterators that are open hang
-- under one another; each writes into a buffer of its own until it is closed.
use dbus_cxx.Common.{
  ℕ, ◌+◌, ◌-◌, ◌^◌, List, [], ◌∷◌, ◌++◌, Option, none, some, Bool, true, false, not, length, ltb,
  if◌then◌else◌, codes,
}
use dbus_cxx.Types.{
  ContainerType, none_type, array_type, variant_type, struct_type, dict_entry_type, alignment,
}
use dbus_cxx.Signature.{signature_of, is_invalid}
use dbus_cxx.Signature.Iterator.{begin, type_of}
use dbus_cxx.Message.{Message, invalidate, add_filedescriptor}
use dbus_cxx.Wire.Words.{big, u32}
use dbus_cxx.Wire.Writer
use dbus_cxx.Wire.Writer.{Marshaling}
use dbus_cxx.Wire.Reader.{Outcome, ok, fault, raise, and_then}
use dbus_cxx.Wire.Variant.{Value, value_signature, Variant}
use dbus_cxx.Arguments.{append_signature, is_too_long, marshal_argument, marshal_chars}

pub data Sub : Type 0 where
  no_sub : Sub
  sub : ContainerType → (working_buffer : List ℕ) → (array_alignment : ℕ) → Sub → Sub

pub record AppendIterator : Type 0 where
  pub message : Message
  pub container : ContainerType
  pub working_buffer : List ℕ
  pub array_alignment : ℕ
  pub subiter : Sub

-- Message::append
unfoldable pub append_iterator : Message → AppendIterator
append_iterator msg = record {
  message = msg;
  container = none_type;
  working_buffer = [];
  array_alignment = 0;
  subiter = no_sub;
}

abbrev pub is_none : ContainerType → Bool
is_none none_type = true
is_none _ = false

-- `m_marshaling` writes to the message, or in a container to its buffer.
unfoldable pub marshaled : (Marshaling → Marshaling) → AppendIterator → AppendIterator
marshaled f it =
    if is_none it.container
    then record it {
      message = record it.message {
        body = (f (record { bytes = it.message.body; endian = big })).bytes;
      };
    }
    else record it {
      working_buffer = (f (record { bytes = it.working_buffer; endian = big })).bytes;
    }

-- Only outside containers a signature is appended.
unfoldable pub signed : List ℕ → AppendIterator → Outcome AppendIterator
signed sig it =
    if is_none it.container
    then and_then (append_signature sig it.message) (λ m. ok (record it { message = m }))
    else ok it

-- `operator<<` of a simple value.
unfoldable pub append_value : Value → AppendIterator → Outcome AppendIterator
append_value v it =
    if not it.message.valid
    then ok it
    else if is_too_long v
    then ok (record it { message = invalidate it.message })
    else and_then (signed (value_signature v) it) (λ i. ok (marshaled (marshal_argument v) i))

-- Validator::maximum_array_size of dbus-cxx/validator.h.
abbrev pub maximum_array_size : ℕ
maximum_array_size = 2 ^ 26

-- The bytes of the subiterator, and the end of it.
abbrev pub copied : List ℕ → AppendIterator → AppendIterator
copied buffer it = record (marshaled (marshal_chars buffer) it) { subiter = no_sub }

unfoldable pub closed : AppendIterator → Sub → AppendIterator × Bool
closed it no_sub = (it, false)
closed it (sub none_type buffer a s) = (it, false)
closed it (sub array_type buffer a s) =
    if ltb maximum_array_size (u32 (length buffer))
    then (record it { message = invalidate it.message }, true)
    else (
      copied buffer
          (marshaled (λ m. Writer.align a (Writer.marshal_uint32 (u32 (length buffer)) m)) it),
      true,
    )
closed it (sub dict_entry_type buffer a s) = (copied buffer (marshaled (Writer.align 8) it), true)
closed it (sub struct_type buffer a s) = (copied buffer (marshaled (Writer.align 8) it), true)
closed it (sub variant_type buffer a s) = (copied buffer it, true)

unfoldable pub close_container : AppendIterator → AppendIterator × Bool
close_container it = closed it it.subiter

unfoldable pub container_signature : ContainerType → List ℕ → List ℕ
container_signature struct_type sig = codes "(" ++ sig ++ codes ")"
container_signature array_type sig = codes "a" ++ sig
container_signature variant_type sig = codes "v"
container_signature _ sig = []

-- An array is aligned as the first type of its signature.
unfoldable pub container_alignment : ContainerType → List ℕ → ℕ
container_alignment array_type sig = alignment (type_of (begin (signature_of sig)))
container_alignment _ sig = 0

unfoldable pub open_container : ContainerType → List ℕ → AppendIterator → Outcome AppendIterator
open_container t sig it =
    and_then (signed (container_signature t sig) (close_container it).0)
      (λ i. ok (record i { subiter = sub t [] (container_alignment t sig) no_sub }))

-- What is done with `*sub_iterator()`.
unfoldable pub on_sub :
    (AppendIterator → Outcome AppendIterator) → AppendIterator → Outcome AppendIterator
on_sub f it = elim it.subiter [
  | no_sub ↦ fault
  | sub c buffer a s ↦
      and_then
        (f (record {
          message = it.message;
          container = c;
          working_buffer = buffer;
          array_alignment = a;
          subiter = s;
        }))
        (λ r. ok (record it {
          message = r.message;
          subiter = sub r.container r.working_buffer r.array_alignment r.subiter;
        }))
]

-- The end of a container that has to be open.
abbrev pub close_or_throw : AppendIterator → Outcome AppendIterator
close_or_throw it = if not (close_container it).1 then raise else ok (close_container it).0

unfoldable pub append_elements : List Value → AppendIterator → Outcome AppendIterator
append_elements [] it = ok it
append_elements (v ∷ vs) it = and_then (on_sub (append_value v) it) (append_elements vs)

-- `operator<<` of a vector whose elements have the signature `sig`.
unfoldable pub append_vector : List ℕ → List Value → AppendIterator → Outcome AppendIterator
append_vector sig vs it =
    and_then (open_container array_type sig it)
      (λ i. and_then (append_elements vs i) close_or_throw)

-- `operator<<` of a tuple.
unfoldable pub append_tuple : List ℕ → List Value → AppendIterator → Outcome AppendIterator
append_tuple sig vs it =
    and_then (open_container struct_type sig it)
      (λ i. and_then (append_elements vs i) (λ j. ok (close_container j).0))

-- `operator<<` of a Variant.
unfoldable pub append_variant : Variant → AppendIterator → Outcome AppendIterator
append_variant v it =
    if not it.message.valid
    then ok it
    else if is_invalid v.current_type
    then ok it
    else and_then (open_container variant_type v.signature_text it) (λ i.
      ok
        (close_container (
          marshaled
            (λ m.
              marshal_chars v.marshaled
                (Writer.align v.data_alignment (Writer.marshal_signature v.signature_text m)))
            i)).0)

-- `operator<<` of a map: its entries in order, by the `operator<<` of the keys and the values.
module _ {κ ℓ} {K : Type κ} {V : Type ℓ} (append_key : K → AppendIterator → Outcome AppendIterator)
    (append_data : V → AppendIterator → Outcome AppendIterator) where
  unfoldable pub append_entry : K × V → AppendIterator → Outcome AppendIterator
  append_entry (key, value) it = and_then (open_container dict_entry_type [] it) (λ i.
      and_then (on_sub (append_key key) i)
        (λ j. and_then (on_sub (append_data value) j) (λ k. ok (close_container k).0)))

  unfoldable pub append_entries : List (K × V) → AppendIterator → Outcome AppendIterator
  append_entries [] it = ok it
  append_entries (e ∷ es) it = and_then (on_sub (append_entry e) it) (append_entries es)

  unfoldable pub append_map : List ℕ → List (K × V) → AppendIterator → Outcome AppendIterator
  append_map sig es it =
      and_then (open_container array_type sig it)
        (λ i. and_then (append_entries es i) (λ j. ok (close_container j).0))

-- `operator<<` of a file descriptor, which `duplicate` copies if it can.
unfoldable pub append_filedescriptor :
    (duplicate : ℕ → Option ℕ) → ℕ → AppendIterator → Outcome AppendIterator
append_filedescriptor duplicate fd it =
    if not it.message.valid
    then ok it
    else and_then (signed (codes "h") it) (λ i. elim (duplicate fd) [
      | none ↦ ok (record i { message = invalidate i.message })
      | some new_fd ↦
          let added = add_filedescriptor new_fd i.message in
          ok (
            marshaled (Writer.marshal_uint32 (u32 (length added.filedescriptors + (2 ^ 32 - 1))))
              (record i { message = added }))
    ])
