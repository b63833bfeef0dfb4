-- ===== src/Message/Entries.antt =====
-- The header array of a message, in the writer and in the reader (dbus-cxx/message.cpp).
use dbus_cxx.Common.{
  ℕ, ◌+◌, ◌<◌, ◌^◌, ◌≡◌, refl, ◌∙◌, List, [], ◌∷◌, ◌++◌, length, length-append, append_assoc,
  append-nil, get_elem?-append_right, lt→ltb, arith,
}
use dbus_cxx.Header.{
  MessageHeaderFields, invalid_field, path_field, interface_field, member_field, error_name_field,
  reply_serial_field, destination_field, sender_field, signature_field, unix_fds_field,
  header_field_to_int,
}
use dbus_cxx.Message.{HeaderMap, insert}
use dbus_cxx.Message.Format.{marshal_headers, marshal_header}
use dbus_cxx.Message.Parse.{store, push_fds, fds_from}
use dbus_cxx.Message.Entry.{entry_bytes, marshal_header-bytes, IsHeaderValue}
use dbus_cxx.Wire.Words.{big}
use dbus_cxx.Wire.Writer.{Marshaling}
use dbus_cxx.Wire.Reader.{Demarshaling, ok}
use dbus_cxx.Wire.Numbers.{writer}
use dbus_cxx.Wire.Variant.{Value, uint32_value, variant_of, Variant, to_uint32}
use dbus_cxx.Wire.Variants.{to_uint32-variant_of}

abbrev pub Fields : Type 0
Fields = List (MessageHeaderFields × Value)

abbrev pub map_of : Fields → HeaderMap
map_of [] = []
map_of ((k, v) ∷ fs) = (k, variant_of v) ∷ map_of fs

-- The bytes of the entries from offset `n` on.
abbrev pub entries_bytes : ℕ → Fields → List ℕ
entries_bytes n [] = []
entries_bytes n ((k, v) ∷ fs) =
    entry_bytes n k v ++ entries_bytes (n + length (entry_bytes n k v)) fs

-- The variant of a value is not passed over.
marshal_headers-cons :
    (k : MessageHeaderFields) (v : Value) (rest : HeaderMap) (m : Marshaling)
    → marshal_headers ((k, variant_of v) ∷ rest) m
      ≡ marshal_headers rest (marshal_header k (variant_of v) m)
unfolding marshal_headers variant_of
marshal_headers-cons k (Value.byte_value v) rest m = refl
marshal_headers-cons k (Value.bool_value v) rest m = refl
marshal_headers-cons k (Value.int16_value v) rest m = refl
marshal_headers-cons k (Value.uint16_value v) rest m = refl
marshal_headers-cons k (Value.int32_value v) rest m = refl
marshal_headers-cons k (Value.uint32_value v) rest m = refl
marshal_headers-cons k (Value.int64_value v) rest m = refl
marshal_headers-cons k (Value.uint64_value v) rest m = refl
marshal_headers-cons k (Value.double_value v) rest m = refl
marshal_headers-cons k (Value.string_value v) rest m = refl
marshal_headers-cons k (Value.path_value v) rest m = refl
marshal_headers-cons k (Value.signature_value v) rest m = refl

pub marshal_headers-bytes :
    (fs : Fields) (bs : List ℕ)
    → marshal_headers (map_of fs) (writer bs big) ≡ writer (bs ++ entries_bytes (length bs) fs) big
marshal_headers-bytes [] bs = unfold marshal_headers in rw append-nil
marshal_headers-bytes ((k, v) ∷ fs) bs =
    let entry : List ℕ = entry_bytes (length bs) k v in
    marshal_headers-cons k v (map_of fs) (writer bs big)
    ∙ rw
        (
          marshal_header-bytes k v bs,
          marshal_headers-bytes fs (bs ++ entry),
          length-append bs entry,
        )
        (simp append_assoc)

-- The entries stand in the order of the map, each field once, and none is the invalid field.
abbrev pub Ascends : ℕ → Fields → Type 0
Ascends n [] = Unit {0}
Ascends n ((k, v) ∷ fs) = (n < header_field_to_int k) × Ascends (header_field_to_int k) fs

-- The number of descriptors that a field of that meaning gives is the number that there are.
abbrev pub CountsFds : ℕ → MessageHeaderFields → Value → Type 0
CountsFds n unix_fds_field v = v ≡ uint32_value n
CountsFds n _ v = Unit {0}

-- The map grows at its end where the fields come in order.
abbrev pub Below : HeaderMap → ℕ → Type 0
Below [] n = Unit {0}
Below ((k, v) ∷ m) n = (header_field_to_int k < n) × Below m n

insert_last :
    (m : HeaderMap) (k : MessageHeaderFields) (v : Variant)
    → Below m (header_field_to_int k)
    → insert k v m ≡ m ++ ((k, v) ∷ [])
unfolding insert
insert_last [] k v h = refl
insert_last ((j, w) ∷ m) k v h = ground (arith, insert_last m k v h.1)

push_fds-drop :
    (fds front back real_fds : List ℕ) (i : ℕ)
    → fds ≡ front ++ back
    → i ≡ length front
    → push_fds (length back) i fds real_fds ≡ ok (real_fds ++ back)
unfolding push_fds
push_fds-drop fds front [] real_fds i e h = rw append-nil
push_fds-drop fds front (b ∷ back) real_fds i e h = ground (
  arith,
  get_elem?-append_right front (b ∷ back) 0 i,
  push_fds-drop fds (front ++ (b ∷ [])) back (real_fds ++ (b ∷ [])) (i + 1),
  append_assoc front (b ∷ []) back,
  append_assoc real_fds (b ∷ []) back,
  length-append front (b ∷ []),
)

-- The descriptors that the fields announce.
abbrev pub own_fds : List ℕ → MessageHeaderFields → List ℕ
own_fds fds unix_fds_field = fds
own_fds fds _ = []

abbrev pub fds_of : List ℕ → Fields → List ℕ
fds_of fds [] = []
fds_of fds ((k, v) ∷ fs) = own_fds fds k ++ fds_of fds fs

counted :
    (v : Value) (fds real : List ℕ)
    → v ≡ uint32_value (length fds)
    → length fds < 2 ^ 31
    → fds_from (to_uint32 (variant_of v)) fds real ≡ ok (real ++ fds)
counted v fds real e few =
    rw (e, to_uint32-variant_of (length fds) (omega arith), lt→ltb _ _ few)
      (push_fds-drop fds [] fds real 0 refl refl)

pub store_lem :
    (k : MessageHeaderFields) (v : Value) (fds : List ℕ) (m : HeaderMap) (real_fds : List ℕ)
    (r : Demarshaling)
    → 0 < header_field_to_int k
    → Below m (header_field_to_int k)
    → CountsFds (length fds) k v
    → length fds < 2 ^ 31
    → store fds k (variant_of v) (m, real_fds) r
      ≡ ok ((m ++ ((k, variant_of v) ∷ []), real_fds ++ own_fds fds k), r)
unfolding store
store_lem invalid_field v fds m real_fds r pos below counts few =
    absurd (unfold header_field_to_int in omega arith)
store_lem path_field v fds m real_fds r pos below counts few =
    rw (insert_last m path_field (variant_of v) below, append-nil)
store_lem interface_field v fds m real_fds r pos below counts few =
    rw (insert_last m interface_field (variant_of v) below, append-nil)
store_lem member_field v fds m real_fds r pos below counts few =
    rw (insert_last m member_field (variant_of v) below, append-nil)
store_lem error_name_field v fds m real_fds r pos below counts few =
    rw (insert_last m error_name_field (variant_of v) below, append-nil)
store_lem reply_serial_field v fds m real_fds r pos below counts few =
    rw (insert_last m reply_serial_field (variant_of v) below, append-nil)
store_lem destination_field v fds m real_fds r pos below counts few =
    rw (insert_last m destination_field (variant_of v) below, append-nil)
store_lem sender_field v fds m real_fds r pos below counts few =
    rw (insert_last m sender_field (variant_of v) below, append-nil)
store_lem signature_field v fds m real_fds r pos below counts few =
    rw (insert_last m signature_field (variant_of v) below, append-nil)
store_lem unix_fds_field v fds m real_fds r pos below counts few =
    rw (counted v fds real_fds counts few, insert_last m unix_fds_field (variant_of v) below)

-- What the fields need for the reader to return them.
abbrev pub Readable : ℕ → Fields → Type 0
Readable n [] = Unit {0}
Readable n ((k, v) ∷ fs) = IsHeaderValue v × CountsFds n k v × Readable n fs

pub Below-append :
    (m : HeaderMap) (k : MessageHeaderFields) (w : Variant) (n : ℕ)
    → Below m (header_field_to_int k)
    → header_field_to_int k < n
    → Below (m ++ ((k, w) ∷ [])) n
Below-append [] k w n h lt = (lt, tt)
Below-append ((j, x) ∷ m) k w n (h, hs) lt = (omega arith, Below-append m k w n hs lt)
