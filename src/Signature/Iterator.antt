-- ===== src/Signature/Iterator.antt =====
-- The class SignatureIterator of dbus-cxx/signatureiterator.cpp.
use dbus_cxx.Common.{ℕ, List, [], ◌∷◌, ◌++◌, Bool, true, false, not, ◌&&◌, ◌==◌, if◌then◌else◌}
use dbus_cxx.Types
use dbus_cxx.Types.{DataType, invalid, array, dict_entry, to_dbus_char}
use dbus_cxx.Signature.{Tree, null, node, Signature, is_null, is_invalid, is_dict_data}

-- `m_valid`, `m_current` and `m_first`.
pub record SignatureIterator : Type 0 where
  pub valid : Bool
  pub current : Tree
  pub first : Tree

unfoldable pub no_iterator : SignatureIterator
no_iterator = record { valid = false; current = null; first = null }

unfoldable pub iterator_of : Tree → SignatureIterator
iterator_of t = record { valid = not (is_null t); current = t; first = t }

unfoldable pub begin : Signature → SignatureIterator
unfolding no_iterator iterator_of
begin sig = if sig.valid then iterator_of sig.starting_node else no_iterator

abbrev pub node_type : Tree → DataType
node_type null = invalid
node_type (node t sub next) = t

abbrev pub node_sub : Tree → Tree
node_sub null = null
node_sub (node t sub next) = sub

abbrev pub node_next : Tree → Tree
node_next null = null
node_next (node t sub next) = next

unfoldable pub type_of : SignatureIterator → DataType
type_of it = if not it.valid then invalid else node_type it.current

unfoldable pub is_valid : SignatureIterator → Bool
unfolding type_of
is_valid it = it.valid && not (is_invalid (type_of it))

unfoldable pub invalidate : SignatureIterator → SignatureIterator
invalidate it = record it { valid = false }

unfoldable pub next : SignatureIterator → SignatureIterator × Bool
unfolding is_valid
next it =
    if not (is_valid it)
    then (it, false)
    else if is_null (node_next it.current)
    then (record it { current = null; valid = false }, false)
    else (record it { current = node_next it.current }, true)

unfoldable pub has_next : SignatureIterator → Bool
has_next it = not (is_null (node_next it.current))

abbrev pub is_array_data : DataType → Bool
is_array_data array = true
is_array_data _ = false

unfoldable pub element_type : SignatureIterator → DataType
unfolding type_of iterator_of
element_type it =
    if not (is_array_data (type_of it))
    then invalid
    else type_of (iterator_of (node_sub it.current))

unfoldable pub is_basic : SignatureIterator → Bool
unfolding type_of
is_basic it = Types.is_basic (type_of it)

unfoldable pub is_fixed : SignatureIterator → Bool
unfolding type_of
is_fixed it = Types.is_fixed (type_of it)

unfoldable pub is_container : SignatureIterator → Bool
unfolding type_of
is_container it = Types.is_container (type_of it)

unfoldable pub is_array : SignatureIterator → Bool
unfolding type_of
is_array it = is_array_data (type_of it)

unfoldable pub is_dict : SignatureIterator → Bool
unfolding is_array element_type
is_dict it = is_array it && is_dict_data (element_type it)

unfoldable pub recurse : SignatureIterator → SignatureIterator
unfolding is_container no_iterator iterator_of
recurse it = if not (is_container it) then no_iterator else iterator_of (node_sub it.current)

-- `if( dbusChar ) signature += dbusChar;`
abbrev pub char_text : DataType → List ℕ
char_text t = if to_dbus_char t == 0 then [] else to_dbus_char t ∷ []

abbrev pub in_braces : Tree → List ℕ → List ℕ
in_braces t text = if is_dict_data (node_type t) then b'{' ∷ (text ++ (b'}' ∷ [])) else text

-- The loop over a chain, and `iterate_over_subsig` of what hangs under each node.
unfoldable pub chain_text : Tree → List ℕ
chain_text null = []
chain_text (node t sub rest) = char_text t ++ (in_braces sub (chain_text sub) ++ chain_text rest)

unfoldable pub signature_text : SignatureIterator → List ℕ
unfolding chain_text
signature_text it = chain_text it.first
