-- ===== src/Signature/Printed.antt =====
-- Signature::initialize and SignatureIterator::signature (dbus-cxx/signature.cpp and
-- signatureiterator.cpp) on signatures of simple types and of arrays of basic types other than BOOLEAN and DOUBLE.
use dbus_cxx.Common.{
  ℕ, zero, suc, ◌≡◌, refl, ◌∙◌, ap, List, [], ◌∷◌, ◌++◌, true, false, length, replicate, All,
  append-nil, append_assoc, arith,
}
use mathlib.Core.List.{map}
use dbus_cxx.Types.{array, char_to_dbus_type, is_basic, to_dbus_char}
use dbus_cxx.Signature.{
  return, link, is_dict_data, initialize_from, create_signature_tree, signature_of,
}
use dbus_cxx.Signature.Iterator.{char_text, chain_text, in_braces, begin, signature_text}
use dbus_cxx.Signature.Plain.{
  Item, single, arrays, IsItem, nested, item_node, items_text, single_char, element_basic,
  items_parse, items_text-nonempty,
}

basic_text :
    (c : ℕ)
    → is_basic (char_to_dbus_type c) ≡ true
    → (char_text (char_to_dbus_type c) ≡ c ∷ []) × (is_dict_data (char_to_dbus_type c) ≡ false)
unfolding char_to_dbus_type is_basic to_dbus_char
basic_text c h = ground arith

single_text : (c : ℕ) → IsItem (single c) → char_text (char_to_dbus_type c) ≡ c ∷ []
single_text c h = ground (arith, single_char c h)

array_text : char_text array ≡ b'a' ∷ []
unfolding to_dbus_char
array_text = refl

nested_text :
    (k c : ℕ) (rest : List ℕ)
    → is_basic (char_to_dbus_type c) ≡ true
    → in_braces (nested k c) (chain_text (nested k c)) ++ rest ≡ replicate k b'a' ++ (c ∷ rest)
unfolding chain_text
nested_text zero c rest h = rw ((basic_text c h).0, (basic_text c h).1)
nested_text (suc k) c rest h =
    rw (array_text, append-nil) (ap (λ (s : List ℕ). b'a' ∷ s) (nested_text k c rest h))

-- The iterator prints the chain of the items as their text.
items_chain :
    (is : List Item) → All IsItem is → chain_text (link (map item_node is)) ≡ items_text is
unfolding chain_text
items_chain [] h = refl
items_chain (single c ∷ is) h =
    rw (single_text c h.0) (ap (λ (s : List ℕ). c ∷ s) (items_chain is h.1))
items_chain (arrays k c ∷ is) h = rw array_text (
    ap (λ (s : List ℕ). b'a' ∷ s)
      (nested_text k c (chain_text (link (map item_node is))) (element_basic c h.0.0)
        ∙ rw (append_assoc, items_chain is h.1)))

parsed :
    (i : Item) (is : List Item)
    → All IsItem (i ∷ is)
    → create_signature_tree (length (items_text (i ∷ is))) (items_text (i ∷ is)) [] true
      ≡ return (map item_node (i ∷ is)) [] [] true
unfolding create_signature_tree
parsed i is h = rw (items_text-nonempty i is) (items_parse i is _ [] h (omega arith))

-- The text of one or more single complete types, each a basic type or a variant, or arrays, at
-- most 64 in one another, of a basic type other than BOOLEAN and DOUBLE, is a valid signature;
-- its nodes are those of the types in order; and its iterator prints the text again.
pub signature_of-items_text :
    (i : Item) (is : List Item)
    → All IsItem (i ∷ is)
    → ((signature_of (items_text (i ∷ is))).valid ≡ true)
      × ((signature_of (items_text (i ∷ is))).starting_node ≡ link (map item_node (i ∷ is)))
      × (signature_text (begin (signature_of (items_text (i ∷ is)))) ≡ items_text (i ∷ is))
unfolding signature_of signature_text begin
signature_of-items_text i is h =
    rw (ap (initialize_from (items_text (i ∷ is))) (parsed i is h))
      (refl, refl, items_chain (i ∷ is) h)
