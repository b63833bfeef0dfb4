-- ===== src/Signature.antt =====
-- Signatures: the parser of dbus-cxx/signature.cpp and the iterator of
-- dbus-cxx/signatureiterator.cpp. An iterator into the text is the text that is left; reading at
-- the end gives the null character, as `std::string` does. The nodes that the code links by
-- `m_sub` and `m_next` are a tree.
pub mod Iterator
pub mod Total
pub mod Plain
pub mod Printed
mod Tests
use dbus_cxx.Common.{
  ℕ, zero, suc, List, [], ◌∷◌, ◌++◌, Option, some, none, Bool, true, false, not, ◌&&◌, ◌||◌, length,
  ltb, ◌==◌, if◌then◌else◌,
}
use dbus_cxx.Types.{
  DataType, ContainerType, invalid, variant, array_type, struct_type, dict_entry_type, none_type,
  char_to_dbus_type, char_to_container_type, is_ending_container, is_basic, is_container,
}

-- SignatureNode with its two pointers, or a null pointer.
pub data Tree : Type 0 where
  null : Tree
  node : DataType → (sub : Tree) → (next : Tree) → Tree

-- The chain of the nodes made so far, linked by `m_next`.
abbrev pub link : List (DataType × Tree) → Tree
link [] = null
link ((t, sub) ∷ rest) = node t sub (link rest)

-- What a call leaves: its result, the iterator, the stack (its top first) and the flag.
pub record Parse : Type 0 where
  pub tree : Tree
  pub rest : List ℕ
  pub stack : List ContainerType
  pub good : Bool

abbrev pub peek : List ℕ → ℕ
peek [] = 0
peek (c ∷ cs) = c

abbrev pub step_over : List ℕ → List ℕ
step_over [] = []
step_over (c ∷ cs) = cs

abbrev pub pop : List ContainerType → List ContainerType
pop [] = []
pop (c ∷ cs) = cs

abbrev pub is_array_type : ContainerType → Bool
is_array_type array_type = true
is_array_type _ = false

abbrev pub is_struct_type : ContainerType → Bool
is_struct_type struct_type = true
is_struct_type _ = false

abbrev pub is_dict_entry_type : ContainerType → Bool
is_dict_entry_type dict_entry_type = true
is_dict_entry_type _ = false

abbrev pub same_container : ContainerType → ContainerType → Bool
same_container array_type c = is_array_type c
same_container struct_type c = is_struct_type c
same_container dict_entry_type c = is_dict_entry_type c
same_container none_type none_type = true
same_container none_type _ = false
same_container _ ContainerType.variant_type = true
same_container _ _ = false

-- Whether the stack has `c` on top.
abbrev pub top_is : ContainerType → List ContainerType → Bool
top_is c [] = false
top_is c (d ∷ ds) = same_container d c

abbrev pub is_null : Tree → Bool
is_null null = true
is_null (node _ _ _) = false

abbrev pub is_invalid : DataType → Bool
is_invalid invalid = true
is_invalid _ = false

abbrev pub is_variant : DataType → Bool
is_variant variant = true
is_variant _ = false

abbrev pub is_empty {ℓ} : {A : Type ℓ} → List A → Bool
is_empty [] = true
is_empty (_ ∷ _) = false

-- `*ok = false; return nullptr;`
abbrev pub fail : List ℕ → List ContainerType → Option Parse
fail s st = some (record { tree = null; rest = s; stack = st; good = false })

abbrev pub return : List (DataType × Tree) → List ℕ → List ContainerType → Bool → Option Parse
return acc s st good = some (record { tree = link acc; rest = s; stack = st; good = good })

abbrev pub Sub : Type 0
Sub = List ℕ → List ContainerType → Bool → Option Parse

abbrev pub Next : Type 0
Next = List (DataType × Tree) → Sub

-- The checks on entry, before the loop `go`.
unfoldable pub enter : Sub → Sub
enter go s st good =
    if ltb 64 (length st)
    then fail s st
    else if is_empty s
    then return [] s st good
    else go s st good

-- The end of a round, `if( it != end ) it++;`, and the test of the loop.
unfoldable pub bottom : Next → Next
bottom next acc s st good =
    if is_empty (step_over s)
    then return acc (step_over s) st good
    else next acc (step_over s) st good

abbrev pub is_struct_data : DataType → Bool
is_struct_data DataType.struct = true
is_struct_data _ = false

abbrev pub is_dict_data : DataType → Bool
is_dict_data DataType.dict_entry = true
is_dict_data _ = false

-- An ending character: it has to close the container on top of the stack.
unfoldable pub close : DataType → Next
close t acc s st good =
    if is_empty st
    then fail s st
    else if top_is struct_type st && is_struct_data t
    then return acc s st good
    else if top_is dict_entry_type st && is_dict_data t
    then return acc s st good
    else fail s st

-- What follows the recursive call for the contents of a container: `p` is what it left.
unfoldable pub after_sub :
    Next → DataType → ContainerType → List (DataType × Tree) → Parse → Option Parse
unfolding bottom
after_sub next t to_push acc p =
    let acc' = acc ++ ((t, p.tree) ∷ []) in
    let ending = is_ending_container (peek p.rest) in
    let st = pop p.stack in
    if not (top_is to_push p.stack)
    then fail p.rest p.stack
    else if ending && is_struct_type to_push
    then (if is_empty st
        then bottom next acc' p.rest st p.good
        else return acc' (step_over p.rest) st p.good)
    else if ending && is_dict_entry_type to_push
    then return acc' (step_over p.rest) st p.good
    else if is_array_type to_push && not (is_null p.tree)
    then (if not (top_is array_type st) && not (is_empty p.rest)
        then next acc' p.rest st p.good
        else return acc' p.rest st p.good)
    else fail p.rest p.stack

abbrev pub when_parsed : Option Parse → (Parse → Option Parse) → Option Parse
when_parsed none f = none
when_parsed (some p) f = f p

-- One round of the loop: `sub` is the recursive call and `next` the next round.
unfoldable pub round : Sub → Next → Next
unfolding bottom close after_sub
round sub next acc s st good =
    let t = char_to_dbus_type (peek s) in
    let to_push = char_to_container_type (peek s) in
    if is_invalid t
    then fail s st
    else if is_ending_container (peek s)
    then close t acc s st good
    else if top_is array_type st && is_basic t
    then return (acc ++ ((t, null) ∷ [])) (step_over s) st good
    else if is_container t && not (is_variant t)
    then when_parsed (sub (step_over s) (to_push ∷ st) good) (after_sub next t to_push acc)
    else bottom next (acc ++ ((t, null) ∷ [])) s st good

-- create_signature_tree: the loop on fuel, and the call. `none` means that the fuel ran out.
unfoldable pub loop : ℕ → Next
loop zero acc s st good = none
loop (suc fuel) acc s st good = round (enter (loop fuel [])) (loop fuel) acc s st good

unfoldable pub create_signature_tree : ℕ → Sub
unfolding enter
create_signature_tree fuel s st good = enter (loop fuel []) s st good

pub record Signature : Type 0 where
  pub text : List ℕ
  pub starting_node : Tree
  pub valid : Bool

unfoldable pub no_signature : Signature
no_signature = record { text = []; starting_node = null; valid = false }

-- `initialize`: valid if the flag still is set, the stack is empty and the text used up. Each round
-- takes a character, so a round for each is enough (`Total`).
abbrev pub initialize_from : List ℕ → Option Parse → Signature
initialize_from s none = record { text = s; starting_node = null; valid = false }
initialize_from s (some p) = record {
  text = s;
  starting_node = p.tree;
  valid = if not (is_empty p.stack) || not (is_empty p.rest) then false else p.good;
}

unfoldable pub signature_of : List ℕ → Signature
signature_of s = initialize_from s (create_signature_tree (length s) s [] true)

-- `operator=` stores the text, and leaves the tree and the flag.
unfoldable pub assign : List ℕ → Signature → Signature
assign s sig = record sig { text = s }

abbrev pub is_single_node : Tree → Bool
is_single_node null = false
is_single_node (node t sub next) = not (is_invalid t) && is_null next && is_null sub

unfoldable pub is_singleton : Signature → Bool
is_singleton sig = sig.valid && is_single_node sig.starting_node
