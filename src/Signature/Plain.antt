-- ===== src/Signature/Plain.antt =====
-- Signatures of simple types and of arrays of basic types other than BOOLEAN and DOUBLE, and the rounds of the parser of
-- dbus-cxx/signature.cpp over them.
use dbus_cxx.Common.{
  ℕ, zero, suc, ◌+◌, ◌≤◌, ◌<◌, ◌≡◌, refl, ap, ◌∙◌, List, [], ◌∷◌, ◌++◌, Option, some, true, false,
  not, ◌&&◌, length, replicate, All, if◌then◌else◌, append_assoc, length-append, length-replicate,
  Bool, ◌==◌, codes, arith,
}
use mathlib.Core.List.{map}
use dbus_cxx.Types.{
  DataType, ContainerType, array, array_type, char_to_dbus_type, char_to_container_type,
  is_ending_container, is_basic, is_container, to_dbus_char,
}
use dbus_cxx.Signature.{
  Tree, null, node, Sub, Next, Parse, return, when_parsed, is_empty, is_invalid, is_variant, enter,
  bottom, after_sub, round, loop,
}

-- A single complete type: a character that opens no container, or `depth + 1` arrays of a basic one.
pub data Item : Type 0 where
  single : ℕ → Item
  arrays : (depth : ℕ) → ℕ → Item

abbrev one_of : ℕ → List ℕ → Bool
one_of c [] = false
one_of c (d ∷ ds) = let more = one_of c ds in if c == d then true else more

-- The characters of the specification's basic types less `b` and `d`, which may stand in an array.
abbrev IsArrayElement : ℕ → Type 0
IsArrayElement c = one_of c (codes "ynqiuxtsogh") ≡ true

-- Those of the basic types, and of the variant.
abbrev pub IsSimple : ℕ → Type 0
IsSimple c = one_of c (codes "ybnqiuxtdsoghv") ≡ true

abbrev pub IsItem : Item → Type 0
IsItem (single c) = IsSimple c
IsItem (arrays depth c) = IsArrayElement c × (depth < 64)

pub element_basic : (c : ℕ) → IsArrayElement c → is_basic (char_to_dbus_type c) ≡ true
unfolding char_to_dbus_type is_basic
element_basic c h = ground arith

simple_type :
    (c : ℕ)
    → IsSimple c
    → (is_invalid (char_to_dbus_type c) ≡ false)
      × ((is_container (char_to_dbus_type c) && not (is_variant (char_to_dbus_type c))) ≡ false)
unfolding char_to_dbus_type is_container
simple_type c h = ground arith

abbrev item_text : Item → List ℕ
item_text (single c) = c ∷ []
item_text (arrays depth c) = b'a' ∷ (replicate depth b'a' ++ (c ∷ []))

abbrev pub items_text : List Item → List ℕ
items_text [] = []
items_text (i ∷ is) = item_text i ++ items_text is

abbrev pub nested : ℕ → ℕ → Tree
nested zero c = node (char_to_dbus_type c) null null
nested (suc k) c = node array (nested k c) null

abbrev pub item_node : Item → DataType × Tree
item_node (single c) = (char_to_dbus_type c, null)
item_node (arrays depth c) = (array, nested depth c)

-- A basic character is not invalid and ends no container.
basic_char :
    (c : ℕ)
    → is_basic (char_to_dbus_type c) ≡ true
    → (is_invalid (char_to_dbus_type c) ≡ false) × (is_ending_container c ≡ false)
unfolding char_to_dbus_type is_ending_container is_basic
basic_char c h = ground arith

pub single_char :
    (c : ℕ)
    → IsItem (single c)
    → (is_ending_container c ≡ false) × (to_dbus_char (char_to_dbus_type c) ≡ c) × (0 < c)
unfolding char_to_dbus_type is_ending_container to_dbus_char
single_char c h = ground arith

-- A round at the opening of an array.
array_round :
    (sub : Sub) (next : Next) (acc : List (DataType × Tree)) (s : List ℕ) (st : List ContainerType)
    → round sub next acc (b'a' ∷ s) st true
      ≡ when_parsed (sub s (array_type ∷ st) true) (after_sub next array array_type acc)
unfolding round char_to_dbus_type is_ending_container char_to_container_type is_basic is_container
array_round sub next acc s [] = refl
array_round sub next acc s (c ∷ st) = ground arith

leave_inner :
    (next : Next) (k j c : ℕ) (rest : List ℕ)
    → after_sub next array array_type [] (record {
      tree = nested k c;
      rest = rest;
      stack = array_type ∷ replicate (suc j) array_type;
      good = true;
    })
      ≡ some (record {
        tree = node array (nested k c) null;
        rest = rest;
        stack = replicate (suc j) array_type;
        good = true;
      })
unfolding after_sub
leave_inner next zero j c rest = ground arith
leave_inner next (suc k) j c rest = ground arith

enter_array :
    (go : Sub) (s : List ℕ) (st : List ContainerType)
    → length st ≤ 64
    → enter go s st true ≡ (if is_empty s then return [] s st true else go s st true)
unfolding enter
enter_array go s st h = ground arith

-- The contents of an array, inside `j + 1` arrays.
nested_parse :
    (k j fuel c : ℕ) (rest : List ℕ)
    → is_basic (char_to_dbus_type c) ≡ true
    → k + j < 64
    → k < fuel
    → enter (loop fuel []) (replicate k b'a' ++ (c ∷ rest)) (replicate (suc j) array_type) true
      ≡ some (record {
        tree = nested k c;
        rest = rest;
        stack = replicate (suc j) array_type;
        good = true;
      })
unfolding loop round
nested_parse zero j zero c rest b d f = absurd (omega arith)
nested_parse (suc k) j zero c rest b d f = absurd (omega arith)
nested_parse zero j (suc fuel) c rest b d f =
    enter_array (loop (suc fuel) []) (c ∷ rest) (replicate (suc j) array_type)
      (omega (arith, length-replicate {A = ContainerType} j array_type))
    ∙ ground (arith, basic_char c b)
nested_parse (suc k) j (suc fuel) c rest b d f =
    let text : List ℕ = replicate k b'a' ++ (c ∷ rest) in
    let st : List ContainerType = replicate (suc j) array_type in
    enter_array (loop (suc fuel) []) (b'a' ∷ text) st
      (omega (arith, length-replicate {A = ContainerType} j array_type))
    ∙ array_round (enter (loop fuel [])) (loop fuel) [] text st
    ∙ ap (λ (o : Option Parse). when_parsed o (after_sub (loop fuel) array array_type []))
        (nested_parse k (suc j) fuel c rest b (omega arith) (omega arith))
    ∙ leave_inner (loop fuel) k j c rest

-- What follows an array outside all containers.
leave_outer :
    (next : Next) (k c : ℕ) (acc : List (DataType × Tree)) (rest : List ℕ)
    → after_sub next array array_type acc
        (record { tree = nested k c; rest = rest; stack = array_type ∷ []; good = true })
      ≡ (if is_empty rest
          then return (acc ++ ((array, nested k c) ∷ [])) rest [] true
          else next (acc ++ ((array, nested k c) ∷ [])) rest [] true)
unfolding after_sub
leave_outer next zero c acc [] = ground arith
leave_outer next zero c acc (x ∷ rest) = ground arith
leave_outer next (suc k) c acc [] = ground arith
leave_outer next (suc k) c acc (x ∷ rest) = ground arith

-- A round at a single character outside all containers.
single_round :
    (sub : Sub) (next : Next) (acc : List (DataType × Tree)) (c : ℕ) (rest : List ℕ)
    → IsItem (single c)
    → round sub next acc (c ∷ rest) [] true ≡ (
        if is_empty rest
        then return (acc ++ (item_node (single c) ∷ [])) rest [] true
        else next (acc ++ (item_node (single c) ∷ [])) rest [] true)
unfolding round bottom
single_round sub next acc c rest h = ground (arith, single_char c h, simple_type c h)

-- A round at an item outside all containers goes on with what follows the item.
item_round :
    (i : Item) (rest : List ℕ) (fuel : ℕ) (acc : List (DataType × Tree))
    → IsItem i
    → length (item_text i) ≤ suc fuel
    → loop (suc fuel) acc (item_text i ++ rest) [] true ≡ (
        if is_empty rest
        then return (acc ++ (item_node i ∷ [])) rest [] true
        else loop fuel (acc ++ (item_node i ∷ [])) rest [] true)
unfolding loop
item_round (single c) rest fuel acc h f =
    single_round (enter (loop fuel [])) (loop fuel) acc c rest h
item_round (arrays k c) rest fuel acc h f =
    let text : List ℕ = replicate k b'a' ++ (c ∷ rest) in
    ap (λ (s : List ℕ). loop (suc fuel) acc (b'a' ∷ s) [] true)
      (append_assoc (replicate k b'a') (c ∷ []) rest)
    ∙ array_round (enter (loop fuel [])) (loop fuel) acc text []
    ∙ ap (λ (o : Option Parse). when_parsed o (after_sub (loop fuel) array array_type acc))
        (nested_parse k 0 fuel c rest (element_basic c h.0) (omega arith) (
          omega
            (arith, length-append (replicate k b'a') (c ∷ []), length-replicate {A = ℕ} k b'a')))
    ∙ leave_outer (loop fuel) k c acc rest

item_text-pos : (i : Item) → 0 < length (item_text i)
item_text-pos (single c) = omega arith
item_text-pos (arrays k c) = omega arith

pub items_text-nonempty : (i : Item) (is : List Item) → is_empty (items_text (i ∷ is)) ≡ false
items_text-nonempty (single c) is = refl
items_text-nonempty (arrays k c) is = refl

-- The loop outside all containers takes the items one by one.
pub items_parse :
    (i : Item) (is : List Item) (fuel : ℕ) (acc : List (DataType × Tree))
    → All IsItem (i ∷ is)
    → length (items_text (i ∷ is)) ≤ fuel
    → loop fuel acc (items_text (i ∷ is)) [] true
      ≡ return (acc ++ map item_node (i ∷ is)) [] [] true
items_parse i is zero acc h f =
    absurd (omega (arith, item_text-pos i, length-append (item_text i) (items_text is)))
items_parse i [] (suc fuel) acc h f =
    item_round i [] fuel acc h.0 (omega (arith, length-append (item_text i) []))
items_parse i (j ∷ js) (suc fuel) acc h f =
    item_round i (items_text (j ∷ js)) fuel acc h.0
      (omega (arith, length-append (item_text i) (items_text (j ∷ js))))
    ∙ rw (items_text-nonempty j js) (
        items_parse j js fuel (acc ++ (item_node i ∷ [])) h.1
          (omega (arith, item_text-pos i, length-append (item_text i) (items_text (j ∷ js))))
        ∙ ap (λ (l : List (DataType × Tree)). return l [] [] true)
            (append_assoc acc (item_node i ∷ []) (map item_node (j ∷ js))))
