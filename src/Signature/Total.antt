-- ===== src/Signature/Total.antt =====
-- The rounds that the parser of dbus-cxx/signature.cpp takes.
use dbus_cxx.Common.{
  ℕ, zero, suc, ◌≤◌, ◌<◌, ◌≡◌, refl, List, [], ◌∷◌, ◌++◌, Option, some, Bool, true, false, not,
  ◌&&◌, length, if◌then◌else◌, ltb, arith,
}
use dbus_cxx.Types.{
  DataType, ContainerType, char_to_dbus_type, char_to_container_type, is_ending_container, is_basic,
  is_container, array_type, struct_type, dict_entry_type,
}
use dbus_cxx.Signature.{
  Tree, null, Parse, Next, fail, return, peek, step_over, pop, is_empty, top_is, is_null,
  is_invalid, is_variant, is_struct_type, is_dict_entry_type, is_array_type, is_struct_data,
  is_dict_data, enter, bottom, close, after_sub, when_parsed, round, loop, create_signature_tree,
}

-- A call that returns, with at most `n` characters left.
abbrev Ends : ℕ → Option Parse → Type 0
Ends n o = (p : Parse) × (o ≡ some p) × (length p.rest ≤ n)

Ends-if :
    (n : ℕ) (b : Bool) {x y : Option Parse}
    → (b ≡ true → Ends n x)
    → (b ≡ false → Ends n y)
    → Ends n (if b then x else y)
Ends-if n true f g = f refl
Ends-if n false f g = g refl

Ends-le : {n m : ℕ} {o : Option Parse} → n ≤ m → Ends n o → Ends m o
Ends-le h (p, e, k) = (p, e, omega arith)

Ends-fail : (n : ℕ) (s : List ℕ) (st : List ContainerType) → length s ≤ n → Ends n (fail s st)
Ends-fail n s st h = (_, refl, h)

Ends-return :
    (n : ℕ) (acc : List (DataType × Tree)) (s : List ℕ) (st : List ContainerType) (good : Bool)
    → length s ≤ n
    → Ends n (return acc s st good)
Ends-return n acc s st good h = (_, refl, h)

step_over-le : (s : List ℕ) → length (step_over s) ≤ length s
step_over-le [] = omega arith
step_over-le (c ∷ cs) = omega arith

step_over-lt : (s : List ℕ) → is_empty s ≡ false → length (step_over s) < length s
step_over-lt [] e = cc
step_over-lt (c ∷ cs) e = omega arith

-- What the rounds after this one promise, on at most `n` characters.
abbrev Continues : ℕ → Next → Type 0
Continues n next =
    (acc : List (DataType × Tree)) (s : List ℕ) (st : List ContainerType) (good : Bool)
    → is_empty s ≡ false
    → length s ≤ n
    → Ends (length s) (next acc s st good)

right_not : (a b : Bool) → (a && not b) ≡ true → b ≡ false
right_not a b h = ground arith

module _ (n : ℕ) (next : Next) (later : Continues n next) where
  enter-Ends :
      (acc : List (DataType × Tree)) (s : List ℕ) (st : List ContainerType) (good : Bool)
      → length s ≤ n
      → Ends (length s) (enter (next acc) s st good)
  unfolding enter
  enter-Ends acc s st good h =
      Ends-if _ (ltb 64 (length st)) (λ _. Ends-fail _ s st (omega arith))
        λ _.
          Ends-if _ (is_empty s) (λ _. Ends-return _ [] s st good (omega arith))
            λ e. later acc s st good e h

  bottom-Ends :
      (acc : List (DataType × Tree)) (s : List ℕ) (st : List ContainerType) (good : Bool)
      → length (step_over s) ≤ n
      → Ends (length s) (bottom next acc s st good)
  unfolding bottom
  bottom-Ends acc s st good h =
      Ends-if _ (is_empty (step_over s))
        (λ _. Ends-return _ acc (step_over s) st good (step_over-le s))
        λ e. Ends-le (step_over-le s) (later acc (step_over s) st good e h)

  after_sub-Ends :
      (t : DataType) (to_push : ContainerType) (acc : List (DataType × Tree)) (p : Parse)
      → length p.rest ≤ n
      → Ends (length p.rest) (after_sub next t to_push acc p)
  unfolding after_sub
  after_sub-Ends t to_push acc p h =
      let acc' : List (DataType × Tree) = acc ++ ((t, p.tree) ∷ []) in
      let ending : Bool = is_ending_container (peek p.rest) in
      let st : List ContainerType = pop p.stack in
      let over : length (step_over p.rest) ≤ length p.rest = step_over-le p.rest in
      let failed : Ends (length p.rest) (fail p.rest p.stack) =
        Ends-fail _ p.rest p.stack (omega arith) in
      let closed : Ends (length p.rest) (return acc' (step_over p.rest) st p.good) =
        Ends-return _ acc' (step_over p.rest) st p.good over in
      Ends-if _ (not (top_is to_push p.stack)) (λ _. failed)
        λ _.
          Ends-if _ (ending && is_struct_type to_push)
            (λ _.
              Ends-if _ (is_empty st) (λ _. bottom-Ends acc' p.rest st p.good (omega arith))
                (λ _. closed))
            λ _.
              Ends-if _ (ending && is_dict_entry_type to_push) (λ _. closed)
                λ _.
                  Ends-if _ (is_array_type to_push && not (is_null p.tree))
                    (λ _.
                      Ends-if _ (not (top_is array_type st) && not (is_empty p.rest))
                        (λ e. later acc' p.rest st p.good (right_not _ _ e) h)
                        (λ _. Ends-return _ acc' p.rest st p.good (omega arith)))
                    λ _. failed

close-Ends :
    (t : DataType) (acc : List (DataType × Tree)) (s : List ℕ) (st : List ContainerType)
    (good : Bool)
    → Ends (length s) (close t acc s st good)
unfolding close
close-Ends t acc s st good =
    let returned : Ends (length s) (return acc s st good) =
      Ends-return _ acc s st good (omega arith) in
    let failed : Ends (length s) (fail s st) = Ends-fail _ s st (omega arith) in
    Ends-if _ (is_empty st) (λ _. failed)
      λ _.
        Ends-if _ (top_is struct_type st && is_struct_data t) (λ _. returned)
          λ _. Ends-if _ (top_is dict_entry_type st && is_dict_data t) (λ _. returned) (λ _. failed)

when_parsed-Ends :
    (n m : ℕ) (o : Option Parse) (f : Parse → Option Parse)
    → Ends n o
    → n ≤ m
    → ((p : Parse) → length p.rest ≤ n → Ends (length p.rest) (f p))
    → Ends m (when_parsed o f)
when_parsed-Ends n m o f (p, e, h) le g = rw e (Ends-le (omega arith) (g p h))

-- A round on a text that is not empty, over rounds that do with one character less.
round-Ends :
    (n : ℕ) (next : Next)
    → Continues n next
    → (acc : List (DataType × Tree)) (s : List ℕ) (st : List ContainerType) (good : Bool)
    → is_empty s ≡ false
    → length s ≤ suc n
    → Ends (length s) (round (enter (next [])) next acc s st good)
unfolding round
round-Ends n next later acc s st good e h =
    let t : DataType = char_to_dbus_type (peek s) in
    let to_push : ContainerType = char_to_container_type (peek s) in
    let acc' : List (DataType × Tree) = acc ++ ((t, null) ∷ []) in
    let shorter : length (step_over s) < length s = step_over-lt s e in
    Ends-if _ (is_invalid t) (λ _. Ends-fail _ s st (omega arith))
      λ _.
        Ends-if _ (is_ending_container (peek s)) (λ _. close-Ends t acc s st good)
          λ _.
            Ends-if _ (top_is array_type st && is_basic t)
              (λ _. Ends-return _ acc' (step_over s) st good (omega arith))
              λ _.
                Ends-if _ (is_container t && not (is_variant t))
                  (λ _.
                    when_parsed-Ends (length (step_over s)) (length s) _ _
                      (enter-Ends n next later [] (step_over s) (to_push ∷ st) good (omega arith))
                      (omega arith)
                      (λ p k. after_sub-Ends n next later t to_push acc p (omega arith)))
                  λ _. bottom-Ends n next later acc' s st good (omega arith)

loop-Continues : (n : ℕ) → Continues n (loop n)
unfolding loop
loop-Continues zero acc [] st good e h = cc
loop-Continues zero acc (c ∷ s) st good e h = absurd (omega arith)
loop-Continues (suc n) acc s st good e h =
    round-Ends n (loop n) (loop-Continues n) acc s st good e h

-- With a round for each character of the text, the signature parser returns on every text and
-- every stack of containers, and leaves no more characters than it was given.
pub create_signature_tree_total :
    (fuel : ℕ) (s : List ℕ) (st : List ContainerType) (good : Bool)
    → length s ≤ fuel
    → (p : Parse) × (create_signature_tree fuel s st good ≡ some p) × (length p.rest ≤ length s)
unfolding create_signature_tree
create_signature_tree_total fuel s st good h =
    enter-Ends fuel (loop fuel) (loop-Continues fuel) [] s st good h
