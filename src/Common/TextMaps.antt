-- ===== src/Common/TextMaps.antt =====
-- Texts, and maps from texts, whose keys are in order as in `std::map`.
use Prim.Native.Nat.{ℕ}
use mathlib.Core.Bool.{Bool, true, false, ◌&&◌}
use mathlib.Core.List.{List, [], ◌∷◌}
use mathlib.Core.Option.{Option, none, some}
use dbus_cxx.Common.Tests.{ltb, ◌==◌, if◌then◌else◌}

abbrev pub same_text : List ℕ → List ℕ → Bool
same_text [] [] = true
same_text (c ∷ cs) (d ∷ ds) = (c == d) && same_text cs ds
same_text _ _ = false

abbrev pub text_less : List ℕ → List ℕ → Bool
text_less _ [] = false
text_less [] (d ∷ ds) = true
text_less (c ∷ cs) (d ∷ ds) =
    let rest = text_less cs ds in if ltb c d then true else if c == d then rest else false

module _ {ℓ} {A : Type ℓ} where
  abbrev pub find_text : List ℕ → List (List ℕ × A) → Option A
  find_text key [] = none
  find_text key ((k, a) ∷ rest) =
      let found = find_text key rest in if same_text k key then some a else found

  -- `insert`, which keeps an entry that is there.
  abbrev pub insert_text : List ℕ → A → List (List ℕ × A) → List (List ℕ × A)
  insert_text key a [] = (key, a) ∷ []
  insert_text key a ((k, b) ∷ rest) =
      let inserted = insert_text key a rest in
      if same_text k key
      then (k, b) ∷ rest
      else if text_less key k
      then (key, a) ∷ (k, b) ∷ rest
      else (k, b) ∷ inserted

  -- `[ key ] = a`
  abbrev pub assign_text : List ℕ → A → List (List ℕ × A) → List (List ℕ × A)
  assign_text key a [] = (key, a) ∷ []
  assign_text key a ((k, b) ∷ rest) =
      let assigned = assign_text key a rest in
      if same_text k key
      then (k, a) ∷ rest
      else if text_less key k
      then (key, a) ∷ (k, b) ∷ rest
      else (k, b) ∷ assigned

  abbrev pub erase_text : List ℕ → List (List ℕ × A) → List (List ℕ × A)
  erase_text key [] = []
  erase_text key ((k, a) ∷ rest) =
      let erased = erase_text key rest in if same_text k key then rest else (k, a) ∷ erased
