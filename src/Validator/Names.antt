-- ===== src/Validator/Names.antt =====
-- The names that dbus-cxx/validator.cpp accepts.
use dbus_cxx.Common.{
  ℕ, ◌≤◌, ◌≡◌, ◌↔◌, ◌⊎◌, inl, inr, refl, List, [], ◌∷◌, true, false, ◌||◌, ltb, Bool, Bool-cases,
  if◌then◌else◌, All, length, arith,
}
use dbus_cxx.Validator.{
  is_allowable_character, count_elements, validate_bus_name, validate_interface_name, all_allowable,
  validate_member_name,
}

-- The characters of a name, and those that a member name begins with.
abbrev pub IsNameCharacter : ℕ → Type 0
IsNameCharacter c =
    ((b'A' ≤ c) × (c ≤ b'Z'))
    ⊎ (((b'a' ≤ c) × (c ≤ b'z')) ⊎ (((b'0' ≤ c) × (c ≤ b'9')) ⊎ (c ≡ b'_')))

abbrev pub BeginsWithDigit : List ℕ → Type 0
BeginsWithDigit [] = ⊥
BeginsWithDigit (c ∷ cs) = (b'0' ≤ c) × (c ≤ b'9')

is_allowable_character_iff : (c : ℕ) → (is_allowable_character c ≡ true) ↔ IsNameCharacter c
unfolding is_allowable_character
is_allowable_character_iff c = ground arith

all_allowable_iff : (cs : List ℕ) → (all_allowable cs ≡ true) ↔ All IsNameCharacter cs
unfolding all_allowable
all_allowable_iff [] = (λ _. tt, λ _. refl)
all_allowable_iff (c ∷ cs) =
    let rest : (all_allowable cs ≡ true) ↔ All IsNameCharacter cs = all_allowable_iff cs in
    let first : (is_allowable_character c ≡ true) ↔ IsNameCharacter c =
      is_allowable_character_iff c in
    elim (Bool-cases (is_allowable_character c)) [
      | inl h ↦ rw h (λ e. (first.0 h, rest.0 e), λ e. rest.1 e.1)
      | inr h ↦ rw h (λ e. cc e, λ e. cc (h, first.1 e.0))
    ]

-- Bounds on the length and the first character, and what holds of all characters.
guarded_iff :
    {P : Type 0} (n c : ℕ) (x : Bool)
    → (x ≡ true) ↔ P
    → ((if ltb 255 n then false else if ltb c b'0' || ltb b'9' c then false else x) ≡ true)
      ↔ ((n ≤ 255) × ((b'0' ≤ c) × (c ≤ b'9')) × P)
guarded_iff n c x h = ground arith

-- A member name is accepted exactly where it has at most 255 characters, begins with a digit,
-- and each of its characters is an ASCII letter, a digit or an underscore.
pub validate_member_name_iff :
    (s : List ℕ)
    → (validate_member_name s ≡ true)
      ↔ ((length s ≤ 255) × BeginsWithDigit s × All IsNameCharacter s)
unfolding validate_member_name
validate_member_name_iff [] = (λ e. cc e, λ e. absurd e.1)
validate_member_name_iff (c ∷ cs) =
    guarded_iff (length (c ∷ cs)) c (all_allowable (c ∷ cs)) (all_allowable_iff (c ∷ cs))

-- A name that is accepted as an interface name is accepted as a bus name.
validate_bus_name-interface :
    (s : List ℕ) → validate_interface_name s ≡ true → validate_bus_name s ≡ true
unfolding validate_interface_name validate_bus_name count_elements is_allowable_character
validate_bus_name-interface [] h = h
validate_bus_name-interface (c ∷ cs) h = ground arith
