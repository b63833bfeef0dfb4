-- ===== src/Validator.antt =====
-- The class Validator of dbus-cxx/validator.cpp. A name is the list of its characters' codes.
pub mod Names
mod Examples
use dbus_cxx.Common.{
  ℕ, suc, ◌+◌, List, [], ◌∷◌, Bool, true, false, not, ◌&&◌, ◌||◌, length, ltb, leb, ◌==◌,
  if◌then◌else◌,
}

unfoldable pub is_allowable_character : ℕ → Bool
is_allowable_character c =
    if leb b'A' c && leb c b'Z'
    then true
    else if leb b'a' c && leb c b'z'
    then true
    else if leb b'0' c && leb c b'9'
    then true
    else c == b'_'

-- `std::isdigit` in the C locale.
abbrev pub is_digit : ℕ → Bool
is_digit c = leb b'0' c && leb c b'9'

-- The loop of `validate_bus_name`: its result is that of the function. In an interface name
-- `unique` is false.
unfoldable pub count_elements : Bool → ℕ → ℕ → List ℕ → Bool
count_elements unique previous elements [] = leb 2 elements
count_elements unique previous elements (c ∷ cs) =
    let rest =
      count_elements unique c
        (if previous == b'.' && is_allowable_character c then elements + 1 else elements) cs in
    if not (c == b'.') && not (is_allowable_character c)
    then false
    else if previous == b'.' && is_allowable_character c && not unique && is_digit c
    then false
    else rest

unfoldable pub validate_bus_name : List ℕ → Bool
validate_bus_name [] = false
validate_bus_name (c ∷ cs) =
    if ltb 255 (length (c ∷ cs))
    then false
    else if c == b'.'
    then false
    else if c == b':'
    then count_elements true 0 1 cs
    else count_elements false 0 1 (c ∷ cs)

unfoldable pub validate_interface_name : List ℕ → Bool
validate_interface_name [] = false
validate_interface_name (c ∷ cs) =
    if ltb 255 (length (c ∷ cs))
    then false
    else if c == b'.'
    then false
    else count_elements false 0 1 (c ∷ cs)

unfoldable pub all_allowable : List ℕ → Bool
all_allowable [] = true
all_allowable (c ∷ cs) = if is_allowable_character c then all_allowable cs else false

unfoldable pub validate_member_name : List ℕ → Bool
validate_member_name [] = false
validate_member_name (c ∷ cs) =
    if ltb 255 (length (c ∷ cs))
    then false
    else if ltb c b'0' || ltb b'9' c
    then false
    else all_allowable (c ∷ cs)

unfoldable pub validate_error_name : List ℕ → Bool
validate_error_name = validate_interface_name
