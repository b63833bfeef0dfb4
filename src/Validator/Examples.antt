-- ===== src/Validator/Examples.antt =====
-- The theorem on names at `1a`.
use dbus_cxx.Common.{ℕ, ◌≤◌, ◌≡◌, ◌↔◌, true, List, [], ◌∷◌, All, length}
use dbus_cxx.Validator.{validate_member_name}
use dbus_cxx.Validator.Names.{BeginsWithDigit, IsNameCharacter, validate_member_name_iff}

abbrev name : List ℕ
name = b'1' ∷ b'a' ∷ []

validate_member_name_iff_example :
    (validate_member_name name ≡ true)
    ↔ ((length name ≤ 255) × BeginsWithDigit name × All IsNameCharacter name)
validate_member_name_iff_example = validate_member_name_iff name
