-- ===== src/ObjectPath.antt =====
-- The class Path of dbus-cxx/path.cpp: object paths. A path is the list of its characters' codes.
pub mod Elements
pub mod Decomposed
mod Examples
use dbus_cxx.Common.{
  ℕ, ◌-◌, List, [], ◌∷◌, ◌++◌, Bool, true, false, not, ◌&&◌, ◌||◌, length, take, ltb, leb, ◌==◌,
  if◌then◌else◌,
}

-- DBUSCXX_VALID_PATH_CHARACTERS
unfoldable pub is_path_character : ℕ → Bool
is_path_character c =
    if leb b'A' c && leb c b'Z'
    then true
    else if leb b'a' c && leb c b'z'
    then true
    else if leb b'0' c && leb c b'9'
    then true
    else c == b'_' || c == b'/'

-- `find_first_not_of( DBUSCXX_VALID_PATH_CHARACTERS ) == npos`
unfoldable pub all_path_characters : List ℕ → Bool
all_path_characters [] = true
all_path_characters (c ∷ cs) = if is_path_character c then all_path_characters cs else false

abbrev pub starts_with_slash : List ℕ → Bool
starts_with_slash [] = false
starts_with_slash (c ∷ cs) = c == b'/'

-- `find( "//" ) != npos`
unfoldable pub has_double_slash : List ℕ → Bool
has_double_slash [] = false
has_double_slash (c ∷ cs) =
    if (c == b'/') && starts_with_slash cs then true else has_double_slash cs

-- Whether the last character of `c ∷ cs` is a slash.
unfoldable pub ends_with_slash : ℕ → List ℕ → Bool
ends_with_slash c [] = c == b'/'
ends_with_slash c (d ∷ cs) = ends_with_slash d cs

unfoldable pub is_valid : List ℕ → Bool
is_valid [] = false
is_valid (c ∷ cs) =
    if not (c == b'/')
    then false
    else if not (all_path_characters (c ∷ cs))
    then false
    else if has_double_slash (c ∷ cs)
    then false
    else if ltb 1 (length (c ∷ cs)) && ends_with_slash c cs
    then false
    else true

-- The loop over the characters behind the first: `current` is the element so far.
unfoldable pub segments : List ℕ → List ℕ → List (List ℕ)
segments current [] = current ∷ []
segments current (c ∷ cs) =
    if c == b'/' then current ∷ segments [] cs else segments (current ++ (c ∷ [])) cs

unfoldable pub decomposed : List ℕ → List (List ℕ)
decomposed [] = []
decomposed (c ∷ cs) =
    if not (is_valid (c ∷ cs)) then [] else if length (c ∷ cs) == 1 then [] ∷ [] else segments [] cs

-- The path that is left, and the result of the call.
unfoldable pub append_element : List ℕ → List ℕ → List ℕ × Bool
append_element [] path = (path, false)
append_element (c ∷ cs) path =
    if not (all_path_characters (c ∷ cs))
    then (path, false)
    else if has_double_slash (c ∷ cs)
    then (path, false)
    else if (length (c ∷ cs) == 1) && (c == b'/')
    then (path, false)
    else (let front = if c == b'/' then path else path ++ (b'/' ∷ []) in
        if ends_with_slash c cs
        then (front ++ take (length (c ∷ cs) - 1) (c ∷ cs), true)
        else (front ++ (c ∷ cs), true))
