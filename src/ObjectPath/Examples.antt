-- ===== src/ObjectPath/Examples.antt =====
-- The theorems on object paths at `/a/b`.
use dbus_cxx.Common.{◌≡◌, refl, true, false, [], ◌∷◌, All}
use dbus_cxx.ObjectPath.{
  is_path_character, all_path_characters, has_double_slash, ends_with_slash, is_valid, decomposed,
  append_element,
}
use dbus_cxx.ObjectPath.Elements.{
  IsElement, path_text, decomposed-path_text, append_element-path_text, append_element-root,
}
use dbus_cxx.ObjectPath.Decomposed.{path_text-decomposed}

decomposed-path_text_example :
    (is_valid (b'/' ∷ b'a' ∷ b'/' ∷ b'b' ∷ []) ≡ true)
    × (decomposed (b'/' ∷ b'a' ∷ b'/' ∷ b'b' ∷ []) ≡ (b'a' ∷ []) ∷ (b'b' ∷ []) ∷ [])
unfolding is_path_character
decomposed-path_text_example =
    decomposed-path_text (b'a' ∷ []) ((b'b' ∷ []) ∷ [])
      (((refl, refl), tt), (((refl, refl), tt), tt))

append_element-path_text_example :
    (append_element (b'c' ∷ []) (b'/' ∷ b'a' ∷ []) ≡ (b'/' ∷ b'a' ∷ b'/' ∷ b'c' ∷ [], true))
    × (decomposed (append_element (b'c' ∷ []) (b'/' ∷ b'a' ∷ [])).0
        ≡ (b'a' ∷ []) ∷ (b'c' ∷ []) ∷ [])
unfolding is_path_character
append_element-path_text_example =
    append_element-path_text (b'a' ∷ []) [] (b'c' ∷ []) (((refl, refl), tt), tt) ((refl, refl), tt)

append_element-root_example :
    (is_valid (b'/' ∷ []) ≡ true)
    × ((append_element (b'c' ∷ []) (b'/' ∷ [])).1 ≡ true)
    × (is_valid (append_element (b'c' ∷ []) (b'/' ∷ [])).0 ≡ false)
unfolding is_path_character
append_element-root_example = append_element-root (b'c' ∷ []) ((refl, refl), tt)

path_text-decomposed_example :
    (path_text (decomposed (b'/' ∷ b'a' ∷ b'/' ∷ b'b' ∷ [])) ≡ b'/' ∷ b'a' ∷ b'/' ∷ b'b' ∷ [])
    × All IsElement (decomposed (b'/' ∷ b'a' ∷ b'/' ∷ b'b' ∷ []))
unfolding is_path_character all_path_characters has_double_slash ends_with_slash is_valid
path_text-decomposed_example = path_text-decomposed b'/' b'a' (b'/' ∷ b'b' ∷ []) refl
