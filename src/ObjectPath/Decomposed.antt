-- ===== src/ObjectPath/Decomposed.antt =====
-- Path::decomposed over any valid path (dbus-cxx/path.cpp).
use dbus_cxx.Common.{
  ℕ, ◌≡◌, refl, sym, ap, ◌∙◌, List, [], ◌∷◌, ◌++◌, append_assoc, Bool, true, false, All, ◌==◌,
  arith, Bool-cases, ==_iff, inl, inr,
}
use dbus_cxx.ObjectPath.{
  all_path_characters, has_double_slash, ends_with_slash, is_valid, segments, decomposed,
}
use dbus_cxx.ObjectPath.Elements.{IsElementChar, IsElement, path_text}

segments_text : (current cs : List ℕ) → path_text (segments current cs) ≡ b'/' ∷ (current ++ cs)
unfolding segments
segments_text current [] = refl
segments_text current (c ∷ cs) =
    let one : path_text (segments [] cs) ≡ b'/' ∷ cs = segments_text [] cs in
    let two : path_text (segments (current ++ (c ∷ [])) cs) ≡ b'/' ∷ (current ++ (c ∷ []) ++ cs) =
      segments_text (current ++ (c ∷ [])) cs in
    let three : current ++ (c ∷ []) ++ cs ≡ current ++ (c ∷ cs) =
      append_assoc current (c ∷ []) cs in
    ground arith

abbrev is_empty : List ℕ → Bool
is_empty [] = true
is_empty (c ∷ cs) = false

All-snoc :
    (current : List ℕ) (c : ℕ)
    → All IsElementChar current
    → IsElementChar c
    → All IsElementChar (current ++ (c ∷ []))
All-snoc [] c hs h = (h, tt)
All-snoc (d ∷ current) c hs h = (hs.0, All-snoc current c hs.1 h)

snoc_empty : (current : List ℕ) (c : ℕ) → is_empty (current ++ (c ∷ [])) ≡ false
snoc_empty [] c = refl
snoc_empty (d ∷ current) c = refl

IsElement-current :
    (current : List ℕ) → All IsElementChar current → is_empty current ≡ false → IsElement current
IsElement-current [] hs h = absurd (cc h)
IsElement-current (c ∷ current) hs h = hs

-- The elements that the loop cuts from `cs`, where `previous` is the character before it.
segments-All :
    (previous : ℕ) (current cs : List ℕ)
    → All IsElementChar current
    → (previous == b'/') ≡ is_empty current
    → all_path_characters cs ≡ true
    → has_double_slash (previous ∷ cs) ≡ false
    → ends_with_slash previous cs ≡ false
    → All IsElement (segments current cs)
unfolding segments all_path_characters has_double_slash ends_with_slash
segments-All previous current [] good at_start all single last =
    (IsElement-current current good (sym at_start ∙ last), tt)
segments-All previous current (c ∷ cs) good at_start all single last =
    elim (Bool-cases (c == b'/')) [
      | inl e ↦ rw e (
        IsElement-current current good (ground arith),
        segments-All c [] cs tt e (ground arith) (ground arith) last,
      )
      | inr e ↦ rw e (
          segments-All c (current ++ (c ∷ [])) cs (All-snoc current c good (ground arith, e))
            (e ∙ sym (snoc_empty current c)) (ground arith) (ground arith) last)
    ]

-- What validity comes to for a path of more than one character.
valid_parts :
    (c d : ℕ) (cs : List ℕ)
    → is_valid (c ∷ d ∷ cs) ≡ true
    → ((c == b'/') ≡ true)
      × (all_path_characters (c ∷ d ∷ cs) ≡ true)
      × (has_double_slash (c ∷ d ∷ cs) ≡ false)
      × (ends_with_slash c (d ∷ cs) ≡ false)
unfolding is_valid
valid_parts c d cs valid = ground arith

all_tail :
    (c : ℕ) (cs : List ℕ) → all_path_characters (c ∷ cs) ≡ true → all_path_characters cs ≡ true
unfolding all_path_characters
all_tail c cs h = ground arith

decomposed_valid :
    (c d : ℕ) (cs : List ℕ)
    → is_valid (c ∷ d ∷ cs) ≡ true
    → decomposed (c ∷ d ∷ cs) ≡ segments [] (d ∷ cs)
unfolding decomposed
decomposed_valid c d cs valid = rw valid (ground arith)

-- A valid object path of more than one character is the text of the elements that decomposed
-- gives, and each of these has a character at least, all of them path characters and none a
-- slash.
pub path_text-decomposed :
    (c d : ℕ) (cs : List ℕ)
    → is_valid (c ∷ d ∷ cs) ≡ true
    → (path_text (decomposed (c ∷ d ∷ cs)) ≡ c ∷ d ∷ cs) × All IsElement (decomposed (c ∷ d ∷ cs))
path_text-decomposed c d cs valid =
    let parts = valid_parts c d cs valid in
    let first : c ≡ b'/' = (==_iff c b'/').0 parts.0 in
    let text : path_text (segments [] (d ∷ cs)) ≡ b'/' ∷ d ∷ cs = segments_text [] (d ∷ cs) in
    rw (decomposed_valid c d cs valid) (
      text ∙ ap (λ (b : ℕ). b ∷ d ∷ cs) (sym first),
      segments-All c [] (d ∷ cs) tt parts.0 (all_tail c (d ∷ cs) parts.1) parts.2 parts.3,
    )
