-- ===== src/ObjectPath/Elements.antt =====
-- Object paths that are put together from elements (dbus-cxx/path.cpp).
use dbus_cxx.Common.{
  ℕ, ◌<◌, ◌≡◌, refl, sym, ap, ◌∙◌, List, [], ◌∷◌, ◌++◌, append_assoc, append-nil, true, false, All,
  ◌==◌, arith,
}
use dbus_cxx.ObjectPath.{
  is_path_character, all_path_characters, has_double_slash, ends_with_slash, is_valid, segments,
  decomposed, append_element,
}

-- A character of an element: one of the path characters but the slash.
abbrev pub IsElementChar : ℕ → Type 0
IsElementChar c = (is_path_character c ≡ true) × ((c == b'/') ≡ false)

-- An element: at least one character, and none is a slash.
abbrev pub IsElement : List ℕ → Type 0
IsElement [] = 0 < 0
IsElement (c ∷ cs) = IsElementChar c × All IsElementChar cs

-- The path with the given elements.
abbrev pub path_text : List (List ℕ) → List ℕ
path_text [] = []
path_text (e ∷ es) = b'/' ∷ (e ++ path_text es)

slash : is_path_character b'/' ≡ true
unfolding is_path_character
slash = refl

all_path_characters-append :
    (e rest : List ℕ)
    → All IsElementChar e
    → all_path_characters (e ++ rest) ≡ all_path_characters rest
unfolding all_path_characters
all_path_characters-append [] rest h = refl
all_path_characters-append (c ∷ e) rest ((good, _), hs) =
    rw good (all_path_characters-append e rest hs)

has_double_slash-append :
    (e rest : List ℕ) → All IsElementChar e → has_double_slash (e ++ rest) ≡ has_double_slash rest
unfolding has_double_slash
has_double_slash-append [] rest h = refl
has_double_slash-append (c ∷ e) rest ((_, other), hs) = rw other (has_double_slash-append e rest hs)

segments-append :
    (current e rest : List ℕ)
    → All IsElementChar e
    → segments current (e ++ rest) ≡ segments (current ++ e) rest
unfolding segments
segments-append current [] rest h = rw append-nil
segments-append current (c ∷ e) rest ((_, other), hs) =
    rw (other, segments-append (current ++ (c ∷ [])) e rest hs, append_assoc current (c ∷ []) e)

characters_of : (e : List ℕ) → IsElement e → All IsElementChar e
characters_of [] h = tt
characters_of (c ∷ e) h = h

all_path_characters-path_text :
    (es : List (List ℕ)) → All IsElement es → all_path_characters (path_text es) ≡ true
unfolding all_path_characters
all_path_characters-path_text [] h = refl
all_path_characters-path_text (e ∷ es) (h, hs) =
    rw (slash, all_path_characters-append e (path_text es) (characters_of e h))
      (all_path_characters-path_text es hs)

path_text-double : (es : List (List ℕ)) → All IsElement es → has_double_slash (path_text es) ≡ false
unfolding has_double_slash
path_text-double [] h = refl
path_text-double ([] ∷ es) (h, hs) = absurd (omega arith)
path_text-double ((c ∷ e) ∷ es) (h, hs) =
    rw (h.0.1, has_double_slash-append e (path_text es) h.1) (path_text-double es hs)

path_text-segments :
    (current : List ℕ) (es : List (List ℕ))
    → All IsElement es
    → segments current (path_text es) ≡ current ∷ es
unfolding segments
path_text-segments current [] h = refl
path_text-segments current (e ∷ es) (h, hs) =
    ap (λ (l : List (List ℕ)). current ∷ l)
      (segments-append [] e (path_text es) (characters_of e h) ∙ path_text-segments e es hs)

-- The last character of a path with elements is that of an element.
path_text-end :
    (c : ℕ) (e : List ℕ) (es : List (List ℕ))
    → (c == b'/') ≡ false
    → All IsElementChar e
    → All IsElement es
    → ends_with_slash c (e ++ path_text es) ≡ false
unfolding ends_with_slash
path_text-end c [] [] h hs he = h
path_text-end c [] ([] ∷ es) h hs (bad, he) = absurd (omega arith)
path_text-end c [] ((d ∷ e) ∷ es) h hs (good, he) = path_text-end d e es good.0.1 good.1 he
path_text-end c (d ∷ e) es h (good, hs) he = path_text-end d e es good.1 hs he

-- A path that is put together from one or more elements is valid and is decomposed into those
-- elements.
pub decomposed-path_text :
    (e : List ℕ) (es : List (List ℕ))
    → All IsElement (e ∷ es)
    → (is_valid (path_text (e ∷ es)) ≡ true) × (decomposed (path_text (e ∷ es)) ≡ e ∷ es)
unfolding is_valid decomposed all_path_characters has_double_slash ends_with_slash segments
decomposed-path_text [] es (h, hs) = absurd (omega arith)
decomposed-path_text (c ∷ e) es h =
    let all : all_path_characters (path_text ((c ∷ e) ∷ es)) ≡ true =
      all_path_characters-path_text ((c ∷ e) ∷ es) h in
    let single : has_double_slash (path_text ((c ∷ e) ∷ es)) ≡ false =
      path_text-double ((c ∷ e) ∷ es) h in
    let last : ends_with_slash c (e ++ path_text es) ≡ false =
      path_text-end c e es h.0.0.1 h.0.1 h.1 in
    let split : segments [] (c ∷ (e ++ path_text es)) ≡ (c ∷ e) ∷ es =
      segments-append [] (c ∷ e) (path_text es) h.0 ∙ path_text-segments (c ∷ e) es h.1 in
    (ground arith, ground arith)

path_text-append :
    (es : List (List ℕ)) (e : List ℕ) → path_text (es ++ (e ∷ [])) ≡ path_text es ++ (b'/' ∷ e)
path_text-append [] e = rw append-nil
path_text-append (d ∷ es) e = rw (path_text-append es e, append_assoc d (path_text es) (b'/' ∷ e))

empty : all_path_characters [] ≡ true
unfolding all_path_characters
empty = refl

none_double : has_double_slash [] ≡ false
unfolding has_double_slash
none_double = refl

-- What append_element puts behind a path for an element.
appended : (e path : List ℕ) → IsElement e → append_element e path ≡ (path ++ (b'/' ∷ e), true)
unfolding append_element
appended [] path h = absurd (omega arith)
appended (c ∷ e) path h =
    let all : all_path_characters (c ∷ e) ≡ true =
      ap all_path_characters (sym (append-nil (c ∷ e)))
      ∙ all_path_characters-append (c ∷ e) [] h
      ∙ empty in
    let single : has_double_slash (c ∷ e) ≡ false =
      ap has_double_slash (sym (append-nil (c ∷ e)))
      ∙ has_double_slash-append (c ∷ e) [] h
      ∙ none_double in
    let last : ends_with_slash c e ≡ false =
      ap (ends_with_slash c) (sym (append-nil e)) ∙ path_text-end c e [] h.0.1 h.1 tt in
    let joined : path ++ (b'/' ∷ []) ++ (c ∷ e) ≡ path ++ (b'/' ∷ c ∷ e) =
      append_assoc path (b'/' ∷ []) (c ∷ e) in
    ground arith

All-append :
    (es : List (List ℕ)) (e : List ℕ)
    → All IsElement es
    → IsElement e
    → All IsElement (es ++ (e ∷ []))
All-append [] e hs h = (h, tt)
All-append (d ∷ es) e hs h = (hs.0, All-append es e hs.1 h)

-- append_element of an element to the path of one or more elements reports success and leaves
-- the path of those elements and the new one, which is decomposed into them.
pub append_element-path_text :
    (d : List ℕ) (es : List (List ℕ)) (e : List ℕ)
    → All IsElement (d ∷ es)
    → IsElement e
    → (append_element e (path_text (d ∷ es)) ≡ (path_text ((d ∷ es) ++ (e ∷ [])), true))
      × (decomposed (append_element e (path_text (d ∷ es))).0 ≡ (d ∷ es) ++ (e ∷ []))
append_element-path_text d es e hs h =
    let path : append_element e (path_text (d ∷ es)) ≡ (path_text ((d ∷ es) ++ (e ∷ [])), true) =
      rw (path_text-append (d ∷ es) e) (appended e (path_text (d ∷ es)) h) in
    (path, rw path ((decomposed-path_text d (es ++ (e ∷ [])) (hs.0, All-append es e hs.1 h)).1))

-- append_element of an element to the root path, which is valid, reports success and leaves a
-- path that is not valid.
pub append_element-root :
    (e : List ℕ)
    → IsElement e
    → (is_valid (b'/' ∷ []) ≡ true)
      × ((append_element e (b'/' ∷ [])).1 ≡ true)
      × (is_valid (append_element e (b'/' ∷ [])).0 ≡ false)
unfolding is_valid all_path_characters has_double_slash ends_with_slash is_path_character
append_element-root e h = rw (appended e (b'/' ∷ []) h) (ground arith)
