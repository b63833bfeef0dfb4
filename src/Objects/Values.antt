-- ===== src/Objects/Values.antt =====
-- What a property that is set gives when it is got (dbus-cxx/interface.cpp and property.cpp).
use dbus_cxx.Common.{
  ℕ, ◌≡◌, refl, sym, ap, ◌∙◌, List, [], ◌∷◌, Option, some, none, Bool, Bool-cases, inl, inr, true,
  false, ◌&&◌, if◌then◌else◌, same_text, arith,
}
use dbus_cxx.Signature.{is_invalid}
use dbus_cxx.Wire.Variant.{Variant}
use dbus_cxx.Objects.{PropertyAccess, read_write, Property}
use dbus_cxx.Objects.Ordered.{same_text-eq}
use dbus_cxx.Objects.Properties.{
  Found, written, is_set, is_readable, is_writable, set_value, value_of,
}

-- A property with the name that has been set.
abbrev is_named : List ℕ → Property → Bool
is_named name p = is_set p && same_text p.name name

-- The access of the first of them.
abbrev pub access_of : List ℕ → List Property → Option PropertyAccess
access_of name [] = none
access_of name (p ∷ ps) = if is_named name p then some p.access else access_of name ps

-- What Set of a name does to what Get of each name gives.
abbrev pub IsAssigned : List ℕ → Variant → List Property → List Property → Type 0
IsAssigned name v ps qs =
    (set_value name v ps ≡ written qs)
    × (value_of name qs ≡ some v)
    × ((other : List ℕ) → same_text name other ≡ false → value_of other qs ≡ value_of other ps)

-- A property of another name, or one that has not been set, is passed over.
passed-set :
    (name : List ℕ) (v : Variant) (p : Property) (ps qs : List Property)
    → is_named name p ≡ false
    → set_value name v ps ≡ written qs
    → set_value name v (p ∷ ps) ≡ written (p ∷ qs)
unfolding set_value
passed-set name v p ps qs e h = rw (e, h) refl

passed-value :
    (name : List ℕ) (p : Property) (ps : List Property)
    → is_named name p ≡ false
    → value_of name (p ∷ ps) ≡ value_of name ps
unfolding value_of
passed-value name p ps e = rw e refl

named-set :
    (name : List ℕ) (v : Variant) (p : Property) (ps : List Property)
    → is_named name p ≡ true
    → p.access ≡ read_write
    → set_value name v (p ∷ ps) ≡ written (record p { value = v } ∷ ps)
unfolding set_value
named-set name v p ps e a = rw e (
    ap
      (λ (x : PropertyAccess).
        if is_writable x then written (record p { value = v } ∷ ps) else Found.is_read_only)
      a)

and_split : (a b : Bool) → (a && b) ≡ true → (a ≡ true) × (b ≡ true)
and_split true true e = (refl, refl)
and_split true false e = absurd (ground arith)
and_split false b e = absurd (ground arith)

named-value :
    (name : List ℕ) (p : Property) (ps : List Property)
    → is_named name p ≡ true
    → p.access ≡ read_write
    → value_of name (p ∷ ps) ≡ some p.value
unfolding value_of
named-value name p ps e a =
    ap (λ (x : Bool). if x && is_readable p.access then some p.value else value_of name ps) e
    ∙ ap (λ (x : PropertyAccess). if is_readable x then some p.value else value_of name ps) a

-- The value of a property does not matter where another name is looked for.
other-value :
    (name other : List ℕ) (p : Property) (ps : List Property)
    → is_named name p ≡ true
    → same_text name other ≡ false
    → is_named other p ≡ false
other-value name other p ps e differ =
    let both = and_split (is_set p) (same_text p.name name) e in
    let same : same_text p.name other ≡ false = rw (same_text-eq p.name name both.1) differ in
    rw same (ground arith)

tail-value :
    (other : List ℕ) (p : Property) (ps qs : List Property)
    → value_of other qs ≡ value_of other ps
    → value_of other (p ∷ qs) ≡ value_of other (p ∷ ps)
unfolding value_of
tail-value other p ps qs e =
    ap
      (λ (x : Option Variant). if is_named other p && is_readable p.access then some p.value else x)
      e

-- Where the first property of a name that has been set can be read and written, Set of that
-- name with a value that is not invalid succeeds; Get of the name gives the value from then on,
-- and Get of every other name what it gave before.
pub value_of-set_value :
    (name : List ℕ) (v : Variant) (ps : List Property)
    → access_of name ps ≡ some read_write
    → is_invalid v.current_type ≡ false
    → (qs : List Property) × IsAssigned name v ps qs
value_of-set_value name v [] h ok = absurd (cc h)
value_of-set_value name v (p ∷ ps) h ok = elim (Bool-cases (is_named name p)) [
  | inl e ↦
      let a : p.access ≡ read_write =
        ap (λ (o : Option PropertyAccess). elim o [ none ↦ p.access | some x ↦ x ]) (rw e at h) in
      let both = and_split (is_set p) (same_text p.name name) e in
      let now : is_named name (record p { value = v }) ≡ true = rw (ok, both.1) refl in
      (
        record p { value = v } ∷ ps,
        (
          named-set name v p ps e a,
          named-value name (record p { value = v }) ps now a,
          λ other differ.
              passed-value other (record p { value = v }) ps
                (other-value name other (record p { value = v }) ps now differ)
              ∙ sym (passed-value other p ps (other-value name other p ps e differ)),
        ),
      )
  | inr e ↦
      let rest = value_of-set_value name v ps (rw e at h) ok in
      (
        p ∷ rest.0,
        (
          passed-set name v p ps rest.0 e rest.1.0,
          passed-value name p rest.0 e ∙ rest.1.1,
          λ other differ. tail-value other p ps rest.0 (rest.1.2 other differ),
        ),
      )
]
