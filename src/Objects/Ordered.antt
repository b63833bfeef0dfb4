-- ===== src/Objects/Ordered.antt =====
-- Maps from texts with their keys in order.
use dbus_cxx.Common.{
  ℕ, ◌≡◌, refl, sym, List, [], ◌∷◌, some, none, Bool, Bool-cases, inl, inr, true, false,
  if◌then◌else◌, same_text, text_less, find_text, assign_text, erase_text, All, arith,
}

pub same_text-eq : (s t : List ℕ) → same_text s t ≡ true → s ≡ t
same_text-eq [] [] e = refl
same_text-eq [] (d ∷ t) e = absurd (ground arith)
same_text-eq (c ∷ s) [] e = absurd (ground arith)
same_text-eq (c ∷ s) (d ∷ t) e =
    let both : (c ≡ d) × (same_text s t ≡ true) = ground arith in
    rw (both.0, same_text-eq s t both.1) refl

pub same_text_refl : (s : List ℕ) → same_text s s ≡ true
same_text_refl [] = refl
same_text_refl (c ∷ s) = ground (arith, same_text_refl s)

text_less_trans :
    (a b c : List ℕ) → text_less a b ≡ true → text_less b c ≡ true → text_less a c ≡ true
text_less_trans a b [] h k = absurd (ground arith)
text_less_trans a [] (z ∷ c) h k = absurd (ground arith)
text_less_trans [] (y ∷ b) (z ∷ c) h k = refl
text_less_trans (x ∷ a) (y ∷ b) (z ∷ c) h k = ground (arith, text_less_trans a b c)

text_less_irrefl : (a : List ℕ) → text_less a a ≡ false
text_less_irrefl [] = refl
text_less_irrefl (x ∷ a) = ground (arith, text_less_irrefl a)

text_less_total :
    (a b : List ℕ) → same_text a b ≡ false → text_less b a ≡ false → text_less a b ≡ true
text_less_total [] [] h k = absurd (ground arith)
text_less_total [] (y ∷ b) h k = refl
text_less_total (x ∷ a) [] h k = absurd (ground arith)
text_less_total (x ∷ a) (y ∷ b) h k = ground (arith, text_less_total a b)

text_less-same : (a b : List ℕ) → text_less a b ≡ true → same_text a b ≡ false
text_less-same a b h = elim (Bool-cases (same_text a b)) [
  | inl e ↦ absurd (
      let f : text_less b b ≡ true = rw (same_text-eq a b e) at h in
      let g = text_less_irrefl b in ground arith)
  | inr e ↦ e
]

module _ {ℓ} {X : Type ℓ} where
  if_twice : (b : Bool) (x y z : X) → (if b then x else y) ≡ (if b then x else if b then z else y)
  if_twice true x y z = refl
  if_twice false x y z = refl

  if_same : (b : Bool) (x : X) → x ≡ (if b then x else x)
  if_same true x = refl
  if_same false x = refl

  -- Of two different keys at most one is the key that is looked for.
  if_swap :
      (j k other : List ℕ) (x y z : X)
      → same_text j k ≡ false
      → (if same_text j other then x else if same_text k other then y else z)
        ≡ (if same_text k other then y else if same_text j other then x else z)
  if_swap j k other x y z differ = elim (Bool-cases (same_text j other)) [
    | inr e ↦ rw e refl
    | inl e ↦ elim (Bool-cases (same_text k other)) [
      | inr f ↦ rw (e, f) refl
      | inl f ↦ absurd (
          let g : same_text other other ≡ false =
            rw (same_text-eq j other e, same_text-eq k other f) at differ in
          let r = same_text_refl other in ground arith)
    ]
  ]

module _ {ℓ} {A : Type ℓ} where
  abbrev pub AreAbove : List ℕ → List (List ℕ × A) → Type 0
  AreAbove k m = All (λ (e : List ℕ × A). text_less k e.0 ≡ true) m

  abbrev pub IsSorted : List (List ℕ × A) → Type 0
  IsSorted [] = Unit
  IsSorted ((k, a) ∷ m) = AreAbove k m × IsSorted m

  AreAbove-trans :
      (j k : List ℕ) (m : List (List ℕ × A)) → text_less j k ≡ true → AreAbove k m → AreAbove j m
  AreAbove-trans j k [] h above = tt
  AreAbove-trans j k ((l, a) ∷ m) h (first, above) =
      (text_less_trans j k l h first, AreAbove-trans j k m h above)

  pub find_text-AreAbove :
      (k : List ℕ) (m : List (List ℕ × A)) → AreAbove k m → find_text k m ≡ none
  find_text-AreAbove k [] above = refl
  find_text-AreAbove k ((l, a) ∷ m) (first, above) = elim (Bool-cases (same_text l k)) [
    | inl e ↦ absurd (
        let f : text_less l l ≡ true = rw (sym (same_text-eq l k e)) at first in
        let g = text_less_irrefl l in ground arith)
    | inr e ↦ rw e (find_text-AreAbove k m above)
  ]

  -- `[ key ] = a`
  pub find_text-assign_text :
      (key other : List ℕ) (a : A) (m : List (List ℕ × A))
      → find_text other (assign_text key a m)
        ≡ (if same_text key other then some a else find_text other m)
  find_text-assign_text key other a [] = refl
  find_text-assign_text key other a ((k, b) ∷ m) = elim (Bool-cases (same_text k key)) [
    | inl e ↦
        rw (e, same_text-eq k key e)
          (if_twice (same_text key other) (some a) (find_text other m) (some b))
    | inr e ↦ elim (Bool-cases (text_less key k)) [
      | inl f ↦ rw (e, f) refl
      | inr f ↦
          rw (e, f, find_text-assign_text key other a m)
            (if_swap k key other (some b) (some a) (find_text other m) e)
    ]
  ]

  AreAbove-assign_text :
      (j key : List ℕ) (a : A) (m : List (List ℕ × A))
      → text_less j key ≡ true
      → AreAbove j m
      → AreAbove j (assign_text key a m)
  AreAbove-assign_text j key a [] h above = (h, tt)
  AreAbove-assign_text j key a ((k, b) ∷ m) h (first, above) = elim (Bool-cases (same_text k key)) [
    | inl e ↦ rw e (first, above)
    | inr e ↦ elim (Bool-cases (text_less key k)) [
      | inl f ↦ rw (e, f) (h, (first, above))
      | inr f ↦ rw (e, f) (first, AreAbove-assign_text j key a m h above)
    ]
  ]

  pub assign_text-IsSorted :
      (key : List ℕ) (a : A) (m : List (List ℕ × A)) → IsSorted m → IsSorted (assign_text key a m)
  assign_text-IsSorted key a [] sorted = (tt, tt)
  assign_text-IsSorted key a ((k, b) ∷ m) (above, sorted) = elim (Bool-cases (same_text k key)) [
    | inl e ↦ rw e (above, sorted)
    | inr e ↦ elim (Bool-cases (text_less key k)) [
      | inl f ↦ rw (e, f) ((f, AreAbove-trans key k m f above), (above, sorted))
      | inr f ↦
          rw (e, f)
            (
              AreAbove-assign_text k key a m (text_less_total k key e f) above,
              assign_text-IsSorted key a m sorted,
            )
    ]
  ]

  AreAbove-erase_text :
      (j key : List ℕ) (m : List (List ℕ × A)) → AreAbove j m → AreAbove j (erase_text key m)
  AreAbove-erase_text j key [] above = tt
  AreAbove-erase_text j key ((k, b) ∷ m) (first, above) = elim (Bool-cases (same_text k key)) [
    | inl e ↦ rw e above
    | inr e ↦ rw e (first, AreAbove-erase_text j key m above)
  ]

  pub erase_text-IsSorted :
      (key : List ℕ) (m : List (List ℕ × A)) → IsSorted m → IsSorted (erase_text key m)
  erase_text-IsSorted key [] sorted = tt
  erase_text-IsSorted key ((k, b) ∷ m) (above, sorted) = elim (Bool-cases (same_text k key)) [
    | inl e ↦ rw e sorted
    | inr e ↦ rw e (AreAbove-erase_text k key m above, erase_text-IsSorted key m sorted)
  ]

  pub find_text-erase_text :
      (key other : List ℕ) (m : List (List ℕ × A))
      → IsSorted m
      → find_text other (erase_text key m)
        ≡ (if same_text key other then none else find_text other m)
  find_text-erase_text key other [] sorted = if_same (same_text key other) none
  find_text-erase_text key other ((k, b) ∷ m) (above, sorted) =
      elim (Bool-cases (same_text k key)) [
        | inl e ↦ elim (Bool-cases (same_text key other)) [
          | inl f ↦
              rw (e, f)
                (let here = rw (same_text-eq k key e, same_text-eq key other f) at above in
                  find_text-AreAbove other m here)
          | inr f ↦ rw (e, same_text-eq k key e, f) refl
        ]
        | inr e ↦
            rw (e, find_text-erase_text key other m sorted)
              (if_swap k key other (some b) none (find_text other m) e)
      ]
