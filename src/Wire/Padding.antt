-- ===== src/Wire/Padding.antt =====
-- The alignment of the writer and of the reader (dbus-cxx/marshaling.cpp and demarshaling.cpp).
use dbus_cxx.Common.{
  ℕ, zero, suc, ◌+◌, ◌-◌, ◌%◌, ◌^◌, ◌<◌, ◌≡◌, refl, ◌∙◌, ◌⊎◌, List, [], ◌∷◌, ◌++◌, length,
  replicate, append-nil, append_assoc, ◌==◌, Bool-cases, ==_iff, inl, inr, false, arith,
}
use dbus_cxx.Wire.Writer
use dbus_cxx.Wire.Writer.{Marshaling, push_zeros}
use dbus_cxx.Wire.Reader
use dbus_cxx.Wire.Reader.{Demarshaling, Outcome, ok}

-- The zeros from offset `n` to the next multiple of `a`.
abbrev pub padding : ℕ → ℕ → ℕ
padding a n = (a - n % a) % a

pub push_zeros-eq : (n : ℕ) (bs : List ℕ) → push_zeros n bs ≡ bs ++ replicate n 0
unfolding push_zeros
push_zeros-eq zero bs = rw append-nil
push_zeros-eq (suc n) bs =
    push_zeros-eq n (bs ++ (0 ∷ [])) ∙ append_assoc bs (0 ∷ []) (replicate n 0)

-- A width at which the wire format aligns.
abbrev pub IsWidth : ℕ → Type 0
IsWidth a = (a ≡ 1) ⊎ (a ≡ 2) ⊎ (a ≡ 4) ⊎ (a ≡ 8)

padding_eq : (a n : ℕ) → IsWidth a → (a - n % a == a) ≡ false → padding a n ≡ a - n % a
padding_eq a n w h = ground arith

padding_zero : (a n : ℕ) → IsWidth a → a - n % a ≡ a → padding a n ≡ 0
padding_zero a n w h = ground arith

pub writer_align :
    (a : ℕ) (m : Marshaling)
    → IsWidth a
    → Writer.align a m ≡ record m { bytes = m.bytes ++ replicate (padding a (length m.bytes)) 0 }
unfolding Writer.align
writer_align a m w = elim (Bool-cases (a - length m.bytes % a == a)) [
  | inl e ↦ rw (e, padding_zero a (length m.bytes) w ((==_iff _ _).0 e), append-nil) refl
  | inr e ↦ rw (e, push_zeros-eq, padding_eq a (length m.bytes) w e)
]

pub reader_align :
    (a : ℕ) (r : Demarshaling)
    → IsWidth a
    → r.pos + padding a r.pos < 2 ^ 32
    → Reader.align a r ≡ ok (tt, record r { pos = r.pos + padding a r.pos })
unfolding Reader.align
reader_align a r w h = ground arith
