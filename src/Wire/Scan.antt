-- ===== src/Wire/Scan.antt =====
-- What the reader's helpers return over a buffer whose bytes are known.
use dbus_cxx.Common.{
  ℕ, ◌+◌, ◌^◌, ◌<◌, ◌≤◌, ◌≡◌, refl, List, [], ◌∷◌, ◌++◌, length, some, length-append, get_elem?,
  get_elem?-append_right, append_assoc, inl, inr, arith,
}
use dbus_cxx.Wire.Words.{Endianess, u32, short_of, int_of, long_of}
use dbus_cxx.Wire.Padding.{padding, IsWidth, reader_align}
use dbus_cxx.Wire.Reader
use dbus_cxx.Wire.Reader.{Demarshaling, Outcome, ok}

pub two : IsWidth 2
two = inr (inl refl)

pub four : IsWidth 4
four = inr (inr (inl refl))

pub eight : IsWidth 8
eight = inr (inr (inr refl))

module _ (front : List ℕ) (e : Endianess) where
  -- A reader `k` bytes behind `front`.
  abbrev pub behind : List ℕ → ℕ → Demarshaling
  behind back k = record { bytes = front ++ back; pos = length front + k; endian = e }

  pub byte_at-behind :
      (back : List ℕ) (k i : ℕ) {b : ℕ}
      → length front + k + i < 2 ^ 32
      → get_elem? back (k + i) ≡ some b
      → Reader.byte_at i (behind back k) ≡ ok (b, behind back k)
  unfolding Reader.byte_at
  byte_at-behind back k i h g =
      ground (arith, get_elem?-append_right front back (k + i) (u32 (length front + k + i)))

  pub is_valid-behind :
      (back : List ℕ) (k n : ℕ)
      → length front + length back < 2 ^ 32
      → k + n ≤ length back
      → Reader.is_valid n (behind back k) ≡ ok (tt, behind back k)
  unfolding Reader.is_valid
  is_valid-behind back k n h g = ground (arith, length-append front back)

  pub advance-behind :
      (back : List ℕ) (k n : ℕ)
      → length front + k + n < 2 ^ 32
      → Reader.advance n (behind back k) ≡ ok (tt, behind back (k + n))
  unfolding Reader.advance
  advance-behind back k n h = ground arith

  pub align-behind :
      (a p : ℕ) (back : List ℕ)
      → IsWidth a
      → p + padding a p ≡ length front
      → length front < 2 ^ 32
      → Reader.align a (record { bytes = front ++ back; pos = p; endian = e })
        ≡ ok (tt, behind back 0)
  align-behind a p back w q h =
      rw (reader_align a (record { bytes = front ++ back; pos = p; endian = e }) w (omega arith))
        (ground arith)

  -- A word of two, four or eight bytes behind the padding that aligns it.
  module _ (p : ℕ) (rest : List ℕ) where
    abbrev before : List ℕ → Demarshaling
    before back = record { bytes = front ++ back; pos = p; endian = e }

    pub short_big-behind :
        (a b : ℕ)
        → p + padding 2 p ≡ length front
        → length front + length rest + 2 < 2 ^ 32
        → Reader.demarshal_short_big (before (a ∷ b ∷ rest))
          ≡ ok (short_of b a, behind (a ∷ b ∷ rest) 2)
    unfolding Reader.demarshal_short_big
    short_big-behind a b q h =
        let word : List ℕ = a ∷ b ∷ rest in
        rw
          (
            align-behind 2 p word two q (omega arith),
            is_valid-behind word 0 2 (omega arith) (omega arith),
            byte_at-behind word 0 0 {b = a} (omega arith) refl,
            byte_at-behind word 0 1 {b = b} (omega arith) refl,
            advance-behind word 0 2 (omega arith),
          )
          refl

    pub short_little-behind :
        (a b : ℕ)
        → p + padding 2 p ≡ length front
        → length front + length rest + 2 < 2 ^ 32
        → Reader.demarshal_short_little (before (a ∷ b ∷ rest))
          ≡ ok (short_of a b, behind (a ∷ b ∷ rest) 2)
    unfolding Reader.demarshal_short_little
    short_little-behind a b q h =
        let word : List ℕ = a ∷ b ∷ rest in
        rw
          (
            align-behind 2 p word two q (omega arith),
            is_valid-behind word 0 2 (omega arith) (omega arith),
            byte_at-behind word 0 0 {b = a} (omega arith) refl,
            byte_at-behind word 0 1 {b = b} (omega arith) refl,
            advance-behind word 0 2 (omega arith),
          )
          refl

    pub int_big-behind :
        (a b c d : ℕ)
        → p + padding 4 p ≡ length front
        → length front + length rest + 4 < 2 ^ 32
        → Reader.demarshal_int_big (before (a ∷ b ∷ c ∷ d ∷ rest))
          ≡ ok (int_of d c b a, behind (a ∷ b ∷ c ∷ d ∷ rest) 4)
    unfolding Reader.demarshal_int_big
    int_big-behind a b c d q h =
        let word : List ℕ = a ∷ b ∷ c ∷ d ∷ rest in
        rw
          (
            align-behind 4 p word four q (omega arith),
            is_valid-behind word 0 4 (omega arith) (omega arith),
            byte_at-behind word 0 0 {b = a} (omega arith) refl,
            byte_at-behind word 0 1 {b = b} (omega arith) refl,
            byte_at-behind word 0 2 {b = c} (omega arith) refl,
            byte_at-behind word 0 3 {b = d} (omega arith) refl,
            advance-behind word 0 4 (omega arith),
          )
          refl

    pub int_little-behind :
        (a b c d : ℕ)
        → p + padding 4 p ≡ length front
        → length front + length rest + 4 < 2 ^ 32
        → Reader.demarshal_int_little (before (a ∷ b ∷ c ∷ d ∷ rest))
          ≡ ok (int_of a b c d, behind (a ∷ b ∷ c ∷ d ∷ rest) 4)
    unfolding Reader.demarshal_int_little
    int_little-behind a b c d q h =
        let word : List ℕ = a ∷ b ∷ c ∷ d ∷ rest in
        rw
          (
            align-behind 4 p word four q (omega arith),
            is_valid-behind word 0 4 (omega arith) (omega arith),
            byte_at-behind word 0 0 {b = a} (omega arith) refl,
            byte_at-behind word 0 1 {b = b} (omega arith) refl,
            byte_at-behind word 0 2 {b = c} (omega arith) refl,
            byte_at-behind word 0 3 {b = d} (omega arith) refl,
            advance-behind word 0 4 (omega arith),
          )
          refl

    pub long_big-behind :
        (a b c d e' f g h : ℕ)
        → p + padding 8 p ≡ length front
        → length front + length rest + 8 < 2 ^ 32
        → Reader.demarshal_long_big (before (a ∷ b ∷ c ∷ d ∷ e' ∷ f ∷ g ∷ h ∷ rest))
          ≡ ok (long_of h g f e' d c b a, behind (a ∷ b ∷ c ∷ d ∷ e' ∷ f ∷ g ∷ h ∷ rest) 8)
    unfolding Reader.demarshal_long_big
    long_big-behind a b c d e' f g h q small =
        let word : List ℕ = a ∷ b ∷ c ∷ d ∷ e' ∷ f ∷ g ∷ h ∷ rest in
        rw
          (
            align-behind 8 p word eight q (omega arith),
            is_valid-behind word 0 8 (omega arith) (omega arith),
            byte_at-behind word 0 0 {b = a} (omega arith) refl,
            byte_at-behind word 0 1 {b = b} (omega arith) refl,
            byte_at-behind word 0 2 {b = c} (omega arith) refl,
            byte_at-behind word 0 3 {b = d} (omega arith) refl,
            byte_at-behind word 0 4 {b = e'} (omega arith) refl,
            byte_at-behind word 0 5 {b = f} (omega arith) refl,
            byte_at-behind word 0 6 {b = g} (omega arith) refl,
            byte_at-behind word 0 7 {b = h} (omega arith) refl,
            advance-behind word 0 8 (omega arith),
          )
          refl

    pub long_little-behind :
        (a b c d e' f g h : ℕ)
        → p + padding 8 p ≡ length front
        → length front + length rest + 8 < 2 ^ 32
        → Reader.demarshal_long_little (before (a ∷ b ∷ c ∷ d ∷ e' ∷ f ∷ g ∷ h ∷ rest))
          ≡ ok (long_of a b c d e' f g h, behind (a ∷ b ∷ c ∷ d ∷ e' ∷ f ∷ g ∷ h ∷ rest) 8)
    unfolding Reader.demarshal_long_little
    long_little-behind a b c d e' f g h q small =
        let word : List ℕ = a ∷ b ∷ c ∷ d ∷ e' ∷ f ∷ g ∷ h ∷ rest in
        rw
          (
            align-behind 8 p word eight q (omega arith),
            is_valid-behind word 0 8 (omega arith) (omega arith),
            byte_at-behind word 0 0 {b = a} (omega arith) refl,
            byte_at-behind word 0 1 {b = b} (omega arith) refl,
            byte_at-behind word 0 2 {b = c} (omega arith) refl,
            byte_at-behind word 0 3 {b = d} (omega arith) refl,
            byte_at-behind word 0 4 {b = e'} (omega arith) refl,
            byte_at-behind word 0 5 {b = f} (omega arith) refl,
            byte_at-behind word 0 6 {b = g} (omega arith) refl,
            byte_at-behind word 0 7 {b = h} (omega arith) refl,
            advance-behind word 0 8 (omega arith),
          )
          refl

-- The characters of `s` behind `front`.
pub chars_at-front :
    (s front rest : List ℕ) (i : ℕ) (r : Demarshaling)
    → r.bytes ≡ front ++ (s ++ rest)
    → r.pos + i ≡ length front
    → Reader.chars_at (length s) i r ≡ ok (s, r)
unfolding Reader.chars_at
chars_at-front [] front rest i r e h = refl
chars_at-front (c ∷ s) front rest i r e h = ground (
  arith,
  get_elem?-append_right front (c ∷ (s ++ rest)) 0 (r.pos + i),
  append_assoc front (c ∷ []) (s ++ rest),
  length-append front (c ∷ []),
  chars_at-front s (front ++ (c ∷ [])) rest (i + 1) r,
)
