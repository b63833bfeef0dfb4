-- ===== src/Wire/Safety.antt =====
-- The bounds of the reads of dbus-cxx/demarshaling.cpp.
use dbus_cxx.Common.{
  ℕ, zero, suc, ◌+◌, ◌<◌, ◌≤◌, ◌^◌, ◌≡◌, refl, ◌⊎◌, inl, inr, List, ◌∷◌, Bool-cases, ltb, ltb→lt,
  length-append, ◌++◌, length, get_elem?-ge, get_elem?-lt, arith,
}
use dbus_cxx.Wire.Words.{Endianess, little, big, u32}
use dbus_cxx.Wire.Padding.{padding, reader_align}
use dbus_cxx.Wire.Scan.{four}
use dbus_cxx.Wire.Text.{uint8_read}
use dbus_cxx.Wire.Reader
use dbus_cxx.Wire.Reader.{Demarshaling, Outcome, ok, abort, fault, chars_at}

-- The read aborts, or it returns and is inside the buffer, which it leaves as it is.
abbrev pub IsSafe : {A : Type 0} → Demarshaling → Outcome (A × Demarshaling) → Type 0
IsSafe r o =
    (o ≡ abort)
    ⊎ ((a : _) × (s : Demarshaling) × (o ≡ ok (a, s))
        × (s.bytes ≡ r.bytes)
        × (r.pos ≤ s.pos)
        × (s.pos ≤ length r.bytes))

byte_in :
    (i : ℕ) (r : Demarshaling)
    → r.pos + i < length r.bytes
    → length r.bytes < 2 ^ 32
    → (b : ℕ) × (Reader.byte_at i r ≡ ok (b, r))
unfolding Reader.byte_at
byte_in i r h small =
    let exact : u32 (r.pos + i) ≡ r.pos + i = omega arith in
    let found = get_elem?-lt r.bytes (r.pos + i) h in (found.0, rw (exact, found.1, Reader.byte_at))

-- A guard for `n` bytes: it aborts, or they are in the buffer.
guard_cases :
    (n : ℕ) (r : Demarshaling)
    → r.pos + n < 2 ^ 32
    → (Reader.is_valid n r ≡ abort)
      ⊎ ((Reader.is_valid n r ≡ ok (tt, r)) × (r.pos + n ≤ length r.bytes))
unfolding Reader.is_valid
guard_cases n r h = ground arith

-- Behind the alignment, the four bytes of a word.
word-IsSafe :
    (r : Demarshaling)
    → r.pos ≤ length r.bytes
    → length r.bytes + 16 < 2 ^ 32
    → IsSafe r (Reader.demarshal_int_big r) × IsSafe r (Reader.demarshal_int_little r)
unfolding Reader.demarshal_int_big Reader.demarshal_int_little Reader.advance
word-IsSafe r h small =
    let p : ℕ = r.pos + padding 4 r.pos in
    let s : Demarshaling = record r { pos = p } in
    let near : padding 4 r.pos < 4 = omega arith in
    let aligned : Reader.align 4 r ≡ ok (tt, s) = reader_align 4 r four (omega arith) in
    elim (guard_cases 4 s (omega arith)) [
      | inl e ↦ rw (aligned, e) (inl refl, inl refl)
      | inr (e, fits) ↦
          (let a = byte_in 0 s (omega arith) (omega arith) in
            let b = byte_in 1 s (omega arith) (omega arith) in
            let c = byte_in 2 s (omega arith) (omega arith) in
            let d = byte_in 3 s (omega arith) (omega arith) in
            let exact : u32 (p + 4) ≡ p + 4 = omega arith in
            rw (aligned, e, a.1, b.1, c.1, d.1, exact)
              (
                inr (_, _, refl, refl, omega arith, omega arith),
                inr (_, _, refl, refl, omega arith, omega arith),
              ))
    ]

-- A read of a four-byte number from inside a buffer of fewer than 2 ^ 32 - 16 bytes aborts or
-- ends inside the buffer, in either byte order; no byte outside it is read.
pub demarshal_uint32-IsSafe :
    (r : Demarshaling)
    → r.pos ≤ length r.bytes
    → length r.bytes + 16 < 2 ^ 32
    → IsSafe r (Reader.demarshal_uint32 r)
unfolding Reader.demarshal_uint32
demarshal_uint32-IsSafe r h small =
    elim r.endian
      as (λ e.
        IsSafe r
          (elim e [ little ↦ Reader.demarshal_int_little r | big ↦ Reader.demarshal_int_big r ])) [
            | little ↦ (word-IsSafe r h small).1
            | big ↦ (word-IsSafe r h small).0
          ]

chars_at-fault :
    (len i : ℕ) (r : Demarshaling)
    → r.pos + i ≤ length r.bytes
    → length r.bytes < r.pos + i + len
    → chars_at len i r ≡ fault
unfolding chars_at
chars_at-fault zero i r inside h = absurd (omega arith)
chars_at-fault (suc len) i r inside h = elim (Bool-cases (ltb (r.pos + i) (length r.bytes))) [
  | inl e ↦
      (let found = get_elem?-lt r.bytes (r.pos + i) (ltb→lt _ _ e) in
        let later : chars_at len (i + 1) r ≡ fault =
          chars_at-fault len (i + 1) r (let lt = ltb→lt _ _ e in omega arith) (omega arith) in
        rw (found.1, later, chars_at))
  | inr e ↦ rw (get_elem?-ge r.bytes (r.pos + i) (ground arith), chars_at)
]

-- A signature whose length byte announces more characters than the buffer has behind it, which
-- is smaller than 2 ^ 32 bytes, is read outside the buffer.
pub demarshal_signature-overrun :
    (n : ℕ) (front back : List ℕ) (e : Endianess)
    → length back < n
    → length front + 1 + length back < 2 ^ 32
    → Reader.demarshal_signature
        (record { bytes = front ++ (n ∷ back); pos = length front; endian = e })
      ≡ fault
unfolding Reader.demarshal_signature
demarshal_signature-overrun n front back e over small = rw (
  uint8_read n front back e small,
  chars_at-fault n 0 (record { bytes = front ++ (n ∷ back); pos = length front + 1; endian = e })
      (omega (arith, length-append front (n ∷ back)))
      (omega (arith, length-append front (n ∷ back))),
)
