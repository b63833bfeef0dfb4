-- ===== src/Sasl/Hex.antt =====
-- The hexadecimal texts of the authentication (dbus-cxx/sasl.cpp).
use dbus_cxx.Common.{
  ℕ, zero, suc, ◌+◌, ◌-◌, ◌*◌, ◌/◌, ◌%◌, ◌^◌, ◌⊎◌, ◌<◌, ◌≤◌, ◌≡◌, refl, ap, ◌∙◌, List, [], ◌∷◌,
  ◌++◌, All, inl, inr, Bool-cases, length, ltb, if◌then◌else◌, arith,
}
use dbus_cxx.Sasl.{
  hexchar2int, hex_digit, decimal_text, hex_text, encode_all, encode_as_hex, int_text, pairs,
  hex_to_vector,
}
use dbus_cxx.Sasl.Exchange.{as_int}

abbrev IsDigit : ℕ → Type 0
IsDigit c = (48 ≤ c) × (c ≤ 57)

-- The number that decimal digits write, behind those that make `n`.
abbrev value_from : ℕ → List ℕ → ℕ
value_from n [] = n
value_from n (c ∷ cs) = value_from (n * 10 + (c - 48)) cs

value_from-append :
    (cs ds : List ℕ) (n : ℕ) → value_from n (cs ++ ds) ≡ value_from (value_from n cs) ds
value_from-append [] ds n = refl
value_from-append (c ∷ cs) ds n = value_from-append cs ds (n * 10 + (c - 48))

All-snoc : (cs : List ℕ) (c : ℕ) → All IsDigit cs → IsDigit c → All IsDigit (cs ++ (c ∷ []))
All-snoc [] c hs h = (h, tt)
All-snoc (d ∷ cs) c (g, hs) h = (g, All-snoc cs c hs h)

decimal_text-All : (fuel n : ℕ) → All IsDigit (decimal_text fuel n)
unfolding decimal_text
decimal_text-All zero n = tt
decimal_text-All (suc fuel) n =
    ground
      (arith, All-snoc (decimal_text fuel (n / 10)) (48 + n % 10) (decimal_text-All fuel (n / 10)))

value_from-decimal_text : (fuel n : ℕ) → n < fuel → value_from 0 (decimal_text fuel n) ≡ n
unfolding decimal_text
value_from-decimal_text zero n h = absurd (omega arith)
value_from-decimal_text (suc fuel) n h = elim (Bool-cases (ltb n 10)) [
  | inl e ↦ rw e (omega arith)
  | inr e ↦
      (let ten : n / 10 < fuel = ground arith in
        rw
          (
            e,
            value_from-append (decimal_text fuel (n / 10)) ((48 + n % 10) ∷ []) 0,
            value_from-decimal_text fuel (n / 10) ten,
          )
          (omega arith))
]

hex_text-IsDigit : (c : ℕ) → IsDigit c → hex_text c ≡ 51 ∷ (c ∷ [])
unfolding hex_text
hex_text-IsDigit c (h, g) =
    let high : c / 16 ≡ 3 = omega arith in let low : 48 + c % 16 ≡ c = omega arith in ground arith

hexchar2int-IsDigit : (c : ℕ) → IsDigit c → hexchar2int c ≡ c - 48
unfolding hexchar2int
hexchar2int-IsDigit c (h, g) = ground arith

encode_digit : (c : ℕ) (cs : List ℕ) → IsDigit c → pairs (hex_text c ++ cs) ≡ c ∷ pairs cs
unfolding pairs
encode_digit c cs h =
    let joined : hexchar2int 51 * 16 + hexchar2int c ≡ c =
      rw (hexchar2int-IsDigit c h, hexchar2int-IsDigit 51 (omega arith, omega arith))
        (omega arith) in
    rw (hex_text-IsDigit c h) (ap (λ (b : ℕ). b ∷ pairs cs) joined)

length-encode_all : (cs : List ℕ) → All IsDigit cs → length (encode_all cs) % 2 ≡ 0
unfolding encode_all hex_text
length-encode_all [] h = refl
length-encode_all (c ∷ cs) (h, hs) = ground (arith, length-encode_all cs hs)

pairs-encode_all : (cs : List ℕ) → All IsDigit cs → pairs (encode_all cs) ≡ cs
unfolding encode_all
pairs-encode_all [] h = unfold pairs in refl
pairs-encode_all (c ∷ cs) (h, hs) =
    encode_digit c (encode_all cs) h ∙ ap (λ (l : List ℕ). c ∷ l) (pairs-encode_all cs hs)

hex_to_vector-digits :
    (n : ℕ)
    → All IsDigit (hex_to_vector (encode_all (decimal_text (suc n) n)))
      × (value_from 0 (hex_to_vector (encode_all (decimal_text (suc n) n))) ≡ n)
unfolding hex_to_vector
hex_to_vector-digits n =
    let text : List ℕ = decimal_text (suc n) n in
    let even : length (encode_all text) % 2 ≡ 0 =
      length-encode_all text (decimal_text-All (suc n) n) in
    rw (even, pairs-encode_all text (decimal_text-All (suc n) n))
      (decimal_text-All (suc n) n, value_from-decimal_text (suc n) n (omega arith))

-- The hexadecimal text of the digits of `n`, as hex_to_vector reads it.
abbrev pub WritesDigits : ℕ → List ℕ → Type 0
WritesDigits n text = All IsDigit (hex_to_vector text) × (value_from 0 (hex_to_vector text) ≡ n)

-- The hexadecimal text of a minus sign and of the digits of `n`.
abbrev pub WritesMinus : ℕ → List ℕ → Type 0
WritesMinus n text = (rest : List ℕ) × (text ≡ b'2' ∷ b'd' ∷ rest) × WritesDigits n rest

-- For a user's number under 2 ^ 31, passed to encode_as_hex as an int, hex_to_vector reads
-- decimal digits that write the number. For one from 2 ^ 31 up to 2 ^ 32 encode_as_hex writes
-- first the hexadecimal text 2d of a minus sign, and from the rest of its text hex_to_vector
-- reads decimal digits that write 2 ^ 32 less the number.
pub hex_to_vector-encode_as_hex :
    (uid : ℕ)
    → uid < 2 ^ 32
    → ((uid < 2 ^ 31) × WritesDigits uid (encode_as_hex (as_int uid)))
      ⊎ ((2 ^ 31 ≤ uid) × WritesMinus (2 ^ 32 - uid) (encode_as_hex (as_int uid)))
unfolding encode_as_hex int_text encode_all hex_text
hex_to_vector-encode_as_hex uid h =
    let same : as_int uid ≡ uid = omega arith in
    elim (Bool-cases (ltb uid (2 ^ 31))) [
      | inl e ↦ rw (same, e) (inl (ground (arith, e), hex_to_vector-digits uid))
      | inr e ↦
          rw (same, e) (inr (ground (arith, e), (_, refl, hex_to_vector-digits (2 ^ 32 - uid))))
    ]

-- Of the sixteen hexadecimal digits hexchar2int gives the value for those below ten, and the
-- value less ten for the letters.
pub hexchar2int-hex_digit :
    (n : ℕ) → n < 16 → hexchar2int (hex_digit n) ≡ (if ltb n 10 then n else n - 10)
unfolding hexchar2int
hexchar2int-hex_digit n h = ground arith
