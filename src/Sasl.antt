-- ===== src/Sasl.antt =====
-- The hexadecimal texts of dbus-cxx/sasl.cpp: the user's number that is sent, and the server's
-- identifier that comes back. A text is the list of its characters' codes.
pub mod Hex
pub mod Exchange
pub mod Conforms
mod Examples
use dbus_cxx.Common.{
  ℕ, zero, suc, ◌+◌, ◌-◌, ◌*◌, ◌/◌, ◌%◌, ◌^◌, List, [], ◌∷◌, ◌++◌, Bool, true, false, not, ◌&&◌,
  length, ltb, leb, ◌==◌, if◌then◌else◌,
}

unfoldable pub hexchar2int : ℕ → ℕ
hexchar2int c =
    if leb b'0' c && leb c b'9' then c - 48 else if leb b'a' c && leb c b'f' then c - 97 else 0

-- The decimal digits of a number that is not negative, on fuel. A number has fewer digits than it and one more.
unfoldable pub decimal_text : ℕ → ℕ → List ℕ
decimal_text zero n = []
decimal_text (suc fuel) n =
    if ltb n 10 then (b'0' + n) ∷ [] else decimal_text fuel (n / 10) ++ ((b'0' + n % 10) ∷ [])

abbrev pub hex_digit : ℕ → ℕ
hex_digit n = if ltb n 10 then b'0' + n else b'a' + n - 10

-- `out << std::hex << ( int )s`, for a character's code.
unfoldable pub hex_text : ℕ → List ℕ
hex_text n = if ltb n 16 then hex_digit n ∷ [] else hex_digit (n / 16) ∷ hex_digit (n % 16) ∷ []

-- The loop over the characters.
unfoldable pub encode_all : List ℕ → List ℕ
encode_all [] = []
encode_all (c ∷ cs) = hex_text c ++ encode_all cs

-- `numString << num`: the text of an `int`, which stands here for its 32 bits in two's complement.
unfoldable pub int_text : ℕ → List ℕ
int_text num =
    if ltb num (2 ^ 31)
    then decimal_text (suc num) num
    else b'-' ∷ decimal_text (suc (2 ^ 32 - num)) (2 ^ 32 - num)

unfoldable pub encode_as_hex : ℕ → List ℕ
encode_as_hex num = encode_all (int_text num)

-- The loop of `hex_to_vector`: `first << 4 | second`, whose bits are disjoint. The last character of an odd
-- number of them is not reached.
unfoldable pub pairs : List ℕ → List ℕ
pairs (a ∷ b ∷ cs) = (hexchar2int a * 16 + hexchar2int b) ∷ pairs cs
pairs _ = []

unfoldable pub hex_to_vector : List ℕ → List ℕ
hex_to_vector cs = if not (length cs % 2 == 0) then [] else pairs cs
