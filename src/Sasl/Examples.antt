-- ===== src/Sasl/Examples.antt =====
-- The theorems on hexadecimal texts at the user's number 1000 and at the digit c.
use dbus_cxx.Common.{
  ℕ, ◌<◌, ◌≤◌, ◌^◌, ◌-◌, ◌⊎◌, ◌≡◌, refl, List, [], ◌∷◌, ◌++◌, Option, some, none, true, drop, arith,
  ◌==◌, if◌then◌else◌, codes,
}
use dbus_cxx.Sasl.Exchange.{
  Descriptor, Search, Expression, ok_regex, error_regex, agree_unix_fd_regex, rejected_regex,
  as_int, auth_line, authenticate, read_data, write_data_with_newline,
}
use dbus_cxx.Sasl.Conforms.{Conforms, lines, authenticate-Conforms}
use dbus_cxx.Sasl.{encode_as_hex, hexchar2int}
use dbus_cxx.Sasl.Hex.{
  WritesDigits, WritesMinus, hex_to_vector-encode_as_hex, hexchar2int-hex_digit,
}

hex_to_vector-encode_as_hex_example :
    ((1000 < 2 ^ 31) × WritesDigits 1000 (encode_as_hex (as_int 1000)))
    ⊎ ((2 ^ 31 ≤ 1000) × WritesMinus (2 ^ 32 - 1000) (encode_as_hex (as_int 1000)))
hex_to_vector-encode_as_hex_example = hex_to_vector-encode_as_hex 1000 (omega arith)

hexchar2int-hex_digit_example : hexchar2int b'c' ≡ 2
hexchar2int-hex_digit_example = hexchar2int-hex_digit 12 (omega arith)

-- A server that sends the lines in turn, and what was written to it.
abbrev Script : Type 0
Script = List (List ℕ) × List (List ℕ)

abbrev next_line : Script → Option (List ℕ) × Script
next_line ([], w) = (none, ([], w))
next_line (l ∷ ls, w) = (some l, (ls, w))

next_line-written : (k : Script) → (next_line k).1.1 ≡ k.1
next_line-written ([], w) = refl
next_line-written (l ∷ ls, w) = refl

abbrev scripted : Descriptor Script
scripted = record {
  poll = λ k. (true, k);
  read = λ n k. next_line k;
  write = λ s k. (k.0, k.1 ++ (s ∷ []));
  written = λ k. k.1;
  poll_lem = λ k. refl;
  read_lem = λ n k. next_line-written k;
  write_lem = λ s k. refl;
}

-- A search that goes by the first character of the line.
abbrev letter : Expression → ℕ
letter ok_regex = b'O'
letter error_regex = b'E'
letter rejected_regex = b'R'
letter agree_unix_fd_regex = b'A'

abbrev by_first : Search
by_first e [] = none
by_first e (c ∷ rest) = if c == letter e then some (drop 2 rest) else none

abbrev script : Script
script = (codes "OK 12ab" ∷ codes "AGREE_UNIX_FD" ∷ [], [])

authenticate-Conforms_example :
    (commands : List (List ℕ)) × (scripted.written
        (authenticate scripted by_first 1000 true script).1
      ≡ lines (auth_line 1000 ∷ commands))
    × Conforms by_first
        (codes "OK 12ab")
        (codes "AGREE_UNIX_FD")
        true
        (authenticate scripted by_first 1000 true script).0
        commands
unfolding read_data write_data_with_newline
authenticate-Conforms_example = authenticate-Conforms scripted by_first 1000 true script
