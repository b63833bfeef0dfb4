-- ===== src/Sasl/Exchange.antt =====
-- SASL::authenticate of dbus-cxx/sasl.cpp: the exchange with the server. The descriptor is a
-- parameter, `K` is what the kernel keeps of it, and so is the search for a regular expression.
use dbus_cxx.Common.{
  ℕ, ◌%◌, ◌^◌, ◌≡◌, List, [], ◌∷◌, ◌++◌, Option, some, none, Bool, true, false, not, length, ◌==◌,
  if◌then◌else◌, codes,
}
use dbus_cxx.Sasl.{encode_as_hex, hex_to_vector}

-- The system calls on the descriptor; `poll` tells whether it did not fail, `none` is a read that failed. What was written
-- is known, and waiting and reading write nothing.
pub record Descriptor (K : Type 0) : Type 0 where
  pub poll : K → Bool × K
  pub read : ℕ → K → Option (List ℕ) × K
  pub write : List ℕ → K → K
  pub written : K → List (List ℕ)
  pub poll_lem : (k : K) → written (poll k).1 ≡ written k
  pub read_lem : (n : ℕ) (k : K) → written (read n k).1 ≡ written k
  pub write_lem : (s : List ℕ) (k : K) → written (write s k) ≡ written k ++ (s ∷ [])

-- The expressions that lines are searched for.
pub data Expression : Type 0 where
  ok_regex error_regex agree_unix_fd_regex rejected_regex : Expression

-- What `std::regex_search` finds: the text of the expression's group, empty where it has none.
abbrev pub Search : Type 0
Search = Expression → List ℕ → Option (List ℕ)

-- The tuple that `authenticate` returns.
pub record Authenticated : Type 0 where
  pub success : Bool
  pub negotiated_fd : Bool
  pub server_guid : List ℕ

abbrev pub refused : Authenticated
refused = record { success = false; negotiated_fd = false; server_guid = [] }

-- The `int` that a `uid_t` is passed as: it has the same bits.
abbrev pub as_int : ℕ → ℕ
as_int uid = uid % 2 ^ 32

abbrev pub auth_line : ℕ → List ℕ
auth_line uid = codes "AUTH EXTERNAL " ++ encode_as_hex (as_int uid)

abbrev pub error_line : List ℕ
error_line = codes "ERROR Unrecognized response"

abbrev pub negotiate_line : List ℕ
negotiate_line = codes "NEGOTIATE_UNIX_FD"

abbrev pub begin_line : List ℕ
begin_line = codes "BEGIN"

abbrev pub with_newline : List ℕ → List ℕ
with_newline s = s ++ (13 ∷ 10 ∷ [])

abbrev pub found : Option (List ℕ) → Bool
found none = false
found (some _) = true

abbrev pub text_of : {K : Type 0} → Option (List ℕ) × K → List ℕ × K
text_of (none, k) = ([], k)
text_of (some line, k) = (line, k)

module _ {K : Type 0} (fd : Descriptor K) where
  unfoldable pub write_data_with_newline : List ℕ → K → K
  write_data_with_newline s k = fd.write (with_newline s) k

  unfoldable pub read_data : K → List ℕ × K
  read_data k =
      let polled = fd.poll k in
      if not polled.0 then ([], polled.1) else text_of (fd.read 512 polled.1)

  module _ (search : Search) where
    -- The end: `BEGIN`, and success.
    unfoldable pub begin : Bool → List ℕ → K → Authenticated × K
    begin negotiated guid k = (
      record { success = true; negotiated_fd = negotiated; server_guid = guid },
      write_data_with_newline begin_line k,
    )

    -- Whether descriptors may be passed.
    unfoldable pub negotiate_fd : List ℕ → K → Authenticated × K
    negotiate_fd guid k =
        let answer = read_data (write_data_with_newline negotiate_line k) in
        if length answer.0 == 0
        then (record refused { server_guid = guid }, answer.1)
        else begin (found (search agree_unix_fd_regex answer.0)) guid answer.1

    -- What is done with the answer to `AUTH`.
    unfoldable pub answered : Bool → List ℕ → K → Authenticated × K
    answered negotiate line k = elim (search ok_regex line) [
      | some id ↦
          if negotiate then negotiate_fd (hex_to_vector id) k else begin false (hex_to_vector id) k
      | none ↦
          if found (search error_regex line)
          then (refused, k)
          else if found (search rejected_regex line)
          then (refused, k)
          else (refused, write_data_with_newline error_line k)
    ]

    unfoldable pub authenticate : ℕ → Bool → K → Authenticated × K
    authenticate uid negotiate k =
        let answer = read_data (write_data_with_newline (auth_line uid) k) in
        if length answer.0 == 0 then (refused, answer.1) else answered negotiate answer.0 answer.1
