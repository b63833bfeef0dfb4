-- ===== src/Sasl/Conforms.antt =====
-- The exchange of SASL::authenticate as a relation (dbus-cxx/sasl.cpp).
use dbus_cxx.Common.{
  ℕ, ◌≡◌, ◌≢◌, ◌⊎◌, refl, ap, ◌∙◌, List, [], ◌∷◌, ◌++◌, append_assoc, append-nil, Option, some,
  none, Option-cases, Bool, true, false, Bool-cases, inl, inr, length, ◌==◌, if◌then◌else◌, arith,
}
use dbus_cxx.Sasl.{hex_to_vector}
use dbus_cxx.Sasl.Exchange.{
  Descriptor, Search, ok_regex, error_regex, rejected_regex, agree_unix_fd_regex, Authenticated,
  refused, auth_line, error_line, negotiate_line, begin_line, with_newline, found, text_of,
  write_data_with_newline, read_data, begin, negotiate_fd, answered, authenticate,
}

-- What a client may do: `first` is the answer to AUTH and `second` the one to NEGOTIATE_UNIX_FD, empty
-- where none came; then the result and the commands that it sends behind AUTH.
pub data Conforms (search : Search) (first second : List ℕ)
    : Bool → Authenticated → List (List ℕ) → Type 0 where
  silent : {negotiate : Bool} → first ≡ [] → Conforms search first second negotiate refused []
  declined :
      {negotiate : Bool}
      → first ≢ []
      → search ok_regex first ≡ none
      → (if found (search error_regex first) then true else found (search rejected_regex first))
        ≡ true
      → Conforms search first second negotiate refused []
  not_understood :
      {negotiate : Bool}
      → first ≢ []
      → search ok_regex first ≡ none
      → found (search error_regex first) ≡ false
      → found (search rejected_regex first) ≡ false
      → Conforms search first second negotiate refused (error_line ∷ [])
  accepted :
      (id : List ℕ)
      → first ≢ []
      → search ok_regex first ≡ some id
      → Conforms search first second false
          (record { success = true; negotiated_fd = false; server_guid = hex_to_vector id })
          (begin_line ∷ [])
  dropped :
      (id : List ℕ)
      → first ≢ []
      → search ok_regex first ≡ some id
      → second ≡ []
      → Conforms search first second true
          (record { success = false; negotiated_fd = false; server_guid = hex_to_vector id })
          (negotiate_line ∷ [])
  negotiated :
      (id : List ℕ)
      → first ≢ []
      → search ok_regex first ≡ some id
      → second ≢ []
      → Conforms search first second true
          (record {
            success = true;
            negotiated_fd = found (search agree_unix_fd_regex second);
            server_guid = hex_to_vector id;
          })
          (negotiate_line ∷ begin_line ∷ [])

abbrev pub lines : List (List ℕ) → List (List ℕ)
lines [] = []
lines (s ∷ ss) = with_newline s ∷ lines ss

empty_cases :
    (l : List ℕ) → (((length l == 0) ≡ true) × (l ≡ [])) ⊎ (((length l == 0) ≡ false) × (l ≢ []))
empty_cases [] = inl (refl, refl)
empty_cases (c ∷ cs) = inr (ground arith, λ h. cc h)

text_of-kept : {K : Type 0} (out : Option (List ℕ) × K) → (text_of out).1 ≡ out.1
text_of-kept (none, k) = refl
text_of-kept (some line, k) = refl

module _ {K : Type 0} (fd : Descriptor K) (search : Search) where
  write-written :
      (s : List ℕ) (k : K)
      → fd.written (write_data_with_newline fd s k) ≡ fd.written k ++ (with_newline s ∷ [])
  unfolding write_data_with_newline
  write-written s k = fd.write_lem (with_newline s) k

  read-written : (k : K) → fd.written (read_data fd k).1 ≡ fd.written k
  unfolding read_data
  read-written k = elim (Bool-cases (fd.poll k).0) [
    | inl up ↦
        rw (up, text_of-kept (fd.read 512 (fd.poll k).1))
          (fd.read_lem 512 (fd.poll k).1 ∙ fd.poll_lem k)
    | inr down ↦ rw down (fd.poll_lem k)
  ]

  -- What an answer leads to, from the state in which it came.
  abbrev Leads : Bool → List ℕ → List ℕ → K → Authenticated × K → Type 0
  Leads negotiate first second k out =
      (commands : List (List ℕ)) × (fd.written out.1 ≡ fd.written k ++ lines commands)
      × Conforms search first second negotiate out.0 commands

  abbrev agreement : K → List ℕ × K
  agreement k = read_data fd (write_data_with_newline fd negotiate_line k)

  agreement-written :
      (k : K) → fd.written (agreement k).1 ≡ fd.written k ++ (with_newline negotiate_line ∷ [])
  agreement-written k =
      read-written (write_data_with_newline fd negotiate_line k) ∙ write-written negotiate_line k

  negotiate_fd-Leads :
      (first id : List ℕ) (k : K)
      → first ≢ []
      → search ok_regex first ≡ some id
      → Leads true first (agreement k).0 k (negotiate_fd fd search (hex_to_vector id) k)
  unfolding negotiate_fd begin
  negotiate_fd-Leads first id k answer good = elim (empty_cases (agreement k).0) [
    | inl none_came ↦ (
      negotiate_line ∷ [],
      rw none_came.0 (agreement-written k),
      rw none_came.0 (dropped id answer good none_came.1),
    )
    | inr came ↦ (
      negotiate_line ∷ begin_line ∷ [],
      rw came.0 (
          write-written begin_line (agreement k).1
          ∙ ap (λ (w : List (List ℕ)). w ++ (with_newline begin_line ∷ [])) (agreement-written k)
          ∙ append_assoc (fd.written k) (with_newline negotiate_line ∷ [])
              (with_newline begin_line ∷ [])),
      rw came.0 (negotiated id answer good came.1),
    )
  ]

  accepted-Leads :
      (negotiate : Bool) (first id : List ℕ) (k : K)
      → first ≢ []
      → search ok_regex first ≡ some id
      → Leads negotiate first (agreement k).0 k (
          if negotiate
          then negotiate_fd fd search (hex_to_vector id) k
          else begin fd search false (hex_to_vector id) k)
  unfolding begin
  accepted-Leads true first id k answer good = negotiate_fd-Leads first id k answer good
  accepted-Leads false first id k answer good =
      (begin_line ∷ [], write-written begin_line k, accepted id answer good)

  -- The result where the answer is not OK.
  abbrev not_ok : List ℕ → K → Authenticated × K
  not_ok first k =
      if found (search error_regex first)
      then (refused, k)
      else if found (search rejected_regex first)
      then (refused, k)
      else (refused, write_data_with_newline fd error_line k)

  refused-Leads :
      (negotiate : Bool) (first : List ℕ) (k : K)
      → first ≢ []
      → search ok_regex first ≡ none
      → Leads negotiate first (agreement k).0 k (not_ok first k)
  refused-Leads negotiate first k answer no_id =
      elim (Bool-cases (found (search error_regex first))) [
        | inl error ↦
            let same : not_ok first k ≡ (refused, k) = rw error in
            rw same ([], rw append-nil, declined answer no_id (rw error))
        | inr fine ↦ elim (Bool-cases (found (search rejected_regex first))) [
          | inl rejected ↦
              let same : not_ok first k ≡ (refused, k) = rw (fine, rejected) in
              rw same ([], rw append-nil, declined answer no_id (rw (fine, rejected)))
          | inr other ↦
              let same : not_ok first k ≡ (refused, write_data_with_newline fd error_line k) =
                rw (fine, other) in
              rw same (
                error_line ∷ [],
                write-written error_line k,
                not_understood answer no_id fine other,
              )
        ]
      ]

  -- The answer to AUTH, where one came.
  answered-Leads :
      (negotiate : Bool) (first : List ℕ) (k : K)
      → first ≢ []
      → Leads negotiate first (agreement k).0 k (answered fd search negotiate first k)
  unfolding answered begin
  answered-Leads negotiate first k answer = elim (Option-cases (search ok_regex first)) [
    | inr (id, good) ↦ rw (good, answered) (accepted-Leads negotiate first id k answer good)
    | inl no_id ↦ rw (no_id, answered) (refused-Leads negotiate first k answer no_id)
  ]

abbrev answer_of : {K : Type 0} → Descriptor K → ℕ → K → List ℕ × K
answer_of fd uid k = read_data fd (write_data_with_newline fd (auth_line uid) k)

-- Whatever the server answers, authenticate writes the AUTH line and then only the commands
-- that the relation Conforms allows after these answers, in this order, and returns the result
-- that it states: success only behind an OK and with BEGIN as the last command, the passing of
-- descriptors only where it was to be negotiated and the second answer agrees, and the server's
-- identifier where there was an OK.
pub authenticate-Conforms :
    {K : Type 0} (fd : Descriptor K) (search : Search) (uid : ℕ) (negotiate : Bool) (k : K)
    → (commands : List (List ℕ)) × (fd.written (authenticate fd search uid negotiate k).1
        ≡ fd.written k ++ lines (auth_line uid ∷ commands))
      × Conforms search
          (answer_of fd uid k).0
          (read_data fd (write_data_with_newline fd negotiate_line (answer_of fd uid k).1)).0
          negotiate
          (authenticate fd search uid negotiate k).0
          commands
unfolding authenticate
authenticate-Conforms fd search uid negotiate k =
    let asked : fd.written (answer_of fd uid k).1 ≡ fd.written k ++ lines (auth_line uid ∷ []) =
      read-written fd search (write_data_with_newline fd (auth_line uid) k)
      ∙ write-written fd search (auth_line uid) k in
    elim (empty_cases (answer_of fd uid k).0) [
      | inl none_came ↦ ([], rw none_came.0 asked, rw none_came.0 (silent none_came.1))
      | inr came ↦
          let (commands, sent, conforms) =
            answered-Leads fd search negotiate (answer_of fd uid k).0 (answer_of fd uid k).1
              came.1 in
          (
            commands,
            rw came.0 (
                sent
                ∙ ap (λ (w : List (List ℕ)). w ++ lines commands) asked
                ∙ append_assoc (fd.written k) (lines (auth_line uid ∷ [])) (lines commands)),
            rw came.0 conforms,
          )
    ]
