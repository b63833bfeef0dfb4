-- ===== src/Address/RoundTrip.antt =====
-- The parser of dbus-cxx/transport.cpp over addresses in the syntax of the D-Bus specification.
use dbus_cxx.Common.{
  ℕ, ◌≡◌, refl, ap, ◌∙◌, List, [], ◌∷◌, ◌++◌, append_assoc, append-nil, All, Bool, false, ◌==◌,
  if◌then◌else◌,
}
use dbus_cxx.Address.{
  Config, put, ParsedTransport, Parsing, ParsingState, parsing_transport_name, parsing_key,
  parsing_value, step, run, finish, parse_transports,
}
use dbus_cxx.Address.Written.{
  Without, IsEntry, IsNew, AreNew, Address, name_of, IsAddress, entry_text, entries_text,
  address_text, more_text, transport_of, transports_of,
}

put_new :
    (k v : List ℕ) (config : Config) → IsNew k config → put k v config ≡ config ++ ((k, v) ∷ [])
unfolding put
put_new k v [] h = refl
put_new k v ((j, w) ∷ config) (h, hs) = rw (h, put_new k v config hs)

module _ (retval : List ParsedTransport) where
  abbrev at : ParsingState → List ℕ → List ℕ → List ℕ → Config → Parsing
  at s n k v c = record {
    state = s;
    tmp_name = n;
    tmp_key = k;
    tmp_value = v;
    tmp_config = c;
    retval = retval;
  }

  value_stays :
      (n k v : List ℕ) (d : ℕ) (c : Config)
      → (d == b',') ≡ false
      → (d == b';') ≡ false
      → step parsing_value d (at parsing_value n k v c) ≡ at parsing_value n k (v ++ (d ∷ [])) c
  unfolding step
  value_stays n k v d c h g = rw (h, g)

  name_step :
      (n cs : List ℕ) (c : ℕ)
      → (c == b':') ≡ false
      → run (c ∷ cs) (at parsing_transport_name n [] [] [])
        ≡ run cs (at parsing_transport_name (n ++ (c ∷ [])) [] [] [])
  unfolding run step
  name_step n cs c h =
      ap
        (λ (b : Bool). run cs (
          if b
          then at parsing_key n [] [] []
          else at parsing_transport_name (n ++ (c ∷ [])) [] [] []))
        h

  key_step :
      (n k cs : List ℕ) (d : ℕ) (c : Config)
      → (d == b'=') ≡ false
      → run (d ∷ cs) (at parsing_key n k [] c) ≡ run cs (at parsing_key n (k ++ (d ∷ [])) [] c)
  unfolding run step
  key_step n k cs d c h =
      ap
        (λ (b : Bool).
          run cs (if b then at parsing_value n k [] c else at parsing_key n (k ++ (d ∷ [])) [] c))
        h

  value_step :
      (n k v cs : List ℕ) (d : ℕ) (c : Config)
      → (d == b',') ≡ false
      → (d == b';') ≡ false
      → run (d ∷ cs) (at parsing_value n k v c) ≡ run cs (at parsing_value n k (v ++ (d ∷ [])) c)
  value_step n k v cs d c h g = unfold run in ap (run cs) (value_stays n k v d c h g)

  name_run :
      (n m rest : List ℕ)
      → Without b':' m
      → run (m ++ rest) (at parsing_transport_name n [] [] [])
        ≡ run rest (at parsing_transport_name (n ++ m) [] [] [])
  name_run n [] rest h = rw append-nil
  name_run n (c ∷ m) rest (h, hs) =
      rw
        (name_step n (m ++ rest) c h, name_run (n ++ (c ∷ [])) m rest hs, append_assoc n (c ∷ []) m)

  key_run :
      (n k m rest : List ℕ) (c : Config)
      → Without b'=' m
      → run (m ++ rest) (at parsing_key n k [] c) ≡ run rest (at parsing_key n (k ++ m) [] c)
  key_run n k [] rest c h = rw append-nil
  key_run n k (d ∷ m) rest c (h, hs) = rw (
    key_step n k (m ++ rest) d c h,
    key_run n (k ++ (d ∷ [])) m rest c hs,
    append_assoc k (d ∷ []) m,
  )

  value_run :
      (n k v m rest : List ℕ) (c : Config)
      → Without b',' m
      → Without b';' m
      → run (m ++ rest) (at parsing_value n k v c) ≡ run rest (at parsing_value n k (v ++ m) c)
  value_run n k v [] rest c h g = rw append-nil
  value_run n k v (d ∷ m) rest c (h, hs) (g, gs) = rw (
    value_step n k v (m ++ rest) d c h g,
    value_run n k (v ++ (d ∷ [])) m rest c hs gs,
    append_assoc v (d ∷ []) m,
  )

  colon :
      (n rest : List ℕ)
      → run (b':' ∷ rest) (at parsing_transport_name n [] [] [])
        ≡ run rest (at parsing_key n [] [] [])
  unfolding run step
  colon n rest = refl

  equals :
      (n k rest : List ℕ) (c : Config)
      → run (b'=' ∷ rest) (at parsing_key n k [] c) ≡ run rest (at parsing_value n k [] c)
  unfolding run step
  equals n k rest c = refl

  comma :
      (n : List ℕ) (c : Config) (e : List ℕ × List ℕ) (rest : List ℕ)
      → IsNew e.0 c
      → run (b',' ∷ rest) (at parsing_value n e.0 e.1 c)
        ≡ run rest (at parsing_key n [] [] (c ++ (e ∷ [])))
  unfolding run step
  comma n c e rest new = rw (put_new e.0 e.1 c new)

  entry_run :
      (n : List ℕ) (e : List ℕ × List ℕ) (rest : List ℕ) (c : Config)
      → IsEntry e
      → run (entry_text e ++ rest) (at parsing_key n [] [] c)
        ≡ run rest (at parsing_value n e.0 e.1 c)
  entry_run n (k, v) rest c (h, hv, hw) = rw (
    append_assoc k (b'=' ∷ v) rest,
    key_run n [] k (b'=' ∷ (v ++ rest)) c h,
    equals n k (v ++ rest) c,
    value_run n k [] v rest c hv hw,
  )

  -- The state behind the entries `e ∷ es`, when those of `c` came before.
  abbrev ended : List ℕ → Config → List ℕ × List ℕ → Config → Parsing
  ended n c e [] = at parsing_value n e.0 e.1 c
  ended n c e (f ∷ es) = ended n (c ++ (e ∷ [])) f es

  entries_run :
      (n : List ℕ) (c : Config) (e : List ℕ × List ℕ) (es : Config) (rest : List ℕ)
      → All IsEntry es
      → AreNew c (e ∷ es)
      → run (entries_text es ++ rest) (at parsing_value n e.0 e.1 c) ≡ run rest (ended n c e es)
  entries_run n c e [] rest h new = refl
  entries_run n c e (f ∷ es) rest (h, hs) (new, news) =
      rw
        (
          comma n c e (entry_text f ++ entries_text es ++ rest) new,
          append_assoc (entry_text f) (entries_text es) rest,
          entry_run n f (entries_text es ++ rest) (c ++ (e ∷ [])) h,
        )
        (entries_run n (c ++ (e ∷ [])) f es rest hs news)

  abbrev next_start : ParsedTransport → Parsing
  next_start t = record {
    state = parsing_transport_name;
    tmp_name = [];
    tmp_key = [];
    tmp_value = [];
    tmp_config = [];
    retval = retval ++ (t ∷ []);
  }

  last_semicolon :
      (n : List ℕ) (c : Config) (e : List ℕ × List ℕ) (rest : List ℕ)
      → IsNew e.0 c
      → run (b';' ∷ rest) (at parsing_value n e.0 e.1 c)
        ≡ run rest (next_start (record { transport_name = n; config = c ++ (e ∷ []) }))
  unfolding run step
  last_semicolon n c e rest new = rw (put_new e.0 e.1 c new)

  semicolon_run :
      (n : List ℕ) (c : Config) (e : List ℕ × List ℕ) (es : Config) (rest : List ℕ)
      → AreNew c (e ∷ es)
      → run (b';' ∷ rest) (ended n c e es)
        ≡ run rest (next_start (record { transport_name = n; config = c ++ (e ∷ es) }))
  semicolon_run n c e [] rest (new, _) = last_semicolon n c e rest new
  semicolon_run n c e (f ∷ es) rest (new, news) =
      semicolon_run n (c ++ (e ∷ [])) f es rest news ∙ rw (append_assoc c (e ∷ []) (f ∷ es))

  finish-ended :
      (l : ℕ) (n : List ℕ) (c : Config) (e : List ℕ × List ℕ) (es : Config)
      → AreNew c (e ∷ es)
      → finish (ended (l ∷ n) c e es)
        ≡ retval ++ (record { transport_name = l ∷ n; config = c ++ (e ∷ es) } ∷ [])
  unfolding finish
  finish-ended l n c e [] (new, _) = rw (put_new e.0 e.1 c new)
  finish-ended l n c e (f ∷ es) (new, news) =
      finish-ended l n (c ++ (e ∷ [])) f es news ∙ rw (append_assoc c (e ∷ []) (f ∷ es))

  address_run :
      (a : Address) (rest : List ℕ)
      → IsAddress a
      → run (address_text a ++ rest) (at parsing_transport_name [] [] [] [])
        ≡ run rest (ended (name_of a) [] a.entry a.entries)
  address_run a rest (named, first, others, new) =
      let behind : List ℕ = entry_text a.entry ++ entries_text a.entries ++ rest in
      rw
        (
          append_assoc (name_of a) (b':' ∷ (entry_text a.entry ++ entries_text a.entries)) rest,
          name_run [] (name_of a) (b':' ∷ behind) named,
          colon (name_of a) behind,
          append_assoc (entry_text a.entry) (entries_text a.entries) rest,
          entry_run (name_of a) a.entry (entries_text a.entries ++ rest) [] first,
        )
        (entries_run (name_of a) [] a.entry a.entries rest others new)

run_end : (p : Parsing) → run [] p ≡ p
unfolding run
run_end p = refl

addresses_run :
    (a : Address) (more : List Address) (retval : List ParsedTransport)
    → All IsAddress (a ∷ more)
    → finish (run (address_text a ++ more_text more) (at retval parsing_transport_name [] [] [] []))
      ≡ retval ++ transports_of (a ∷ more)
addresses_run a [] retval (h, _) =
    rw (address_run retval a [] h, run_end (ended retval (name_of a) [] a.entry a.entries))
      (finish-ended retval a.letter a.letters [] a.entry a.entries h.3)
addresses_run a (b ∷ more) retval (h, hs) =
    rw
      (
        address_run retval a (more_text (b ∷ more)) h,
        semicolon_run retval (name_of a) [] a.entry a.entries (address_text b ++ more_text more)
            h.3,
        addresses_run b more (retval ++ (transport_of a ∷ [])) hs,
      )
      (append_assoc retval (transport_of a ∷ []) (transports_of (b ∷ more)))

-- Addresses written one after the other, semicolons between them, are parsed as they are, in
-- order: each has a name without a colon and one or more entries in order, the keys different
-- and without an equals sign, the values without a comma or a semicolon.
pub parse_transports-address_text :
    (a : Address) (more : List Address)
    → All IsAddress (a ∷ more)
    → parse_transports (address_text a ++ more_text more) ≡ transports_of (a ∷ more)
unfolding parse_transports
parse_transports-address_text a more h = addresses_run a more [] h
