-- ===== src/Address/Written.antt =====
-- Addresses as they are written, and the transports that they name.
use dbus_cxx.Common.{same_text, ℕ, ◌≡◌, List, [], ◌∷◌, ◌++◌, All, false, ◌==◌}
use dbus_cxx.Address.{Config, ParsedTransport}

-- The characters that end a name, a key and a value are not in them.
abbrev pub Without : ℕ → List ℕ → Type 0
Without d cs = All (λ (c : ℕ). (c == d) ≡ false) cs

abbrev pub IsEntry : List ℕ × List ℕ → Type 0
IsEntry (k, v) = Without b'=' k × Without b',' v × Without b';' v

-- No two keys are the same.
abbrev pub IsNew : List ℕ → Config → Type 0
IsNew key config = All (λ (e : List ℕ × List ℕ). same_text e.0 key ≡ false) config

abbrev pub AreNew : Config → Config → Type 0
AreNew prior [] = Unit {0}
AreNew prior (e ∷ es) = IsNew e.0 prior × AreNew (prior ++ (e ∷ [])) es

-- An address: a name, an entry and further ones.
pub record Address : Type 0 where
  pub letter : ℕ
  pub letters : List ℕ
  pub entry : List ℕ × List ℕ
  pub entries : Config

abbrev pub name_of : Address → List ℕ
name_of a = a.letter ∷ a.letters

abbrev pub IsAddress : Address → Type 0
IsAddress a =
    Without b':' (name_of a)
    × IsEntry a.entry
    × All IsEntry a.entries
    × AreNew [] (a.entry ∷ a.entries)

abbrev pub entry_text : List ℕ × List ℕ → List ℕ
entry_text (k, v) = k ++ (b'=' ∷ v)

abbrev pub entries_text : Config → List ℕ
entries_text [] = []
entries_text (e ∷ es) = b',' ∷ (entry_text e ++ entries_text es)

abbrev pub address_text : Address → List ℕ
address_text a = name_of a ++ (b':' ∷ (entry_text a.entry ++ entries_text a.entries))

-- Semicolons stand between the addresses.
abbrev pub more_text : List Address → List ℕ
more_text [] = []
more_text (a ∷ more) = b';' ∷ (address_text a ++ more_text more)

abbrev pub transport_of : Address → ParsedTransport
transport_of a = record { transport_name = name_of a; config = a.entry ∷ a.entries }

abbrev pub transports_of : List Address → List ParsedTransport
transports_of [] = []
transports_of (a ∷ more) = transport_of a ∷ transports_of more
