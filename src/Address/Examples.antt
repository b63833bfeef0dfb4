-- ===== src/Address/Examples.antt =====
-- The theorem on addresses at `u:p=x,g=1;t:h=a`.
use dbus_cxx.Common.{◌≡◌, refl, [], ◌∷◌, ◌++◌}
use dbus_cxx.Address.{parse_transports}
use dbus_cxx.Address.Written.{Address, address_text, more_text, transports_of}
use dbus_cxx.Address.RoundTrip.{parse_transports-address_text}

abbrev first : Address
first = record {
  letter = b'u';
  letters = [];
  entry = (b'p' ∷ [], b'x' ∷ []);
  entries = (b'g' ∷ [], b'1' ∷ []) ∷ [];
}

abbrev second : Address
second = record { letter = b't'; letters = []; entry = (b'h' ∷ [], b'a' ∷ []); entries = [] }

parse_transports-address_text_example :
    parse_transports (address_text first ++ more_text (second ∷ []))
    ≡ transports_of (first ∷ second ∷ [])
parse_transports-address_text_example = parse_transports-address_text first (second ∷ []) (
  (
    (refl, tt),
    ((refl, tt), (refl, tt), (refl, tt)),
    (((refl, tt), (refl, tt), (refl, tt)), tt),
    (tt, ((refl, tt), tt)),
  ),
  (((refl, tt), ((refl, tt), (refl, tt), (refl, tt)), tt, (tt, tt)), tt),
)
