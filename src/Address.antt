-- ===== src/Address.antt =====
-- parseTransports of dbus-cxx/transport.cpp: the addresses of a bus, such as
-- `unix:path=/run/bus,guid=1;tcp:host=a`. A string is the list of its characters' codes.
pub mod Written
pub mod RoundTrip
mod Examples
use dbus_cxx.Common.{
  same_text, ℕ, List, [], ◌∷◌, ◌++◌, Bool, true, false, ◌&&◌, ◌==◌, if◌then◌else◌,
}

-- `std::map<std::string, std::string>`: its entries, in the order in which their keys came.
abbrev pub Config : Type 0
Config = List (List ℕ × List ℕ)

-- `config[ key ] = value`
unfoldable pub put : List ℕ → List ℕ → Config → Config
put key value [] = (key, value) ∷ []
put key value ((k, v) ∷ config) =
    if same_text k key then (k, value) ∷ config else (k, v) ∷ put key value config

pub record ParsedTransport : Type 0 where
  pub transport_name : List ℕ
  pub config : Config

pub data ParsingState : Type 0 where
  parsing_transport_name : ParsingState
  parsing_key : ParsingState
  parsing_value : ParsingState

-- The local variables of the loop.
pub record Parsing : Type 0 where
  pub state : ParsingState
  pub tmp_name : List ℕ
  pub tmp_key : List ℕ
  pub tmp_value : List ℕ
  pub tmp_config : Config
  pub retval : List ParsedTransport

abbrev pub start : Parsing
start = record {
  state = parsing_transport_name;
  tmp_name = [];
  tmp_key = [];
  tmp_value = [];
  tmp_config = [];
  retval = [];
}

-- The transport that is pushed: the configuration with the entry that is being read.
abbrev pub pushed : Parsing → ParsedTransport
pushed p = record { transport_name = p.tmp_name; config = put p.tmp_key p.tmp_value p.tmp_config }

-- The body of the loop in each state.
unfoldable pub step : ParsingState → ℕ → Parsing → Parsing
step parsing_transport_name c p =
    if c == b':'
    then record p { state = parsing_key }
    else record p { tmp_name = p.tmp_name ++ (c ∷ []) }
step parsing_key c p =
    if c == b'='
    then record p { state = parsing_value }
    else record p { tmp_key = p.tmp_key ++ (c ∷ []) }
step parsing_value c p =
    if c == b','
    then record p {
      state = parsing_key;
      tmp_config = put p.tmp_key p.tmp_value p.tmp_config;
      tmp_key = [];
      tmp_value = [];
    }
    else if c == b';'
    then record {
      state = parsing_transport_name;
      tmp_name = [];
      tmp_key = [];
      tmp_value = [];
      tmp_config = [];
      retval = p.retval ++ (pushed p ∷ []);
    }
    else record p { tmp_value = p.tmp_value ++ (c ∷ []) }

unfoldable pub run : List ℕ → Parsing → Parsing
run [] p = p
run (c ∷ cs) p = run cs (step p.state c p)

-- What is left at the end of the text is pushed where it has a name.
unfoldable pub finish : Parsing → List ParsedTransport
finish p = elim p.tmp_name [ [] ↦ p.retval | _ ∷ _ ↦ p.retval ++ (pushed p ∷ []) ]

unfoldable pub parse_transports : List ℕ → List ParsedTransport
parse_transports address = finish (run address start)
