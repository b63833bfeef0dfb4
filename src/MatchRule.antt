-- ===== src/MatchRule.antt =====
-- The rules of dbus-cxx/matchrule.cpp. A builder and its rules point to one MatchRuleData: the heap is
-- the list of these, and a builder or a rule is the index of its data.
pub mod Sharing
mod Examples
use dbus_cxx.Common.{
  ℕ, zero, suc, List, [], ◌∷◌, ◌++◌, Option, some, none, length, get_elem?, codes,
}

pub record MatchRuleData : Type 0 where
  pub rule_type : List ℕ
  pub path : List ℕ
  pub interface_name : List ℕ
  pub member : List ℕ
  pub sender : List ℕ
  pub destination : List ℕ

abbrev pub Heap : Type 0
Heap = List MatchRuleData

-- The heap with the data at a place changed.
unfoldable pub changed : (MatchRuleData → MatchRuleData) → ℕ → Heap → Heap
changed f p [] = []
changed f zero (d ∷ ds) = f d ∷ ds
changed f (suc p) (d ∷ ds) = d ∷ changed f p ds

-- The builder, and the heap with its data.
unfoldable pub create : Heap → ℕ × Heap
create h = (
  length h,
  h
      ++ (record {
        rule_type = [];
        path = [];
        interface_name = [];
        member = [];
        sender = [];
        destination = [];
      }
          ∷ []),
)

unfoldable pub set_path : List ℕ → ℕ → Heap → Heap
unfolding changed
set_path s b h = changed (λ d. record d { path = s }) b h

unfoldable pub set_interface : List ℕ → ℕ → Heap → Heap
unfolding changed
set_interface s b h = changed (λ d. record d { interface_name = s }) b h

unfoldable pub set_member : List ℕ → ℕ → Heap → Heap
unfolding changed
set_member s b h = changed (λ d. record d { member = s }) b h

unfoldable pub set_sender : List ℕ → ℕ → Heap → Heap
unfolding changed
set_sender s b h = changed (λ d. record d { sender = s }) b h

unfoldable pub set_destination : List ℕ → ℕ → Heap → Heap
unfolding changed
set_destination s b h = changed (λ d. record d { destination = s }) b h

-- The four classes of rules.
pub data RuleKind : Type 0 where
  signal_rule method_call_rule method_return_rule error_rule : RuleKind

unfoldable pub type_name : RuleKind → List ℕ
type_name signal_rule = codes "signal"
type_name method_call_rule = codes "method_call"
type_name method_return_rule = codes "method_return"
type_name error_rule = codes "error"

-- `as_signal_match` and its kin: the rule has the builder's data, where its constructor sets the type.
unfoldable pub as_match : RuleKind → ℕ → Heap → ℕ × Heap
unfolding changed
as_match k b h = (b, changed (λ d. record d { rule_type = type_name k }) b h)

abbrev pub part : List ℕ → List ℕ → List ℕ
part key [] = []
part key (c ∷ cs) = codes "," ++ key ++ codes "='" ++ (c ∷ cs) ++ codes "'"

unfoldable pub rule_text : MatchRuleData → List ℕ
rule_text d =
    codes "type='"
    ++ d.rule_type
    ++ codes "'"
    ++ part (codes "interface") d.interface_name
    ++ part (codes "member") d.member
    ++ part (codes "sender") d.sender
    ++ part (codes "path") d.path
    ++ part (codes "destination") d.destination

-- `match_rule`; `none` is a pointer to nothing.
unfoldable pub match_rule : ℕ → Heap → Option (List ℕ)
match_rule r h = elim (get_elem? h r) [ none ↦ none | some d ↦ some (rule_text d) ]
