-- ===== src/MatchRule/Examples.antt =====
-- Two builders and their rules (dbus-cxx/matchrule.cpp).
use dbus_cxx.Common.{ℕ, ◌≡◌, refl, List, [], ◌∷◌, some, codes}
use dbus_cxx.MatchRule.{
  MatchRuleData, Heap, as_match, match_rule, rule_text, type_name, signal_rule, error_rule,
}
use dbus_cxx.MatchRule.Sharing.{Call, with_path, made, calls, match_rule-calls, match_rule-as_match}

abbrev data_of : List ℕ → MatchRuleData
data_of p = record {
  rule_type = codes "signal";
  path = p;
  interface_name = [];
  member = [];
  sender = [];
  destination = [];
}

abbrev two : Heap
two = data_of (codes "/a") ∷ data_of (codes "/b") ∷ []

abbrev steps : List Call
steps = with_path (codes "/c") ∷ made error_rule ∷ []

match_rule-calls_example :
    (match_rule 1 (calls steps 1 two) ≡ some (codes "type='error',path='/c'"))
    × (match_rule 0 (calls steps 1 two) ≡ match_rule 0 two)
match_rule-calls_example = match_rule-calls steps 0 1 two (data_of (codes "/b")) (λ e. cc e) refl

match_rule-as_match_example :
    match_rule
      (as_match signal_rule 1 two).0
      (as_match error_rule 1 (as_match signal_rule 1 two).1).1
    ≡ some (rule_text (record (data_of (codes "/b")) { rule_type = type_name error_rule }))
match_rule-as_match_example =
    match_rule-as_match signal_rule error_rule 1 two (data_of (codes "/b")) refl
