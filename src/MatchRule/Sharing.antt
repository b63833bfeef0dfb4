-- ===== src/MatchRule/Sharing.antt =====
-- The data that a builder shares with its rules (dbus-cxx/matchrule.cpp).
use dbus_cxx.Common.{
  ℕ, zero, suc, ◌≡◌, ◌≢◌, refl, ap, ◌∙◌, List, [], ◌∷◌, Option, some, none, get_elem?, ◌++◌, codes,
}
use dbus_cxx.MatchRule.{
  MatchRuleData, Heap, RuleKind, signal_rule, method_call_rule, method_return_rule, error_rule,
  part, changed, set_path, set_interface, set_member, set_sender, set_destination, as_match,
  type_name, rule_text, match_rule,
}

-- What is done with a builder.
pub data Call : Type 0 where
  with_path with_interface with_member with_sender with_destination : List ℕ → Call
  made : RuleKind → Call

abbrev pub call : Call → ℕ → Heap → Heap
call (with_path s) b h = set_path s b h
call (with_interface s) b h = set_interface s b h
call (with_member s) b h = set_member s b h
call (with_sender s) b h = set_sender s b h
call (with_destination s) b h = set_destination s b h
call (made k) b h = (as_match k b h).1

abbrev pub calls : List Call → ℕ → Heap → Heap
calls [] b h = h
calls (c ∷ cs) b h = calls cs b (call c b h)

get_elem?-changed :
    (f : MatchRuleData → MatchRuleData) (b : ℕ) (h : Heap) (d : MatchRuleData)
    → get_elem? h b ≡ some d
    → get_elem? (changed f b h) b ≡ some (f d)
unfolding changed
get_elem?-changed f b [] d there = cc there
get_elem?-changed f zero (e ∷ h) d there =
    ap (λ (o : Option MatchRuleData). elim o [ none ↦ none | some x ↦ some (f x) ]) there
get_elem?-changed f (suc b) (e ∷ h) d there = get_elem?-changed f b h d there

get_elem?-changed_other :
    (f : MatchRuleData → MatchRuleData) (r b : ℕ) (h : Heap)
    → r ≢ b
    → get_elem? (changed f b h) r ≡ get_elem? h r
unfolding changed
get_elem?-changed_other f r b [] other = refl
get_elem?-changed_other f zero zero (e ∷ h) other = absurd (other refl)
get_elem?-changed_other f zero (suc b) (e ∷ h) other = refl
get_elem?-changed_other f (suc r) zero (e ∷ h) other = refl
get_elem?-changed_other f (suc r) (suc b) (e ∷ h) other =
    get_elem?-changed_other f r b h (λ same. other (ap (λ (n : ℕ). suc n) same))

call-other : (c : Call) (r b : ℕ) (h : Heap) → r ≢ b → get_elem? (call c b h) r ≡ get_elem? h r
unfolding set_path set_interface set_member set_sender set_destination as_match
call-other (with_path s) r b h other = get_elem?-changed_other _ r b h other
call-other (with_interface s) r b h other = get_elem?-changed_other _ r b h other
call-other (with_member s) r b h other = get_elem?-changed_other _ r b h other
call-other (with_sender s) r b h other = get_elem?-changed_other _ r b h other
call-other (with_destination s) r b h other = get_elem?-changed_other _ r b h other
call-other (made k) r b h other = get_elem?-changed_other _ r b h other

calls-other :
    (cs : List Call) (r b : ℕ) (h : Heap) → r ≢ b → get_elem? (calls cs b h) r ≡ get_elem? h r
calls-other [] r b h other = refl
calls-other (c ∷ cs) r b h other = calls-other cs r b (call c b h) other ∙ call-other c r b h other

abbrev text_at : Option MatchRuleData → Option (List ℕ)
text_at o = elim o [ none ↦ none | some d ↦ some (rule_text d) ]

-- What each call gives to the parts of a rule.
abbrev pub type_of : Call → Option (List ℕ)
type_of (made signal_rule) = some (codes "signal")
type_of (made method_call_rule) = some (codes "method_call")
type_of (made method_return_rule) = some (codes "method_return")
type_of (made error_rule) = some (codes "error")
type_of _ = none

abbrev interface_of : Call → Option (List ℕ)
interface_of (with_interface s) = some s
interface_of _ = none

abbrev member_of : Call → Option (List ℕ)
member_of (with_member s) = some s
member_of _ = none

abbrev sender_of : Call → Option (List ℕ)
sender_of (with_sender s) = some s
sender_of _ = none

abbrev path_of : Call → Option (List ℕ)
path_of (with_path s) = some s
path_of _ = none

abbrev destination_of : Call → Option (List ℕ)
destination_of (with_destination s) = some s
destination_of _ = none

abbrev given : Option (List ℕ) → List ℕ → List ℕ
given none old = old
given (some s) old = s

-- What the last call gave that gave anything, or what was there before.
abbrev last_of : (Call → Option (List ℕ)) → List ℕ → List Call → List ℕ
last_of part old [] = old
last_of part old (c ∷ cs) = last_of part (given (part c) old) cs

-- A part with its key, which is left out where it is empty.
abbrev keyed : List ℕ → List ℕ → List ℕ
keyed key [] = []
keyed key (c ∷ cs) = codes "," ++ key ++ codes "='" ++ (c ∷ cs) ++ codes "'"

-- The rule that the calls on a builder with data `d` lead to.
abbrev text_after : List Call → MatchRuleData → List ℕ
text_after cs d =
    codes "type='"
    ++ last_of type_of d.rule_type cs
    ++ codes "'"
    ++ keyed (codes "interface") (last_of interface_of d.interface_name cs)
    ++ keyed (codes "member") (last_of member_of d.member cs)
    ++ keyed (codes "sender") (last_of sender_of d.sender cs)
    ++ keyed (codes "path") (last_of path_of d.path cs)
    ++ keyed (codes "destination") (last_of destination_of d.destination cs)

part-keyed : (key s : List ℕ) → part key s ≡ keyed key s
part-keyed key [] = refl
part-keyed key (c ∷ cs) = refl

rule_text-after : (d : MatchRuleData) → rule_text d ≡ text_after [] d
unfolding rule_text
rule_text-after d =
    rw
      (
        part-keyed (codes "interface") d.interface_name,
        part-keyed (codes "member") d.member,
        part-keyed (codes "sender") d.sender,
        part-keyed (codes "path") d.path,
        part-keyed (codes "destination") d.destination,
      )
      refl

calls-text :
    (cs : List Call) (b : ℕ) (h : Heap) (d : MatchRuleData)
    → get_elem? h b ≡ some d
    → text_at (get_elem? (calls cs b h) b) ≡ some (text_after cs d)
unfolding set_path set_interface set_member set_sender set_destination as_match type_name
calls-text [] b h d there = rw there (ap (λ (t : List ℕ). some t) (rule_text-after d))
calls-text (with_path s ∷ cs) b h d there =
    calls-text cs b _ (record d { path = s }) (get_elem?-changed _ b h d there)
calls-text (with_interface s ∷ cs) b h d there =
    calls-text cs b _ (record d { interface_name = s }) (get_elem?-changed _ b h d there)
calls-text (with_member s ∷ cs) b h d there =
    calls-text cs b _ (record d { member = s }) (get_elem?-changed _ b h d there)
calls-text (with_sender s ∷ cs) b h d there =
    calls-text cs b _ (record d { sender = s }) (get_elem?-changed _ b h d there)
calls-text (with_destination s ∷ cs) b h d there =
    calls-text cs b _ (record d { destination = s }) (get_elem?-changed _ b h d there)
calls-text (made signal_rule ∷ cs) b h d there =
    calls-text cs b _ (record d { rule_type = codes "signal" }) (get_elem?-changed _ b h d there)
calls-text (made method_call_rule ∷ cs) b h d there =
    calls-text cs b _ (record d { rule_type = codes "method_call" })
      (get_elem?-changed _ b h d there)
calls-text (made method_return_rule ∷ cs) b h d there =
    calls-text cs b _ (record d { rule_type = codes "method_return" })
      (get_elem?-changed _ b h d there)
calls-text (made error_rule ∷ cs) b h d there =
    calls-text cs b _ (record d { rule_type = codes "error" }) (get_elem?-changed _ b h d there)

-- Whatever is called on a builder that has data, its setters and the makers of rules in any
-- order, the text of its rules then has the type of the last rule made, behind it the
-- interface, member, sender, path and destination that were each set last, with those left out
-- that are empty, and what nothing was called for as it was; and the text of a rule of another
-- builder stays as it is.
pub match_rule-calls :
    (cs : List Call) (r b : ℕ) (h : Heap) (d : MatchRuleData)
    → r ≢ b
    → get_elem? h b ≡ some d
    → (match_rule b (calls cs b h) ≡ some (text_after cs d))
      × (match_rule r (calls cs b h) ≡ match_rule r h)
unfolding match_rule
match_rule-calls cs r b h d other there =
    (calls-text cs b h d there, ap text_at (calls-other cs r b h other))

-- Where a builder has data, a rule that it makes gives, as soon as the builder has made a rule
-- of a second kind, the text of a rule of that second kind.
pub match_rule-as_match :
    (first second : RuleKind) (b : ℕ) (h : Heap) (d : MatchRuleData)
    → get_elem? h b ≡ some d
    → match_rule (as_match first b h).0 (as_match second b (as_match first b h).1).1
      ≡ some (rule_text (record d { rule_type = type_name second }))
unfolding match_rule as_match
match_rule-as_match first second b h d there = ap text_at (
    get_elem?-changed (λ e. record e { rule_type = type_name second }) b
      (changed (λ e. record e { rule_type = type_name first }) b h)
      (record d { rule_type = type_name first })
      (get_elem?-changed (λ e. record e { rule_type = type_name first }) b h d there))
