-- ===== src/Router/Order.antt =====
-- The order of the rules: sortRules of src/service_broker/Services/EventRouter.cpp.
use rdws_us.Prelude.{
  String, false, Option, none, some, List, [], ◌∷◌, ◌≡◌, refl, ap, ◌∙◌, ◌==◌, arith, eq_iff,
  if◌then◌else◌, All, All-map, find_if, Bool-cases, inl, inr,
}
use rdws_us.Prelude.Int.{ltb_ℤ}
use rdws_us.Router.Codec.{RoutingRule}
use rdws_us.Router.Defs.{insert_rule, sort_rules, erase_first}

-- No rule of the list has a higher priority than `x`.
abbrev pub NoneAbove : RoutingRule → List RoutingRule → Type 0
NoneAbove x = All (λ y. ltb_ℤ x.priority y.priority ≡ false)

abbrev pub IsSorted : List RoutingRule → Type 0
IsSorted [] = Unit
IsSorted (x ∷ rules) = NoneAbove x rules × IsSorted rules

All-insert_rule {κ} :
    (P : RoutingRule → Type κ) (x : RoutingRule) (rules : List RoutingRule)
    → P x
    → All P rules
    → All P (insert_rule x rules)
unfolding insert_rule
All-insert_rule P x [] h a = (h, tt)
All-insert_rule P x (y ∷ rules) h a = elim (Bool-cases (ltb_ℤ x.priority y.priority)) [
  | inl below ↦ rw below (a.0, All-insert_rule P x rules h a.1)
  | inr above ↦ rw above (h, a)
]

NoneAbove-trans :
    (x y : RoutingRule) (rules : List RoutingRule)
    → ltb_ℤ x.priority y.priority ≡ false
    → NoneAbove y rules
    → NoneAbove x rules
NoneAbove-trans x y rules h a = All-map _ _ rules (λ z below. ground arith) a

insert_rule-IsSorted :
    (x : RoutingRule) (rules : List RoutingRule) → IsSorted rules → IsSorted (insert_rule x rules)
unfolding insert_rule
insert_rule-IsSorted x [] s = (tt, tt)
insert_rule-IsSorted x (y ∷ rules) s = elim (Bool-cases (ltb_ℤ x.priority y.priority)) [
  | inl below ↦
      rw below (All-insert_rule _ x rules (ground arith) s.0, insert_rule-IsSorted x rules s.1)
  | inr above ↦ rw above ((above, NoneAbove-trans x y rules above s.0), s)
]

pub sort_rules-IsSorted : (rules : List RoutingRule) → IsSorted (sort_rules rules)
unfolding sort_rules
sort_rules-IsSorted [] = tt
sort_rules-IsSorted (x ∷ rules) =
    insert_rule-IsSorted x (sort_rules rules) (sort_rules-IsSorted rules)

insert_rule_first :
    (x : RoutingRule) (rules : List RoutingRule)
    → NoneAbove x rules
    → insert_rule x rules ≡ x ∷ rules
unfolding insert_rule
insert_rule_first x [] a = refl
insert_rule_first x (y ∷ rules) a = rw a.0

-- Sorting leaves a sorted list as it is.
pub sort_rules_sorted : (rules : List RoutingRule) → IsSorted rules → sort_rules rules ≡ rules
unfolding sort_rules
sort_rules_sorted [] s = refl
sort_rules_sorted (x ∷ rules) s =
    ap (insert_rule x) (sort_rules_sorted rules s.1) ∙ insert_rule_first x rules s.0

All-erase_first {κ} :
    (P : RoutingRule → Type κ) (id : String) (rules : List RoutingRule)
    → All P rules
    → All P (erase_first id rules)
unfolding erase_first
All-erase_first P id [] a = tt
All-erase_first P id (x ∷ rules) a = elim (Bool-cases (x.id == id)) [
  | inl hit ↦ rw hit a.1
  | inr miss ↦ rw miss (a.0, All-erase_first P id rules a.1)
]

pub erase_first-IsSorted :
    (id : String) (rules : List RoutingRule) → IsSorted rules → IsSorted (erase_first id rules)
unfolding erase_first
erase_first-IsSorted id [] s = tt
erase_first-IsSorted id (x ∷ rules) s = elim (Bool-cases (x.id == id)) [
  | inl hit ↦ rw hit s.1
  | inr miss ↦ rw miss (All-erase_first _ id rules s.0, erase_first-IsSorted id rules s.1)
]

-- The first rule with an id.
abbrev pub find_rule : String → List RoutingRule → Option RoutingRule
find_rule id = find_if (λ x. x.id == id)

-- No id stands twice.
abbrev pub HasDistinctIds : List RoutingRule → Type 0
HasDistinctIds [] = Unit
HasDistinctIds (x ∷ rules) = (find_rule x.id rules ≡ none) × HasDistinctIds rules

find-insert_rule :
    (id : String) (x : RoutingRule) (rules : List RoutingRule)
    → find_rule x.id rules ≡ none
    → find_rule id (insert_rule x rules) ≡ (if x.id == id then some x else find_rule id rules)
unfolding insert_rule find_if
find-insert_rule id x [] h = refl
find-insert_rule id x (y ∷ rules) h =
    ground (arith, find-insert_rule id x rules, eq_iff x.id id, eq_iff y.id x.id, eq_iff y.id id)

-- Sorting does not change what is found under an id.
pub find-sort_rules :
    (id : String) (rules : List RoutingRule)
    → HasDistinctIds rules
    → find_rule id (sort_rules rules) ≡ find_rule id rules
unfolding sort_rules find_if
find-sort_rules id [] d = refl
find-sort_rules id (x ∷ rules) d = ground (
  arith,
  find-insert_rule id x (sort_rules rules),
  find-sort_rules x.id rules d.1,
  find-sort_rules id rules d.1,
  d.0,
)
