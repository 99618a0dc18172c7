-- ===== src/Router/Defs.antt =====
-- The rules of src/service_broker/Services/EventRouter.h and the members of EventRouter.cpp.
use text.Mathlib.Text.{find?}
use Prim.Native.String
use rdws_us.Prelude.{
  ℕ, zero, suc, ◌/◌, ◌%◌, ◌^◌, String, Bool, true, false, not, Option, none, some, List, [], ◌∷◌,
  ◌++◌, ◌==◌, if◌then◌else◌, is_some, find_if, ltb, eqb, map,
}
use rdws_us.Prelude.Int.{ℤ, pos, negsuc, ltb_ℤ}
use rdws_us.Prelude.Floats.{Floats}
use rdws_us.Prelude.Table.{Table, text_key}
use rdws_us.Json.{
  Json, boolean, int, double, str, arr, Elems, elems, of_elems, is_object, find, fits_int,
}
use rdws_us.Router.Codec.{RouteCondition, RoutingRule, rule_to_json, rule_from_json}
use rdws_us.Router.Path.{match_path_pattern, clean_path}

pub record EventRouter (D : Type 0) : Type 0 where
  pub persist_path : String
  pub rules : List RoutingRule
  pub file : Option (Json D)

-- std::to_string of a number: twenty digits are enough for 64 bits.
digit : ℕ → String
digit n =
    if eqb n 0
    then "0"
    else if eqb n 1
    then "1"
    else if eqb n 2
    then "2"
    else if eqb n 3
    then "3"
    else if eqb n 4
    then "4"
    else if eqb n 5
    then "5"
    else if eqb n 6
    then "6"
    else if eqb n 7
    then "7"
    else if eqb n 8
    then "8"
    else "9"

decimal : ℕ → ℕ → String
decimal zero n = ""
decimal (suc f) n =
    let high = decimal f (n / 10) in if ltb n 10 then digit n else String.◌++◌ high (digit (n % 10))

unfoldable pub to_string : ℤ → String
unfolding decimal digit
to_string (pos n) = decimal 20 n
to_string (negsuc n) = String.◌++◌ "-" (decimal 20 (suc n))

-- strVal of matchesCondition: IsInt and IsUint, so an integer outside both ranges stays "".
field_text : (F : Floats) → Json F.D → String
field_text F (str s) = s
field_text F (boolean b) = if b then "true" else "false"
field_text F (int (pos n)) = if ltb n (2 ^ 32) then to_string (pos n) else ""
field_text F (int (negsuc n)) = if fits_int (negsuc n) then to_string (negsuc n) else ""
field_text F (double x) = F.show x
field_text F _ = ""

compare_text : String → String → String → Bool
compare_text op text value =
    if op == "eq"
    then text == value
    else if op == "ne"
    then not (text == value)
    else if op == "contains"
    then is_some (find? text value)
    else false

unfoldable pub matches_condition : (F : Floats) → RouteCondition → Json F.D → Bool
unfolding field_text compare_text
matches_condition F cond payload =
    if is_object payload
    then (if cond.op == "exists"
        then is_some (find cond.field payload)
        else elim (find cond.field payload) [
          | none ↦ false
          | some v ↦ compare_text cond.op (field_text F v) cond.value
        ])
    else false

abbrev holds : (F : Floats) → Option RouteCondition → Json F.D → Bool
holds F none payload = true
holds F (some cond) payload = matches_condition F cond payload

-- The tests of the loop of resolve, none of which passes over the rule.
unfoldable pub applies : (F : Floats) → String → Json F.D → RoutingRule → Bool
applies F input payload rule =
    if rule.enabled
    then (if rule.input_capability == input then holds F rule.condition payload else false)
    else false

unfoldable pub resolve_from : (F : Floats) → String → Json F.D → List RoutingRule → String
resolve_from F input payload [] = input
resolve_from F input payload (rule ∷ rules) =
    if applies F input payload rule
    then rule.output_capability
    else resolve_from F input payload rules

unfoldable pub resolve : (F : Floats) → String → Json F.D → EventRouter F.D → String
unfolding resolve_from
resolve F input payload r = resolve_from F input payload r.rules

pub record PathMatch : Type 0 where
  pub capability : String
  pub path_params : Table String String

match_rule : String → String → RoutingRule → Option (Table String String)
match_rule method path rule = elim rule.http_method [
  | none ↦ none
  | some m ↦ elim rule.http_path [
    | none ↦ none
    | some pattern ↦
        if rule.enabled
        then (if m == method then match_path_pattern pattern path else none)
        else none
  ]
]

unfoldable pub resolve_path_from : String → String → List RoutingRule → Option PathMatch
unfolding match_rule
resolve_path_from method path [] = none
resolve_path_from method path (rule ∷ rules) = elim (match_rule method path rule) [
  | none ↦ resolve_path_from method path rules
  | some params ↦ some (record { capability = rule.output_capability; path_params = params })
]

unfoldable pub resolve_from_path : {D : Type 0} → String → String → EventRouter D → Option PathMatch
resolve_from_path method path r = resolve_path_from method (clean_path path) r.rules

-- std::stable_sort, highest priority first.
unfoldable pub insert_rule : RoutingRule → List RoutingRule → List RoutingRule
insert_rule x [] = x ∷ []
insert_rule x (y ∷ rules) =
    if ltb_ℤ x.priority y.priority then y ∷ insert_rule x rules else x ∷ y ∷ rules

unfoldable pub sort_rules : List RoutingRule → List RoutingRule
unfolding insert_rule
sort_rules [] = []
sort_rules (x ∷ rules) = insert_rule x (sort_rules rules)

-- The first rule with the id is overwritten; it keeps its id and its creation time.
unfoldable pub overwrite : String → String → RoutingRule → List RoutingRule → List RoutingRule
overwrite id now rule [] = []
overwrite id now rule (x ∷ rules) =
    if x.id == id
    then record rule { id = id; created_at = x.created_at; updated_at = now } ∷ rules
    else x ∷ overwrite id now rule rules

unfoldable pub erase_first : String → List RoutingRule → List RoutingRule
erase_first id [] = []
erase_first id (x ∷ rules) = if x.id == id then rules else x ∷ erase_first id rules

module _ {D : Type 0} where
  -- saveToFile: nothing is written where the file cannot be opened.
  unfoldable pub rules_to_json : List RoutingRule → Elems D
  rules_to_json rules = of_elems (map rule_to_json rules)

  unfoldable pub persist_if_configured : Bool → EventRouter D → EventRouter D
  persist_if_configured writable r =
      if r.persist_path == ""
      then r
      else if writable
      then record r { file = some (arr (rules_to_json r.rules)) }
      else r

  unfoldable pub rules_from_json : List (Json D) → List RoutingRule
  rules_from_json [] = []
  rules_from_json (doc ∷ docs) =
      if is_object doc then rule_from_json doc ∷ rules_from_json docs else rules_from_json docs

  -- `none` is a file that cannot be opened or parsed; a document that is no array is refused.
  unfoldable pub load_from_file : Option (Json D) → EventRouter D → Bool × EventRouter D
  load_from_file (some (arr docs)) r =
      (true, record r { rules = sort_rules (rules_from_json (elems docs)) })
  load_from_file _ r = (false, r)

  unfoldable pub make_router : String → Option (Json D) → EventRouter D
  make_router path stored =
      let r : EventRouter D = record { persist_path = path; rules = []; file = stored } in
      if path == "" then r else (load_from_file stored r).1

  unfoldable pub add_rule :
      Bool → String → String → RoutingRule → EventRouter D → String × EventRouter D
  unfolding persist_if_configured sort_rules
  add_rule writable id now rule r =
      let stamped = record rule { id = id; created_at = now; updated_at = now } in
      (
        id,
        persist_if_configured writable (record r { rules = sort_rules (r.rules ++ stamped ∷ []) }),
      )

  unfoldable pub get_rule : String → EventRouter D → Option RoutingRule
  get_rule id r = find_if (λ rule. rule.id == id) r.rules

  unfoldable pub list_rules : EventRouter D → List RoutingRule
  list_rules r = r.rules

  unfoldable pub update_rule :
      Bool → String → String → RoutingRule → EventRouter D → Bool × EventRouter D
  unfolding persist_if_configured overwrite sort_rules
  update_rule writable id now rule r =
      if is_some (find_if (λ x. x.id == id) r.rules)
      then (
        true,
        persist_if_configured writable
            (record r { rules = sort_rules (overwrite id now rule r.rules) }),
      )
      else (false, r)

  unfoldable pub remove_rule : Bool → String → EventRouter D → Bool × EventRouter D
  unfolding persist_if_configured erase_first
  remove_rule writable id r =
      if is_some (find_if (λ x. x.id == id) r.rules)
      then (true, persist_if_configured writable (record r { rules = erase_first id r.rules }))
      else (false, r)
