-- ===== src/Router/Persistence.antt =====
-- What the rules file of src/service_broker/Services/EventRouter.cpp holds, and what is read back.
use rdws_us.Prelude.{
  true, List, [], ◌∷◌, ◌≡◌, refl, ap, ◌∙◌, ◌==◌, ◌≢◌, arith, eq_iff, if◌then◌else◌, All, Bool-cases,
  inl, inr,
}
use rdws_us.Json.{Json, elems, fits_int, get_string, get_int, get_bool, get_object, is_object}
use rdws_us.Router.Codec.{RoutingRule, rule_to_json, rule_from_json}
use rdws_us.Router.Defs.{
  EventRouter, sort_rules, rules_to_json, rules_from_json, persist_if_configured, load_from_file,
  make_router,
}
use rdws_us.Router.Order.{sort_rules_sorted}
use rdws_us.Router.Rules.{Edited, Edited-IsSorted}

-- The priority is an int.
abbrev pub InRange : RoutingRule → Type 0
InRange rule = fits_int rule.priority ≡ true

module _ (D : Type 0) where
  -- A rule that is written as JSON and read back is the same rule.
  pub rule_from_json-rule_to_json :
      (rule : RoutingRule) → InRange rule → rule_from_json (rule_to_json {D = D} rule) ≡ rule
  unfolding rule_from_json rule_to_json get_string get_int get_bool get_object
  rule_from_json-rule_to_json rule h = ground arith

  rules-round_trip :
      (rules : List RoutingRule)
      → All InRange rules
      → rules_from_json (elems (rules_to_json {D = D} rules)) ≡ rules
  unfolding rules_from_json rules_to_json rule_to_json
  rules-round_trip [] a = refl
  rules-round_trip (x ∷ rules) a =
      object_read (rule_to_json x) (rules_from_json (elems (rules_to_json {D = D} rules))) refl
      ∙ pair (rule_from_json-rule_to_json x a.0) (rules-round_trip rules a.1)
    where
      object_read :
          (doc : Json D) (rest : List RoutingRule)
          → is_object doc ≡ true
          → (if is_object doc then rule_from_json doc ∷ rest else rest) ≡ rule_from_json doc ∷ rest
      object_read doc rest h = rw h

      pair : {y : RoutingRule} {ys : List RoutingRule} → y ≡ x → ys ≡ rules → y ∷ ys ≡ x ∷ rules
      pair p q = cc

module _ {D : Type 0} where
  -- A router with a rules file, after any history of writes and with priorities that fit an int:
  -- the file that it writes makes a new router with the same rules in the same order.
  pub make_router-persist :
      {r : EventRouter D}
      → Edited r
      → r.persist_path ≢ ""
      → All InRange r.rules
      → (make_router r.persist_path (persist_if_configured true r).file).rules ≡ r.rules
  unfolding make_router persist_if_configured load_from_file
  make_router-persist {r} h path a = elim (Bool-cases (r.persist_path == "")) [
    | inl unset ↦ absurd (path ((eq_iff r.persist_path "").0 unset))
    | inr set ↦ rw set (
        ap sort_rules (rules-round_trip D r.rules a)
        ∙ sort_rules_sorted r.rules (Edited-IsSorted h))
  ]
