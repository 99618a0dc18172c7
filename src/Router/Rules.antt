-- ===== src/Router/Rules.antt =====
-- What the writes of src/service_broker/Services/EventRouter.cpp do to the rules.
use rdws_us.Prelude.{
  String, Bool, Option, none, some, List, [], ◌∷◌, ◌++◌, ◌≡◌, refl, ap, ◌∙◌, ◌==◌, arith, eq_iff,
  if◌then◌else◌, is_some, find_if, Bool-cases, Option-cases, inl, inr,
}
use rdws_us.Json.{Json, arr}
use rdws_us.Router.Codec.{RoutingRule}
use rdws_us.Router.Defs.{
  EventRouter, erase_first, overwrite, persist_if_configured, load_from_file, make_router, add_rule,
  update_rule, remove_rule, get_rule,
}
use rdws_us.Router.Order.{
  IsSorted, HasDistinctIds, find_rule, sort_rules-IsSorted, erase_first-IsSorted, find-sort_rules,
}

-- The rule as add_rule stores it, and as update_rule does.
abbrev pub stamped : String → String → String → RoutingRule → RoutingRule
stamped id created now rule = record rule { id = id; created_at = created; updated_at = now }

module _ {D : Type 0} where
  rules-persist :
      (writable : Bool) (r : EventRouter D) → (persist_if_configured writable r).rules ≡ r.rules
  unfolding persist_if_configured
  rules-persist writable r = ground arith

  -- One write to the router that was made by the constructor.
  pub data Edit (r t : EventRouter D) : Type 0 where
    adds :
        (w : Bool) (id now : String) (rule : RoutingRule)
        → t ≡ (add_rule w id now rule r).1
        → Edit r t
    updates :
        (w : Bool) (id now : String) (rule : RoutingRule)
        → t ≡ (update_rule w id now rule r).1
        → Edit r t
    removes : (w : Bool) (id : String) → t ≡ (remove_rule w id r).1 → Edit r t
    loads : (stored : Option (Json D)) → t ≡ (load_from_file stored r).1 → Edit r t

  pub data Edited : EventRouter D → Type 0 where
    made : (path : String) (stored : Option (Json D)) → Edited (make_router path stored)
    edit : {r t : EventRouter D} → Edited r → Edit r t → Edited t

  load-IsSorted :
      (stored : Option (Json D)) (r : EventRouter D)
      → IsSorted r.rules
      → IsSorted (load_from_file stored r).1.rules
  unfolding load_from_file
  load-IsSorted (some (arr docs)) r s = sort_rules-IsSorted _
  load-IsSorted (some _) r s = s
  load-IsSorted none r s = s

  make-IsSorted :
      (path : String) (stored : Option (Json D)) → IsSorted (make_router path stored).rules
  unfolding make_router
  make-IsSorted path stored = elim (Bool-cases (path == "")) [
    | inl unset ↦ rw unset tt
    | inr set ↦
        rw set (load-IsSorted stored (record { persist_path = path; rules = []; file = stored }) tt)
  ]

  Edit-IsSorted : (r t : EventRouter D) → Edit r t → IsSorted r.rules → IsSorted t.rules
  unfolding add_rule update_rule remove_rule
  Edit-IsSorted r t (adds w id now rule e) s =
      rw (e, rules-persist) (sort_rules-IsSorted (r.rules ++ stamped id now now rule ∷ []))
  Edit-IsSorted r t (updates w id now rule e) s =
      elim (Bool-cases (is_some (find_rule id r.rules))) [
        | inl found ↦
            rw (e, found, rules-persist) (sort_rules-IsSorted (overwrite id now rule r.rules))
        | inr missing ↦ rw (e, missing) s
      ]
  Edit-IsSorted r t (removes w id e) s = elim (Bool-cases (is_some (find_rule id r.rules))) [
    | inl found ↦ rw (e, found, rules-persist) (erase_first-IsSorted id r.rules s)
    | inr missing ↦ rw (e, missing) s
  ]
  Edit-IsSorted r t (loads stored e) s = rw e (load-IsSorted stored r s)

  -- Whatever is added, updated, removed and loaded, the rules stand in the order of falling
  -- priority.
  pub Edited-IsSorted : {r : EventRouter D} → Edited r → IsSorted r.rules
  Edited-IsSorted (made path stored) = make-IsSorted path stored
  Edited-IsSorted (edit {r} {t} h c) = Edit-IsSorted r t c (Edited-IsSorted h)

find-append :
    (k : String) (x : RoutingRule) (rules : List RoutingRule)
    → find_rule x.id rules ≡ none
    → find_rule k (rules ++ x ∷ []) ≡ (if x.id == k then some x else find_rule k rules)
unfolding find_if
find-append k x [] h = refl
find-append k x (y ∷ rules) h =
    ground (arith, find-append k x rules, eq_iff x.id k, eq_iff y.id x.id, eq_iff y.id k)

append-HasDistinctIds :
    (x : RoutingRule) (rules : List RoutingRule)
    → HasDistinctIds rules
    → find_rule x.id rules ≡ none
    → HasDistinctIds (rules ++ x ∷ [])
unfolding find_if
append-HasDistinctIds x [] d h = (refl, tt)
append-HasDistinctIds x (y ∷ rules) d h = (
  ground (arith, find-append y.id x rules, eq_iff x.id y.id, eq_iff y.id x.id, d.0, h),
  append-HasDistinctIds x rules d.1 (ground (arith, h)),
)

-- The rule that an update leaves under its id.
abbrev pub renewed : String → String → RoutingRule → Option RoutingRule → Option RoutingRule
renewed id now rule none = none
renewed id now rule (some old) = some (stamped id old.created_at now rule)

find-overwrite :
    (k id now : String) (rule : RoutingRule) (rules : List RoutingRule)
    → find_rule k (overwrite id now rule rules)
      ≡ (if id == k then renewed id now rule (find_rule id rules) else find_rule k rules)
unfolding overwrite find_if
find-overwrite k id now rule [] = ground arith
find-overwrite k id now rule (x ∷ rules) =
    ground (arith, find-overwrite k id now rule rules, eq_iff x.id id, eq_iff x.id k, eq_iff id k)

overwrite-HasDistinctIds :
    (id now : String) (rule : RoutingRule) (rules : List RoutingRule)
    → HasDistinctIds rules
    → HasDistinctIds (overwrite id now rule rules)
unfolding overwrite find_if
overwrite-HasDistinctIds id now rule [] d = tt
overwrite-HasDistinctIds id now rule (x ∷ rules) d = elim (Bool-cases (x.id == id)) [
  | inl hit ↦ rw hit (rw (← (eq_iff x.id id).0 hit) d.0, d.1)
  | inr miss ↦ rw miss (
    ground
        (arith, find-overwrite x.id id now rule rules, eq_iff id x.id, eq_iff x.id id, d.0, miss),
    overwrite-HasDistinctIds id now rule rules d.1,
  )
]

find-erase_first :
    (k id : String) (rules : List RoutingRule)
    → HasDistinctIds rules
    → find_rule k (erase_first id rules) ≡ (if id == k then none else find_rule k rules)
unfolding erase_first find_if
find-erase_first k id [] d = ground arith
find-erase_first k id (x ∷ rules) d =
    ground (arith, find-erase_first k id rules d.1, eq_iff x.id id, eq_iff x.id k, eq_iff id k, d.0)

module _ {D : Type 0} (r : EventRouter D) (d : HasDistinctIds r.rules) (writable : Bool) where
  -- Where no id stands twice: a rule that is added under a new id is found under it, with that id
  -- and with both times set, and every other rule is found as before.
  pub get_rule-add_rule :
      (id now k : String) (rule : RoutingRule)
      → get_rule id r ≡ none
      → get_rule k (add_rule writable id now rule r).1
        ≡ (if id == k then some (stamped id now now rule) else get_rule k r)
  unfolding get_rule add_rule
  get_rule-add_rule id now k rule fresh =
      ap (find_rule k) (rules-persist writable _)
      ∙ find-sort_rules k (r.rules ++ stamped id now now rule ∷ [])
          (append-HasDistinctIds (stamped id now now rule) r.rules d fresh)
      ∙ find-append k (stamped id now now rule) r.rules fresh

  -- Where no id stands twice: an update of an id that is there replaces that rule and keeps its id
  -- and its creation time, one of an id that is not there changes nothing, and every other rule is
  -- found as before; the answer says which it was.
  pub get_rule-update_rule :
      (id now k : String) (rule : RoutingRule)
      → ((update_rule writable id now rule r).0 ≡ is_some (get_rule id r))
        × (get_rule k (update_rule writable id now rule r).1
            ≡ (if id == k then renewed id now rule (get_rule id r) else get_rule k r))
  unfolding get_rule update_rule
  get_rule-update_rule id now k rule = elim (Option-cases (find_rule id r.rules)) [
    | inl missing ↦ (ground (arith, missing), ground (arith, missing, eq_iff id k))
    | inr (old, found) ↦ (
      ground (arith, found),
      rw (found, rules-persist)
          (find-sort_rules k (overwrite id now rule r.rules)
              (overwrite-HasDistinctIds id now rule r.rules d)
            ∙ find-overwrite k id now rule r.rules
            ∙ rw found),
    )
  ]

  -- Where no id stands twice: a removed id is not found afterwards, and every other rule is found
  -- as before; the answer says whether the id was there.
  pub get_rule-remove_rule :
      (id k : String)
      → ((remove_rule writable id r).0 ≡ is_some (get_rule id r))
        × (get_rule k (remove_rule writable id r).1 ≡ (if id == k then none else get_rule k r))
  unfolding get_rule remove_rule
  get_rule-remove_rule id k = elim (Option-cases (find_rule id r.rules)) [
    | inl missing ↦ (ground (arith, missing), ground (arith, missing, eq_iff id k))
    | inr (old, found) ↦
        (ground (arith, found), rw (found, rules-persist) (find-erase_first k id r.rules d))
  ]
