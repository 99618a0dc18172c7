-- ===== src/Router/Resolve.antt =====
-- Which rule answers a capability.
use rdws_us.Prelude.{
  String, true, false, List, [], ◌∷◌, ◌≡◌, refl, sym, ◌∙◌, ◌⊎◌, arith, All, All-map, Bool-cases,
  inl, inr,
}
use rdws_us.Prelude.Int.{ltb_ℤ}
use rdws_us.Prelude.Floats.{Floats}
use rdws_us.Json.{Json}
use rdws_us.Router.Codec.{RoutingRule}
use rdws_us.Router.Defs.{EventRouter, applies, resolve_from, resolve}
use rdws_us.Router.Order.{IsSorted}
use rdws_us.Router.Rules.{Edited, Edited-IsSorted}

abbrev pub Listed : RoutingRule → List RoutingRule → Type 0
Listed rule [] = ⊥
Listed rule (x ∷ rules) = (rule ≡ x) ⊎ Listed rule rules

module _ (F : Floats) (input : String) (payload : Json F.D) where
  -- No rule of the list that applies has a higher priority than `rule`.
  abbrev pub NoneBetter : RoutingRule → List RoutingRule → Type 0
  NoneBetter rule =
      All λ other. applies F input payload other ≡ true → ltb_ℤ rule.priority other.priority ≡ false

  -- What resolve answers with: the input where no rule applies, and else the output of a rule of
  -- the list that applies and that no rule that applies outranks.
  abbrev pub Answers : List RoutingRule → String → Type 0
  Answers rules answer =
      (All (λ rule. applies F input payload rule ≡ false) rules × (answer ≡ input))
      ⊎ ((rule : RoutingRule) × Listed rule rules
          × (applies F input payload rule ≡ true)
          × NoneBetter rule rules
          × (answer ≡ rule.output_capability))

  resolve_from-Answers :
      (rules : List RoutingRule)
      → IsSorted rules
      → Answers rules (resolve_from F input payload rules)
  unfolding resolve_from
  resolve_from-Answers [] s = inl (tt, refl)
  resolve_from-Answers (x ∷ rules) s = elim (Bool-cases (applies F input payload x)) [
    | inl fits ↦ inr (
      x,
      inl refl,
      fits,
      ((λ h. ground arith), All-map _ _ rules (λ other below h. below) s.0),
      rw fits,
    )
    | inr unfit ↦ elim (resolve_from-Answers rules s.1) [
      | inl (none_fits, same) ↦ inl ((unfit, none_fits), rw unfit same)
      | inr (rule, listed, fits, best, same) ↦
          inr (rule, inr listed, fits, ((λ h. cc (sym unfit ∙ h)), best), rw unfit same)
    ]
  ]

  -- After any history of writes, a capability that no enabled rule for it and for the payload
  -- remaps is passed through, and else the answer is the output of an enabled rule for it whose
  -- condition holds, such that no other such rule has a higher priority.
  pub resolve-Answers :
      {r : EventRouter F.D} → Edited r → Answers r.rules (resolve F input payload r)
  unfolding resolve
  resolve-Answers {r} h = resolve_from-Answers r.rules (Edited-IsSorted h)
