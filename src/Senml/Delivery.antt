-- ===== src/Senml/Delivery.antt =====
-- What src/shared/senml/trigger_config.cpp delivers to a station.
use rdws_us.Prelude.{
  String, false, Option, none, some, List, [], ◌∷◌, ◌==◌, ◌≡◌, ◌⊎◌, refl, is_some, ap, sym, subst,
  ◌∙◌, arith, eq_refl, Option-cases, inl, inr,
}
use rdws_us.Prelude.Int.{ℤ}
use rdws_us.Prelude.Floats.{Floats}
use rdws_us.Prelude.Table.{Table, text_key, lookup}
use rdws_us.Json.{
  Json, int, arr, obj, Elems, Members, end, member, members, elems, of_elems, object, find,
  find_member, get_string,
}
use rdws_us.Json.Merge.{assign, lookup-assign, find_member-of_members}
use rdws_us.Senml.Parse.{number_of}
use rdws_us.Senml.Channels.{
  FixedPoint, to_firmware_fixed_point_lem, unit_of_chan, lookup-units_by_chan,
}
use rdws_us.Senml.Trigger.{
  to_firmware_fixed_point, convert_field, convert_rule, convert_rules, units_by_chan,
  config_for_firmware, array_in, members_of,
}

some_injective : {A : Type 0} (a b : A) → some a ≡ some b → a ≡ b
some_injective a b h = cc

find_member-members :
    {D : Type 0} (j : String) (ms : Members D) → find_member j ms ≡ lookup j (members ms)
unfolding find_member lookup
find_member-members j end = refl
find_member-members j (member k v ms) = rw (find_member-members j ms) refl

module _ (F : Floats) (llround : F.D → ℤ) where
  -- A field of a rule and of the rule that is delivered: both without it, or in fixed point.
  abbrev pub FieldConverted : String → String → Option (Json F.D) → Option (Json F.D) → Type 0
  FieldConverted chan unit before after =
      ((before ≡ none) × (after ≡ none))
      ⊎ ((v : Json F.D) × (d : F.D) × (n : ℤ) × (before ≡ some v)
          × (number_of F v ≡ some d)
          × FixedPoint F llround chan unit d n
          × (after ≡ some (int n)))

  unchanged :
      (field chan unit : String) (rule out : Table String (Json F.D))
      → lookup field rule ≡ none
      → convert_field F llround field chan unit rule ≡ some out
      → rule ≡ out
  unfolding convert_field
  unchanged field chan unit rule out absent h = ground (arith, absent, h)

  assigned :
      (field chan unit : String) (rule out : Table String (Json F.D)) (v : Json F.D) (d : F.D)
      (n : ℤ)
      → lookup field rule ≡ some v
      → number_of F v ≡ some d
      → to_firmware_fixed_point F llround d chan unit ≡ some n
      → convert_field F llround field chan unit rule ≡ some out
      → assign field (int n) rule ≡ out
  unfolding convert_field
  assigned field chan unit rule out v d n there number fixed h =
      ground (arith, there, number, fixed, h)

  convert_field_lem :
      (field chan unit : String) (rule out : Table String (Json F.D))
      → convert_field F llround field chan unit rule ≡ some out
      → FieldConverted chan unit (lookup field rule) (lookup field out)
        × ((j : String) → (field == j) ≡ false → lookup j out ≡ lookup j rule)
  unfolding convert_field
  convert_field_lem field chan unit rule out h = elim (Option-cases (lookup field rule)) [
    | inl absent ↦
        let same = unchanged field chan unit rule out absent h in
        (inl (absent, ap (lookup field) (sym same) ∙ absent), (λ j ne. ap (lookup j) (sym same)))
    | inr (v, there) ↦ elim (Option-cases (number_of F v)) [
      | inl no_number ↦ absurd (ground (arith, there, no_number, h))
      | inr (d, number) ↦ elim (Option-cases (to_firmware_fixed_point F llround d chan unit)) [
        | inl no_rule ↦ absurd (ground (arith, there, number, no_rule, h))
        | inr (n, fixed) ↦
            let same = assigned field chan unit rule out v d n there number fixed h in
            let slots = λ (j : String). lookup-assign field j (int n) rule (ap is_some there) in
            (
              inr (
                v,
                d,
                n,
                there,
                number,
                to_firmware_fixed_point_lem F llround d chan unit n fixed,
                ap (lookup field) (sym same) ∙ slots field ∙ rw (eq_refl field) refl,
              ),
              (λ j ne. ap (lookup j) (sym same) ∙ slots j ∙ rw ne refl),
            )
      ]
    ]
  ]

  -- The members of a rule and of what is delivered for it, with the channel and its unit.
  abbrev pub RuleConverted : (String → Option String) → Json F.D → Json F.D → Type 0
  RuleConverted unit_of rule out =
      (chan : String) × (unit : String) × (get_string rule "chan" ≡ some chan)
      × (unit_of chan ≡ some unit)
      × FieldConverted chan unit (lookup "thr" (members_of F llround rule)) (find "thr" out)
      × FieldConverted chan unit (lookup "hys" (members_of F llround rule)) (find "hys" out)
      × ((j : String)
          → ("thr" == j) ≡ false
          → ("hys" == j) ≡ false
          → find j out ≡ lookup j (members_of F llround rule))

  made :
      (unit_by_chan : Table String String) (rule out : Json F.D) (chan unit : String)
      (r₁ r₂ : Table String (Json F.D))
      → get_string rule "chan" ≡ some chan
      → lookup chan unit_by_chan ≡ some unit
      → convert_field F llround "thr" chan unit (members_of F llround rule) ≡ some r₁
      → convert_field F llround "hys" chan unit r₁ ≡ some r₂
      → convert_rule F llround unit_by_chan rule ≡ some out
      → object r₂ ≡ out
  unfolding convert_rule
  made unit_by_chan rule out chan unit r₁ r₂ named known thr hys h =
      ground (arith, named, known, thr, hys, h)

  convert_rule_lem :
      (unit_by_chan : Table String String) (unit_of : String → Option String)
      (same_unit : (chan : String) → lookup chan unit_by_chan ≡ unit_of chan) (rule out : Json F.D)
      → convert_rule F llround unit_by_chan rule ≡ some out
      → RuleConverted unit_of rule out
  unfolding convert_rule find
  convert_rule_lem unit_by_chan unit_of same_unit rule out h =
      elim (Option-cases (get_string rule "chan")) [
        | inl no_chan ↦ absurd (ground (arith, no_chan, h))
        | inr (chan, named) ↦ elim (Option-cases (lookup chan unit_by_chan)) [
          | inl no_unit ↦ absurd (ground (arith, named, no_unit, h))
          | inr (unit, known) ↦
              elim (Option-cases
                (convert_field F llround "thr" chan unit (members_of F llround rule))) [
                  | inl bad ↦ absurd (ground (arith, named, known, bad, h))
                  | inr (r₁, thr) ↦
                      elim (Option-cases (convert_field F llround "hys" chan unit r₁)) [
                        | inl bad ↦ absurd (ground (arith, named, known, thr, bad, h))
                        | inr (r₂, hys) ↦
                            let same =
                              made unit_by_chan rule out chan unit r₁ r₂ named known thr hys h in
                            let slots = λ (j : String).
                              ap (find j) (sym same) ∙ find_member-of_members j r₂ in
                            let (thr_done, thr_rest) =
                              convert_field_lem "thr" chan unit (members_of F llround rule) r₁
                                thr in
                            let (hys_done, hys_rest) =
                              convert_field_lem "hys" chan unit r₁ r₂ hys in
                            (
                              chan,
                              unit,
                              named,
                              sym (same_unit chan) ∙ known,
                              subst
                                  (FieldConverted chan unit
                                    (lookup "thr" (members_of F llround rule)))
                                  (sym (slots "thr" ∙ hys_rest "thr" refl)) thr_done,
                              subst (λ before. FieldConverted chan unit before (find "hys" out))
                                  (thr_rest "hys" refl)
                                  (subst (FieldConverted chan unit (lookup "hys" r₁))
                                    (sym (slots "hys")) hys_done),
                              (λ j not_thr not_hys.
                                  slots j ∙ hys_rest j not_hys ∙ thr_rest j not_thr),
                            )
                      ]
                ]
        ]
      ]

  pub data Converted (unit_of : String → Option String)
      : List (Json F.D) → List (Json F.D) → Type 0 where
    all_done : Converted unit_of [] []
    one_done :
        {rule out : Json F.D} {rules outs : List (Json F.D)}
        → RuleConverted unit_of rule out
        → Converted unit_of rules outs
        → Converted unit_of (rule ∷ rules) (out ∷ outs)

  convert_rules_lem :
      (unit_by_chan : Table String String) (unit_of : String → Option String)
      (same_unit : (chan : String) → lookup chan unit_by_chan ≡ unit_of chan)
      (rules outs : List (Json F.D))
      → convert_rules F llround unit_by_chan rules ≡ some outs
      → Converted unit_of rules outs
  unfolding convert_rules
  convert_rules_lem unit_by_chan unit_of same_unit [] outs h =
      subst (Converted unit_of []) (ground (arith, h)) all_done
  convert_rules_lem unit_by_chan unit_of same_unit (rule ∷ rules) outs h =
      elim (Option-cases (convert_rule F llround unit_by_chan rule)) [
        | inl bad ↦ absurd (ground (arith, bad, h))
        | inr (out, e) ↦ elim (Option-cases (convert_rules F llround unit_by_chan rules)) [
          | inl bad ↦ absurd (ground (arith, e, bad, h))
          | inr (rest, es) ↦
              subst (Converted unit_of (rule ∷ rules))
                (some_injective (out ∷ rest) outs (ground (arith, e, es, h)))
                (one_done (convert_rule_lem unit_by_chan unit_of same_unit rule out e)
                  (convert_rules_lem unit_by_chan unit_of same_unit rules rest es))
        ]
      ]

  array_in_cases :
      (o : Option (Json F.D))
      → (array_in F llround o ≡ none) ⊎ ((vs : Elems F.D) × (o ≡ some (arr vs)))
  array_in_cases none = inl refl
  array_in_cases (some (arr vs)) = inr (vs, refl)
  array_in_cases (some _) = inl refl

  -- A configuration with triggers is delivered only with each of them converted: `thr` and `hys`,
  -- where they stand, in the fixed point of the rule's channel, from the unit of the channel's
  -- sensor, which is the first one that "onboard" names for it and that is known; the other members
  -- are as they were, and so is every other member of the configuration.
  pub config_for_firmware-eq-some :
      (config : Members F.D) (triggers : Elems F.D) (unit_by_sensor : Table String String)
      (out : Json F.D)
      → find_member "triggers" config ≡ some (arr triggers)
      → config_for_firmware F llround (some (obj config)) unit_by_sensor ≡ some out
      → (onboard : Elems F.D) × (rules : List (Json F.D)) × (find_member "onboard" config
          ≡ some (arr onboard))
        × (find "triggers" out ≡ some (arr (of_elems rules)))
        × Converted (unit_of_chan F llround unit_by_sensor (elems onboard)) (elems triggers) rules
        × ((j : String) → ("triggers" == j) ≡ false → find j out ≡ lookup j (members config))
  unfolding config_for_firmware find
  config_for_firmware-eq-some config triggers unit_by_sensor out there h =
      elim (array_in_cases (find_member "onboard" config)) [
        | inl bad ↦ absurd (ground (arith, there, bad, h))
        | inr (onboard, e) ↦
            elim (Option-cases (units_by_chan F llround unit_by_sensor [] (elems onboard))) [
              | inl bad ↦ absurd (ground (arith, there, e, bad, h))
              | inr (unit_by_chan, known) ↦
                  elim (Option-cases (convert_rules F llround unit_by_chan (elems triggers))) [
                    | inl bad ↦ absurd (ground (arith, there, e, known, bad, h))
                    | inr (rules, done) ↦
                        let changed = assign "triggers" (arr (of_elems rules)) (members config) in
                        let same =
                          some_injective (object changed) out
                            (ground (arith, there, e, known, done, h)) in
                        let held = sym (find_member-members "triggers" config) ∙ there in
                        let slots = λ (j : String).
                          ap (find j) (sym same)
                          ∙ find_member-of_members j changed
                          ∙ lookup-assign "triggers" j (arr (of_elems rules)) (members config)
                              (ap is_some held) in
                        (
                          onboard,
                          rules,
                          e,
                          slots "triggers",
                          convert_rules_lem unit_by_chan
                              (unit_of_chan F llround unit_by_sensor (elems onboard))
                              (λ chan.
                                lookup-units_by_chan F llround unit_by_sensor [] unit_by_chan
                                  (elems onboard) chan known)
                              (elems triggers) rules done,
                          (λ j other. slots j ∙ rw other refl),
                        )
                  ]
            ]
      ]
