-- ===== src/Registry/Lowest.antt =====
-- The loop that keeps the lowest measure: its result is from the list, and no measure is below it.
use rdws_us.Prelude.{
  String, Bool, true, false, some, List, [], ◌∷◌, ◌≡◌, refl, arith, sym, ap, subst, ◌∙◌, ◌⊎◌, inl,
  inr, All, Bool-cases, Option-cases,
}
use rdws_us.Prelude.Table.{Table, text_key, lookup}
use rdws_us.Identity.{ServiceIdentity}
use rdws_us.Registry.Select.{lowest_from}

-- Whatever holds of the first service and of all that the loop meets holds of its result.
module _ {A : Type 0} (lt : A → A → Bool) (measure : ServiceIdentity → A)
    (m : Table String ServiceIdentity) where
  pub lowest_from-among {κ} :
      (P : String → Type κ) (best : String) (least : A) (ids : List String)
      → P best
      → All P ids
      → P (lowest_from lt measure m best least ids)
  unfolding lowest_from
  lowest_from-among P best least [] h a = h
  lowest_from-among P best least (id ∷ ids) h a = elim (Option-cases (lookup id m)) [
    | inl missing ↦ rw (missing, lowest_from) (lowest_from-among P best least ids h a.1)
    | inr (s, found) ↦ elim (Bool-cases (lt (measure s) least)) [
      | inl lower ↦ rw (found, lower, lowest_from) (lowest_from-among P id (measure s) ids a.0 a.1)
      | inr kept ↦ rw (found, kept, lowest_from) (lowest_from-among P best least ids h a.1)
    ]
  ]

  -- No service of the list, of those that are registered, has a measure below `least`.
  abbrev pub NoneBelow : A → List String → Type 0
  NoneBelow least ids =
      All (λ id. (s : ServiceIdentity) → lookup id m ≡ some s → lt (measure s) least ≡ false) ids

  -- `least` is the measure of the service `id`.
  abbrev Measures : String → A → Type 0
  Measures id least = (s : ServiceIdentity) × (lookup id m ≡ some s) × (least ≡ measure s)

  -- Where the loop ends: with its bound, or with the measure of its result, and at most its bound.
  abbrev Ends : String → A → List String → String → Type 0
  Ends best least ids res =
      (end : A) × (Measures res end ⊎ ((res ≡ best) × (end ≡ least)))
      × ((end ≡ least) ⊎ (lt end least ≡ true))
      × NoneBelow end ids

  module _ (irrefl : (x : A) → lt x x ≡ false)
      (trans : (x y z : A) → lt x y ≡ true → lt y z ≡ true → lt x z ≡ true) where
    not_below :
        (x end least : A)
        → lt x least ≡ false
        → (end ≡ least) ⊎ (lt end least ≡ true)
        → lt x end ≡ false
    not_below x end least h (inl same) = rw same h
    not_below x end least h (inr below) = ground (arith, trans x end least)

    lower_yet :
        (end x least : A) → (end ≡ x) ⊎ (lt end x ≡ true) → lt x least ≡ true → lt end least ≡ true
    lower_yet end x least (inl same) h = rw same h
    lower_yet end x least (inr below) h = trans end x least below h

    measured :
        (id : String) (s : ServiceIdentity) (res : String) (end : A)
        → lookup id m ≡ some s
        → Measures res end ⊎ ((res ≡ id) × (end ≡ measure s))
        → Measures res end
    measured id s res end found (inl known) = known
    measured id s res end found (inr (same, e)) = (s, ap (λ k. lookup k m) same ∙ found, e)

    lowest_from-Ends :
        (best : String) (least : A) (ids : List String)
        → Ends best least ids (lowest_from lt measure m best least ids)
    unfolding lowest_from
    lowest_from-Ends best least [] = (least, inr (refl, refl), inl refl, tt)
    lowest_from-Ends best least (id ∷ ids) = elim (Option-cases (lookup id m)) [
      | inl missing ↦
          let e : lowest_from lt measure m best least (id ∷ ids)
              ≡ lowest_from lt measure m best least ids =
            rw (missing, lowest_from) in
          let (end, kind, below, rest) = lowest_from-Ends best least ids in
          subst (Ends best least (id ∷ ids)) (sym e)
            (end, kind, below, ((λ t f. absurd (cc (sym missing ∙ f))), rest))
      | inr (s, found) ↦ elim (Bool-cases (lt (measure s) least)) [
        | inl lower ↦
            let e : lowest_from lt measure m best least (id ∷ ids)
                ≡ lowest_from lt measure m id (measure s) ids =
              rw (found, lower, lowest_from) in
            let (end, kind, below, rest) = lowest_from-Ends id (measure s) ids in
            subst (Ends best least (id ∷ ids)) (sym e) (
              end,
              inl (measured id s _ end found kind),
              inr (lower_yet end (measure s) least below lower),
              (
                (λ t f.
                    ground
                      (arith, found, f, irrefl (measure s), not_below (measure s) end (measure s))),
                rest,
              ),
            )
        | inr kept ↦
            let e : lowest_from lt measure m best least (id ∷ ids)
                ≡ lowest_from lt measure m best least ids =
              rw (found, kept, lowest_from) in
            let (end, kind, below, rest) = lowest_from-Ends best least ids in
            subst (Ends best least (id ∷ ids)) (sym e) (
              end,
              kind,
              below,
              ((λ t f. ground (arith, found, f, not_below (measure s) end least kept below)), rest),
            )
      ]
    ]

    -- Where the first service lies under the bound, the result has a least measure of the list.
    pub lowest_from-least :
        (first : String) (bound : A) (rest : List String) (s : ServiceIdentity)
        → lookup first m ≡ some s
        → lt (measure s) bound ≡ true
        → (t : ServiceIdentity) × (lookup (lowest_from lt measure m first bound (first ∷ rest)) m
            ≡ some t)
          × NoneBelow (measure t) (first ∷ rest)
    lowest_from-least first bound rest s found under =
        let (end, kind, below, none_below) = lowest_from-Ends first bound (first ∷ rest) in
        elim kind [
          | inl (t, known, e) ↦ (t, known, subst (λ x. NoneBelow x (first ∷ rest)) e none_below)
          | inr (same, e) ↦ absurd (ground (arith, e, none_below.0 s found, under))
        ]
