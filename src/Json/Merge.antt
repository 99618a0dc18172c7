-- ===== src/Json/Merge.antt =====
-- mergePatch of src/shared/utils/json_merge.cpp. RemoveMember is rapidjson's: it may move the other
-- members, so it is a parameter, and what it leaves under each name is its documented behaviour.
use rdws_us.Prelude.{
  String, Bool, true, false, Option, none, some, [], ◌∷◌, ◌++◌, ◌≡◌, refl, ◌==◌, arith,
  if◌then◌else◌, is_some, eq_iff, Bool-cases, Option-cases, inl, inr, ap, ◌∙◌,
}
use rdws_us.Prelude.Table.{Table, text_key, lookup, Distinct}
use rdws_us.Json.{Json, null, obj, members, of_members, object, find, find_member}

module _ {D : Type 0} where
  abbrev pub is_null : Json D → Bool
  is_null null = true
  is_null _ = false

  -- A document that does not parse or is no object has no members.
  abbrev pub members_or_none : Option (Json D) → Table String (Json D)
  members_or_none (some (obj ms)) = members ms
  members_or_none _ = []

  -- baseDoc[key] = value, for a member that is there: the first of that name.
  unfoldable pub assign : String → Json D → Table String (Json D) → Table String (Json D)
  assign k v [] = []
  assign k v ((j, w) ∷ ms) = if j == k then (j, v) ∷ ms else (j, w) ∷ assign k v ms

  module _ (remove_member : String → Table String (Json D) → Table String (Json D)) where
    unfoldable pub patch_member : String → Json D → Table String (Json D) → Table String (Json D)
    unfolding assign
    patch_member k v ms =
        if is_null v
        then (if is_some (lookup k ms) then remove_member k ms else ms)
        else if is_some (lookup k ms)
        then assign k v ms
        else ms ++ (k, v) ∷ []

    unfoldable pub patch_members :
        Table String (Json D) → Table String (Json D) → Table String (Json D)
    unfolding patch_member
    patch_members ms [] = ms
    patch_members ms ((k, v) ∷ patch) = patch_members (patch_member k v ms) patch

    -- Of documents, `none` where the text does not parse; the result is printed by docToString.
    unfoldable pub merge_patch : Option (Json D) → Option (Json D) → Json D
    unfolding patch_members
    merge_patch base patch = object (patch_members (members_or_none base) (members_or_none patch))

    -- What rapidjson says of RemoveMember, for an object whose names are distinct.
    abbrev pub RemovesOnly : Type 0
    RemovesOnly =
        (k : String) (ms : Table String (Json D))
        → Distinct ms
        → Distinct (remove_member k ms)
          × ((j : String) → lookup j (remove_member k ms) ≡ (if k == j then none else lookup j ms))

  -- The value under a name once it is patched with that value.
  abbrev pub patched : Json D → Option (Json D)
  patched v = if is_null v then none else some v

  -- The value under a name after the patch, by what the patch and the base hold under it.
  abbrev pub overridden : Option (Json D) → Option (Json D) → Option (Json D)
  overridden none old = old
  overridden (some v) old = patched v

  pub find_member-of_members :
      (j : String) (ms : Table String (Json D)) → find_member j (of_members ms) ≡ lookup j ms
  unfolding find_member lookup
  find_member-of_members j [] = refl
  find_member-of_members j ((k, v) ∷ ms) = ground (arith, find_member-of_members j ms)

  pub lookup-assign :
      (k j : String) (v : Json D) (ms : Table String (Json D))
      → is_some (lookup k ms) ≡ true
      → lookup j (assign k v ms) ≡ (if k == j then some v else lookup j ms)
  unfolding assign lookup
  lookup-assign k j v [] there = cc
  lookup-assign k j v ((i, w) ∷ ms) there =
      ground (arith, lookup-assign k j v ms, eq_iff k j, eq_iff i j, eq_iff i k)

  lookup-snoc :
      (k j : String) (v : Json D) (ms : Table String (Json D))
      → lookup k ms ≡ none
      → lookup j (ms ++ (k, v) ∷ []) ≡ (if k == j then some v else lookup j ms)
  unfolding lookup
  lookup-snoc k j v [] new = refl
  lookup-snoc k j v ((i, w) ∷ ms) new =
      ground (arith, lookup-snoc k j v ms, eq_iff k j, eq_iff i j, eq_iff i k)

  assign-Distinct :
      (k : String) (v : Json D) (ms : Table String (Json D))
      → is_some (lookup k ms) ≡ true
      → Distinct ms
      → Distinct (assign k v ms)
  unfolding assign lookup
  assign-Distinct k v [] there d = tt
  assign-Distinct k v ((i, w) ∷ ms) there d = elim (Bool-cases (i == k)) [
    | inl same ↦ rw same (d.0, d.1)
    | inr other ↦ rw other (
      ground (arith, lookup-assign k i v ms, d.0, eq_iff k i, eq_iff i k, there, other),
      assign-Distinct k v ms (ground (arith, there, other)) d.1,
    )
  ]

  snoc-Distinct :
      (k : String) (v : Json D) (ms : Table String (Json D))
      → lookup k ms ≡ none
      → Distinct ms
      → Distinct (ms ++ (k, v) ∷ [])
  unfolding lookup
  snoc-Distinct k v [] new d = (refl, tt)
  snoc-Distinct k v ((i, w) ∷ ms) new d = (
    ground (arith, lookup-snoc k i v ms, d.0, eq_iff k i, eq_iff i k, new),
    snoc-Distinct k v ms (ground (arith, new)) d.1,
  )

  module _ (remove_member : String → Table String (Json D) → Table String (Json D))
      (removes : RemovesOnly remove_member) where
    patch_member_lem :
        (k : String) (v : Json D) (ms : Table String (Json D))
        → Distinct ms
        → Distinct (patch_member remove_member k v ms)
          × ((j : String)
              → lookup j (patch_member remove_member k v ms)
                ≡ (if k == j then patched v else lookup j ms))
    unfolding patch_member
    patch_member_lem k v ms d = elim (Bool-cases (is_null v)) [
      | inl gone ↦ elim (Option-cases (lookup k ms)) [
        | inl new ↦ rw gone (rw new (d, (λ j. ground (arith, new, eq_iff k j))))
        | inr (w, there) ↦ rw gone (rw there (removes k ms d))
      ]
      | inr kept ↦ elim (Option-cases (lookup k ms)) [
        | inl new ↦ rw kept (rw new (snoc-Distinct k v ms new d, (λ j. lookup-snoc k j v ms new)))
        | inr (w, there) ↦ rw kept (
            rw there (
              assign-Distinct k v ms (ap is_some there) d,
              (λ j. lookup-assign k j v ms (ap is_some there)),
            ))
      ]
    ]

    patch_members_lem :
        (patch ms : Table String (Json D)) (j : String)
        → Distinct patch
        → Distinct ms
        → lookup j (patch_members remove_member ms patch)
          ≡ overridden (lookup j patch) (lookup j ms)
    unfolding patch_members lookup
    patch_members_lem [] ms j dp d = refl
    patch_members_lem ((k, v) ∷ patch) ms j dp d =
        let (d', slots) = patch_member_lem k v ms d in
        ground (
          arith,
          patch_members_lem patch (patch_member remove_member k v ms) j dp.1 d',
          slots j,
          eq_iff k j,
          dp.0,
        )

    -- A patch decides each name that it holds: its value, or nothing where that is null. A name that
    -- the patch does not hold keeps its value of the base, and a base or a patch that does not parse or
    -- is no object counts as empty.
    pub find-merge_patch :
        (base patch : Option (Json D)) (j : String)
        → Distinct (members_or_none base)
        → Distinct (members_or_none patch)
        → find j (merge_patch remove_member base patch)
          ≡ overridden (lookup j (members_or_none patch)) (lookup j (members_or_none base))
    unfolding merge_patch find
    find-merge_patch base patch j db dp =
        let ms = members_or_none base in
        let changes = members_or_none patch in
        find_member-of_members j (patch_members remove_member ms changes)
        ∙ patch_members_lem changes ms j dp db
