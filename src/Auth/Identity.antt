-- ===== src/Auth/Identity.antt =====
-- injectIdentity of src/service_broker/Auth/AuthMiddleware.cpp, and how the services read what it
-- writes: the actor helpers of src/shared/utils/json_helper.cpp.
use rdws_us.Prelude.{
  String, Bool, false, Option, none, some, [], ◌∷◌, map, if◌then◌else◌, is_some, value_or, ◌==◌,
  ◌≡◌, refl, arith, eq_refl, Bool-cases, inl, inr,
}
use rdws_us.Prelude.Table.{Table, text_key, lookup}
use rdws_us.Json.{
  Json, str, obj, Members, member, end, of_members, object, find, find_member, get_string,
  get_object,
}
use rdws_us.Auth.Access.{AuthIdentity}

module _ {D : Type 0} where
  -- AddMember
  abbrev pub add_member : String → Json D → Members D → Members D
  add_member k v end = member k v end
  add_member k v (member j w ms) = member j w (add_member k v ms)

  abbrev pub identity_object : AuthIdentity → Json D
  identity_object id = object (
      ("subject", str id.subject)
      ∷ ("issuer", str id.issuer)
      ∷ ("claims", object (map (λ c. (c.0, str c.1)) id.claims))
      ∷ [])

  -- The value of a member's first occurrence, changed in place.
  unfoldable pub change : String → (Json D → Json D) → Members D → Members D
  change k f end = end
  change k f (member j w ms) = if j == k then member j (f w) ms else member j w (change k f ms)

  abbrev pub with_identity : AuthIdentity → Json D → Json D
  with_identity id (obj ms) = obj (add_member "identity" (identity_object id) ms)
  with_identity id v = v

  unfoldable pub inject_identity : AuthIdentity → Members D → Members D
  unfolding get_object find find_member change
  inject_identity id payload = elim (get_object (obj payload) "lambdaContext") [
    | none ↦ add_member "identity" (identity_object id) payload
    | some context ↦ change "lambdaContext" (with_identity id) payload
  ]

  unfoldable pub get_actor_identity : Json D → Option (Json D)
  unfolding get_object
  get_actor_identity req = elim (get_object req "lambdaContext") [
    | none ↦ none
    | some context ↦ get_object context "identity"
  ]

  unfoldable pub get_actor_claim : Json D → String → Option String
  unfolding get_actor_identity get_object get_string
  get_actor_claim req claim = elim (get_actor_identity req) [
    | none ↦ none
    | some identity ↦ elim (get_object identity "claims") [
      | none ↦ none
      | some claims ↦ get_string claims claim
    ]
  ]

  unfoldable pub get_actor_subject : Json D → Option String
  unfolding get_actor_identity get_object get_string get_actor_claim
  get_actor_subject req = elim (get_actor_identity req) [
    | none ↦ none
    | some identity ↦ elim (get_actor_claim req "username") [
      | some username ↦ some username
      | none ↦ get_string identity "subject"
    ]
  ]

  unfoldable pub get_actor_subject_or_default : Json D → String
  unfolding get_actor_subject
  get_actor_subject_or_default req = value_or (get_actor_subject req) "system"

  unfoldable pub has_actor_identity : Json D → Bool
  unfolding get_actor_identity
  has_actor_identity req = is_some (get_actor_identity req)

  pub find_member-add_member :
      (k j : String) (v : Json D) (ms : Members D)
      → find_member j (add_member k v ms)
        ≡ elim (find_member j ms) [ some w ↦ some w | none ↦ if k == j then some v else none ]
  unfolding find_member
  find_member-add_member k j v end = refl
  find_member-add_member k j v (member i w ms) = ground (arith, find_member-add_member k j v ms)

  pub find_member-change :
      (k : String) (f : Json D → Json D) (ms : Members D) (w : Json D)
      → find_member k ms ≡ some w
      → find_member k (change k f ms) ≡ some (f w)
  unfolding find_member change
  find_member-change k f end w h = absurd cc
  find_member-change k f (member i v ms) w h = elim (Bool-cases (i == k)) [
    | inl here ↦ ground (arith, here, h)
    | inr there ↦ ground (arith, there, h, find_member-change k f ms w)
  ]

  claim-identity_object :
      (claims : Table String String) (c : String)
      → find_member {D = D} c (of_members (map (λ d. (d.0, str d.1)) claims))
        ≡ elim (lookup c claims) [ none ↦ none | some s ↦ some (str s) ]
  unfolding find_member lookup
  claim-identity_object [] c = refl
  claim-identity_object ((k, s) ∷ claims) c = ground (arith, claim-identity_object claims c)

  injected :
      (id : AuthIdentity) (payload context : Members D)
      → find_member "lambdaContext" payload ≡ some (obj context)
      → find_member "identity" context ≡ none
      → get_actor_identity (obj (inject_identity id payload)) ≡ some (identity_object id)
  unfolding inject_identity get_actor_identity
  injected id payload context there new = ground (
    arith,
    there,
    new,
    find_member-change "lambdaContext" (with_identity id) payload (obj context) there,
    find_member-add_member "identity" "identity" (identity_object id) context,
    eq_refl "identity",
  )

  claim_of :
      (id : AuthIdentity) (req : Json D) (claim : String)
      → get_actor_identity req ≡ some (identity_object id)
      → (claim == "") ≡ false
      → get_actor_claim req claim ≡ lookup claim id.claims
  unfolding get_actor_claim
  claim_of id req claim known named =
      ground (arith, known, named, claim-identity_object id.claims claim)

  -- What a service reads of the identity that the middleware injects into a request with a context
  -- that names none: each claim as the middleware has it, and as the actor the user's name or else the
  -- subject.
  pub get_actor-inject_identity :
      (id : AuthIdentity) (payload context : Members D) (claim : String)
      → find_member "lambdaContext" payload ≡ some (obj context)
      → find_member "identity" context ≡ none
      → (claim == "") ≡ false
      → (get_actor_claim (obj (inject_identity id payload)) claim ≡ lookup claim id.claims)
        × (get_actor_subject (obj (inject_identity id payload))
            ≡ some (value_or (lookup "username" id.claims) id.subject))
  unfolding get_actor_subject
  get_actor-inject_identity id payload context claim there new named =
      let known = injected id payload context there new in
      let req = obj (inject_identity id payload) in
      (
        claim_of id req claim known named,
        ground (arith, known, claim_of id req "username" known refl),
      )
