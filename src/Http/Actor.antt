-- ===== src/Http/Actor.antt =====
-- Whom the services see as the sender of a request: injectIdentity over the documents of
-- src/service_broker/HttpGateway.cpp.
use rdws_us.Prelude.{
  String, Option, none, some, List, [], ◌∷◌, ◌++◌, value_or, ◌≡◌, refl, ◌∙◌, arith,
}
use rdws_us.Prelude.Table.{text_key, lookup}
use rdws_us.Json.{Json, obj, Members, of_members, object, find_member}
use rdws_us.Json.Merge.{find_member-of_members}
use rdws_us.Auth.Access.{AuthIdentity}
use rdws_us.Auth.Identity.{
  inject_identity, get_actor_identity, get_actor_subject, identity_object, with_identity,
  get_actor-inject_identity, find_member-change, find_member-add_member,
}
use rdws_us.Http.Request.{
  LambdaEvent, LambdaContext, context_object, body_members, document_from_request,
}

module _ {D : Type 0} where
  lookup-first :
      (k : String) (v : Json D) (xs ys : List (String × Json D))
      → lookup k xs ≡ some v
      → lookup k (xs ++ ys) ≡ some v
  unfolding lookup
  lookup-first k v [] ys h = absurd cc
  lookup-first k v ((j, w) ∷ xs) ys h = ground (arith, h, lookup-first k v xs ys)

  lookup-second :
      (k : String) (xs ys : List (String × Json D))
      → lookup k xs ≡ none
      → lookup k (xs ++ ys) ≡ lookup k ys
  unfolding lookup
  lookup-second k [] ys h = refl
  lookup-second k ((j, w) ∷ xs) ys h = ground (arith, h, lookup-second k xs ys)

  context-first :
      (event : LambdaEvent D) (context : LambdaContext) (capability : String)
      (body : Option (Json D))
      → (lookup "lambdaContext" (body_members body) ≡ none
          → find_member "lambdaContext" (document_from_request event context capability body)
            ≡ some (object (context_object context)))
        × ((v : Json D)
            → lookup "lambdaContext" (body_members body) ≡ some v
            → find_member "lambdaContext" (document_from_request event context capability body)
              ≡ some v)
  unfolding document_from_request lookup
  context-first event context capability body = (
    (λ absent.
        find_member-of_members "lambdaContext" _
        ∙ lookup-second "lambdaContext" (body_members body) _ absent),
    (λ v there.
        find_member-of_members "lambdaContext" _
        ∙ lookup-first "lambdaContext" v (body_members body) _ there),
  )

  -- A service sees the claims and the name of the identity that the middleware injects, if the body of
  -- the request holds no "lambdaContext"; but where the body holds one with an object under "identity",
  -- the service sees that object, whatever was injected.
  pub get_actor_identity-document_from_request :
      (id : AuthIdentity) (event : LambdaEvent D) (context : LambdaContext) (capability : String)
      (body : Option (Json D))
      → (lookup "lambdaContext" (body_members body) ≡ none
          → get_actor_subject
              (obj (inject_identity id (document_from_request event context capability body)))
            ≡ some (value_or (lookup "username" id.claims) id.subject))
        × ((given forged : Members D)
            → lookup "lambdaContext" (body_members body) ≡ some (obj given)
            → find_member "identity" given ≡ some (obj forged)
            → get_actor_identity
                (obj (inject_identity id (document_from_request event context capability body)))
              ≡ some (obj forged))
  unfolding inject_identity get_actor_identity find_member
  get_actor_identity-document_from_request id event context capability body =
      let document = document_from_request event context capability body in
      let (absent, present) = context-first event context capability body in
      (
        (λ none_given.
            (get_actor-inject_identity id document (of_members (context_object context)) "username"
              (absent none_given) refl refl).1),
        (λ given forged there identified. ground (
          arith,
          present (obj given) there,
          identified,
          find_member-change "lambdaContext" (with_identity id) document (obj given)
              (present (obj given) there),
          find_member-add_member "identity" "identity" (identity_object id) given,
        )),
      )
