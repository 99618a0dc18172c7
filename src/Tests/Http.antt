-- ===== src/Tests/Http.antt =====
-- A request whose body names its own sender.
use rdws_us.Prelude.{ℕ, none, some, Option, [], ◌∷◌, ◌≡◌, value_or}
use rdws_us.Prelude.Int.{pos}
use rdws_us.Prelude.Table.{text_key, lookup}
use rdws_us.Json.{Json, str, obj, Members, object, find_member, null}
use rdws_us.Auth.Access.{AuthIdentity}
use rdws_us.Auth.Identity.{inject_identity, get_actor_identity, get_actor_subject}
use rdws_us.Http.Request.{LambdaEvent, LambdaContext, body_members, document_from_request}
use rdws_us.Http.Actor.{get_actor_identity-document_from_request}

abbrev ana : AuthIdentity
ana = record { subject = "7"; issuer = "rdws"; claims = ("username", "ana") ∷ [] }

abbrev posted : LambdaEvent ℕ
posted = record {
  http_method = "POST";
  path = "/invoke/farm.create";
  resource = "/invoke/farm.create";
  body = "";
  headers = [];
  query_string_parameters = [];
  path_parameters = [];
  to_json = null;
}

abbrev context : LambdaContext
context = record {
  request_id = "r1";
  function_name = "http-farm.create";
  function_version = "http-gateway";
  timeout = pos 30000;
  memory_limit_mb = pos 128;
}

abbrev body : Option (Json ℕ)
body = some (
    object
      (("lambdaContext", object (("identity", object (("subject", str "root") ∷ [])) ∷ [])) ∷ []))

get_actor_identity-document_from_request_example :
    (lookup "lambdaContext" (body_members body) ≡ none
      → get_actor_subject
          (obj (inject_identity ana (document_from_request posted context "farm.create" body)))
        ≡ some (value_or (lookup "username" ana.claims) ana.subject))
    × ((given forged : Members ℕ)
        → lookup "lambdaContext" (body_members body) ≡ some (obj given)
        → find_member "identity" given ≡ some (obj forged)
        → get_actor_identity
            (obj (inject_identity ana (document_from_request posted context "farm.create" body)))
          ≡ some (obj forged))
get_actor_identity-document_from_request_example =
    get_actor_identity-document_from_request ana posted context "farm.create" body
