-- ===== src/Http/Request.antt =====
-- documentFromRequest and buildAcceptedResponse of src/service_broker/HttpGateway.cpp. The event is
-- src/shared/types' LambdaEvent, by what its getters answer.
use rdws_us.Prelude.{String, true, Option, some, List, [], ◌∷◌, ◌++◌, map}
use rdws_us.Prelude.Int.{ℤ}
use rdws_us.Prelude.Table.{Table}
use rdws_us.Json.{Json, boolean, int, str, obj, Members, members, of_members, object}

pub record LambdaEvent (D : Type 0) : Type 0 where
  pub http_method : String
  pub path : String
  pub resource : String
  pub body : String
  pub headers : Table String String
  pub query_string_parameters : Table String String
  pub path_parameters : Table String String
  -- what its text parses to
  pub to_json : Json D

pub record LambdaContext : Type 0 where
  pub request_id : String
  pub function_name : String
  pub function_version : String
  pub timeout : ℤ
  pub memory_limit_mb : ℤ

module _ {D : Type 0} where
  abbrev pub texts : Table String String → Json D
  texts m = object (map (λ e. (e.0, str e.1)) m)

  abbrev pub context_object : LambdaContext → List (String × Json D)
  context_object c =
      ("requestId", str c.request_id)
      ∷ ("functionName", str c.function_name)
      ∷ ("functionVersion", str c.function_version)
      ∷ ("timeoutMs", int c.timeout)
      ∷ ("memoryLimitMB", int c.memory_limit_mb)
      ∷ []

  -- The members of a body that parses to an object; `none` where it is empty or does not parse.
  abbrev pub body_members : Option (Json D) → List (String × Json D)
  body_members (some (obj ms)) = members ms
  body_members _ = []

  unfoldable pub document_from_request :
      LambdaEvent D → LambdaContext → String → Option (Json D) → Members D
  document_from_request event context capability body = of_members (
      body_members body
      ++ ("lambdaEvent", event.to_json)
        ∷ ("httpMethod", str event.http_method)
        ∷ ("path", str event.path)
        ∷ ("resource", str event.resource)
        ∷ ("body", str event.body)
        ∷ ("capability", str capability)
        ∷ ("headers", texts event.headers)
        ∷ ("queryStringParameters", texts event.query_string_parameters)
        ∷ ("pathParameters", texts event.path_parameters)
        ∷ ("lambdaContext", object (context_object context))
        ∷ [])

  unfoldable pub build_accepted_response : String → String → Json D → Json D
  build_accepted_response capability request_id event = object (
      ("accepted", boolean true)
      ∷ ("status", str "queued")
      ∷ ("requestId", str request_id)
      ∷ ("capability", str capability)
      ∷ ("event", event)
      ∷ [])
