-- ===== src/Router/Codec.antt =====
-- The rules of src/service_broker/Services/EventRouter.h, and how EventRouter.cpp writes and reads
-- them as JSON.
use rdws_us.Prelude.{String, Bool, true, Option, none, some, [], ◌∷◌, value_or}
use rdws_us.Prelude.Int.{ℤ, pos}
use rdws_us.Prelude.Table.{text_key}
use rdws_us.Json.{Json, null, boolean, int, str, object, get_string, get_int, get_bool, get_object}

pub record RouteCondition : Type 0 where
  pub field : String
  pub op : String
  pub value : String

pub record RoutingRule : Type 0 where
  pub id : String
  pub name : String
  pub input_capability : String
  pub output_capability : String
  pub condition : Option RouteCondition
  pub fallback_capability : Option String
  pub priority : ℤ
  pub enabled : Bool
  pub created_at : String
  pub updated_at : String
  pub http_method : Option String
  pub http_path : Option String

module _ {D : Type 0} where
  abbrev text_or_null : Option String → Json D
  text_or_null none = null
  text_or_null (some s) = str s

  abbrev condition_to_json : Option RouteCondition → Json D
  condition_to_json none = null
  condition_to_json (some c) =
      object (("field", str c.field) ∷ ("op", str c.op) ∷ ("value", str c.value) ∷ [])

  unfoldable pub rule_to_json : RoutingRule → Json D
  rule_to_json rule = object (
      ("id", str rule.id)
      ∷ ("name", str rule.name)
      ∷ ("inputCapability", str rule.input_capability)
      ∷ ("outputCapability", str rule.output_capability)
      ∷ ("priority", int rule.priority)
      ∷ ("enabled", boolean rule.enabled)
      ∷ ("createdAt", str rule.created_at)
      ∷ ("updatedAt", str rule.updated_at)
      ∷ ("condition", condition_to_json rule.condition)
      ∷ ("fallbackCapability", text_or_null rule.fallback_capability)
      ∷ ("httpMethod", text_or_null rule.http_method)
      ∷ ("httpPath", text_or_null rule.http_path)
      ∷ [])

  abbrev condition_from_json : Option (Json D) → Option RouteCondition
  condition_from_json none = none
  condition_from_json (some c) = some (record {
    field = value_or (get_string c "field") "";
    op = value_or (get_string c "op") "";
    value = value_or (get_string c "value") "";
  })

  unfoldable pub rule_from_json : Json D → RoutingRule
  rule_from_json json = record {
    id = value_or (get_string json "id") "";
    name = value_or (get_string json "name") "";
    input_capability = value_or (get_string json "inputCapability") "";
    output_capability = value_or (get_string json "outputCapability") "";
    condition = condition_from_json (get_object json "condition");
    fallback_capability = get_string json "fallbackCapability";
    priority = value_or (get_int json "priority") (pos 0);
    enabled = value_or (get_bool json "enabled") true;
    created_at = value_or (get_string json "createdAt") "";
    updated_at = value_or (get_string json "updatedAt") "";
    http_method = get_string json "httpMethod";
    http_path = get_string json "httpPath";
  }
