-- ===== src/Config/Defs.antt =====
-- The members of src/service_broker/Config/GatewayConfig.cpp.
use rdws_us.Prelude.{
  String, Bool, true, false, Option, none, some, [], ◌∷◌, ◌==◌, if◌then◌else◌, value_or,
}
use rdws_us.Prelude.Int.{ℤ, pos, ltb_ℤ}
use rdws_us.Prelude.Table.{Table, text_key, lookup, insert, erase}
use rdws_us.Json.{
  Json, boolean, int, str, obj, end, member, Members, is_object, get_string, get_int, get_int64,
  get_object,
}
use rdws_us.Registry.{LoadBalancingStrategy, round_robin, least_loaded, fastest_response, random}

pub record CapabilityConfig : Type 0 where
  pub timeout_ms : ℤ
  pub load_balancing : Option LoadBalancingStrategy
  pub max_concurrent_requests : ℤ

pub record GatewayConfig (D : Type 0) : Type 0 where
  pub defaults : CapabilityConfig
  pub capabilities : Table String CapabilityConfig
  pub features : Table String Bool
  pub persist_path : String
  pub file : Option (Json D)

unfoldable pub lb_strategy_to_string : LoadBalancingStrategy → String
lb_strategy_to_string round_robin = "round_robin"
lb_strategy_to_string least_loaded = "least_loaded"
lb_strategy_to_string fastest_response = "fastest_response"
lb_strategy_to_string random = "random"

unfoldable pub lb_strategy_from_string : String → LoadBalancingStrategy
lb_strategy_from_string s =
    if s == "round_robin"
    then round_robin
    else if s == "fastest_response"
    then fastest_response
    else if s == "random"
    then random
    else least_loaded

abbrev positive : ℤ → Bool
positive n = ltb_ℤ (pos 0) n

-- over.field > 0 ? over.field : result.field, field by field
abbrev pub override : CapabilityConfig → CapabilityConfig → CapabilityConfig
override base over = record {
  timeout_ms = if positive over.timeout_ms then over.timeout_ms else base.timeout_ms;
  load_balancing = elim over.load_balancing [ none ↦ base.load_balancing | some s ↦ some s ];
  max_concurrent_requests =
      if positive over.max_concurrent_requests
      then over.max_concurrent_requests
      else base.max_concurrent_requests;
}

module _ {D : Type 0} where
  -- The constructor's defaults.
  unfoldable pub make_config : String → GatewayConfig D
  make_config path = record {
    defaults = record {
      timeout_ms = pos 30000;
      load_balancing = some least_loaded;
      max_concurrent_requests = pos 0;
    };
    capabilities = [];
    features =
        insert "rate_limiting" false
          (insert "request_logging" true (insert "metrics_collection" true []));
    persist_path = path;
    file = none;
  }

  unfoldable pub for_capability : String → GatewayConfig D → CapabilityConfig
  for_capability capability c = elim (lookup capability c.capabilities) [
    | none ↦ c.defaults
    | some over ↦ override c.defaults over
  ]

  unfoldable pub timeout_for : String → GatewayConfig D → ℤ
  timeout_for capability c =
      let timeout = (for_capability capability c).timeout_ms in
      if positive timeout then timeout else pos 30000

  unfoldable pub lb_strategy_for : String → GatewayConfig D → LoadBalancingStrategy
  lb_strategy_for capability c = value_or (for_capability capability c).load_balancing least_loaded

  unfoldable pub is_enabled : String → Bool → GatewayConfig D → Bool
  is_enabled feature default c = value_or (lookup feature c.features) default

  abbrev strategy_member : Option LoadBalancingStrategy → Members D → Members D
  strategy_member none rest = rest
  strategy_member (some s) rest = member "loadBalancing" (str (lb_strategy_to_string s)) rest

  unfoldable pub capability_config_to_json : CapabilityConfig → Json D
  capability_config_to_json c = obj (
      member "timeoutMs" (int c.timeout_ms) (
        strategy_member c.load_balancing
          (member "maxConcurrentRequests" (int c.max_concurrent_requests) end)))

  abbrev pub config_members : Table String CapabilityConfig → Members D
  config_members [] = end
  config_members ((name, cfg) ∷ m) = member name (capability_config_to_json cfg) (config_members m)

  abbrev pub feature_members : Table String Bool → Members D
  feature_members [] = end
  feature_members ((name, on) ∷ m) = member name (boolean on) (feature_members m)

  unfoldable pub to_json : GatewayConfig D → Json D
  to_json c = obj (
      member "defaults" (capability_config_to_json c.defaults) (
        member "capabilities" (obj (config_members c.capabilities))
          (member "features" (obj (feature_members c.features)) end)))

  -- parseCapCfg
  unfoldable pub parse_capability_config : Json D → CapabilityConfig
  parse_capability_config json = record {
    timeout_ms = elim (get_int64 json "timeoutMs") [
      | some n ↦ n
      | none ↦ value_or (get_int json "timeoutMs") (pos 0)
    ];
    load_balancing = elim (get_string json "loadBalancing") [
      | some s ↦ some (lb_strategy_from_string s)
      | none ↦ none
    ];
    max_concurrent_requests = value_or (get_int json "maxConcurrentRequests") (pos 0);
  }

  -- The loops over the members: those of another type are passed over.
  unfoldable pub load_capabilities :
      Members D → Table String CapabilityConfig → Table String CapabilityConfig
  load_capabilities end m = m
  load_capabilities (member name value rest) m =
      load_capabilities rest
        (if is_object value then insert name (parse_capability_config value) m else m)

  unfoldable pub load_feature : String → Json D → Table String Bool → Table String Bool
  load_feature name (boolean on) m = insert name on m
  load_feature name _ m = m

  unfoldable pub load_features : Members D → Table String Bool → Table String Bool
  unfolding load_feature
  load_features end m = m
  load_features (member name value rest) m = load_features rest (load_feature name value m)

  abbrev pub members_of : Json D → Members D
  members_of (obj ms) = ms
  members_of _ = end

  abbrev in_object {ℓ} : {A : Type ℓ} → Option (Json D) → (Json D → A → A) → A → A
  in_object none f a = a
  in_object (some o) f a = f o a

  unfoldable pub load_from_json : Json D → GatewayConfig D → GatewayConfig D
  load_from_json doc c = record c {
    defaults = in_object (get_object doc "defaults") (λ o _. parse_capability_config o) c.defaults;
    capabilities =
        in_object (get_object doc "capabilities") (λ o m. load_capabilities (members_of o) m)
          c.capabilities;
    features =
        in_object (get_object doc "features") (λ o m. load_features (members_of o) m) c.features;
  }

  unfoldable pub save : Bool → GatewayConfig D → Bool × GatewayConfig D
  save writable c =
      if c.persist_path == ""
      then (true, c)
      else if writable
      then (true, record c { file = some (to_json c) })
      else (false, c)

  unfoldable pub set_defaults : Bool → CapabilityConfig → GatewayConfig D → GatewayConfig D
  unfolding save
  set_defaults writable cfg c = (save writable (record c { defaults = cfg })).1

  unfoldable pub set_capability_config :
      Bool → String → CapabilityConfig → GatewayConfig D → GatewayConfig D
  unfolding save
  set_capability_config writable name cfg c =
      (save writable (record c { capabilities = insert name cfg c.capabilities })).1

  unfoldable pub remove_capability_config : Bool → String → GatewayConfig D → GatewayConfig D
  unfolding save
  remove_capability_config writable name c =
      (save writable (record c { capabilities = erase name c.capabilities })).1

  unfoldable pub set_feature : Bool → String → Bool → GatewayConfig D → GatewayConfig D
  unfolding save
  set_feature writable name on c =
      (save writable (record c { features = insert name on c.features })).1

-- What opening a file and parsing it gives.
pub data Opened (D : Type 0) : Type 0 where
  missing malformed : Opened D
  parsed : Json D → Opened D

unfoldable pub from_file : {D : Type 0} → String → Opened D → GatewayConfig D
from_file path missing = make_config path
from_file path malformed = make_config path
from_file path (parsed doc) = load_from_json doc (make_config path)
