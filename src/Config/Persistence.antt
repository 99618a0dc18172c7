-- ===== src/Config/Persistence.antt =====
-- What the configuration file holds, and what is read back from it.
use rdws_us.Prelude.{
  String, Bool, true, false, Option, none, some, [], ◌∷◌, ◌≡◌, refl, ◌∙◌, ◌==◌, arith, eq_iff,
  if◌then◌else◌, All, Option-cases, inl, inr,
}
use rdws_us.Prelude.Table.{
  Table, text_key, lookup, insert, lookup-insert, lookup-insert_self, Distinct,
}
use rdws_us.Json.{get_string, get_int, get_int64, get_object, fits_int, fits_int64}
use rdws_us.Registry.{LoadBalancingStrategy, round_robin, least_loaded, fastest_response, random}
use rdws_us.Config.Defs.{
  CapabilityConfig, GatewayConfig, lb_strategy_to_string, lb_strategy_from_string, make_config,
  for_capability, is_enabled, set_capability_config, to_json, config_members, feature_members,
  capability_config_to_json, parse_capability_config, load_capabilities, load_features,
  load_from_json, from_file, parsed,
}

strategy_round_trip :
    (s : LoadBalancingStrategy) → lb_strategy_from_string (lb_strategy_to_string s) ≡ s
unfolding lb_strategy_to_string lb_strategy_from_string
strategy_round_trip round_robin = refl
strategy_round_trip least_loaded = refl
strategy_round_trip fastest_response = refl
strategy_round_trip random = refl

-- The numbers of a configuration are what its fields can hold: int64_t and int.
abbrev pub InRange : CapabilityConfig → Type 0
InRange c = (fits_int64 c.timeout_ms ≡ true) × (fits_int c.max_concurrent_requests ≡ true)

module _ (D : Type 0) where
  -- What is read back from the member object of one capability.
  abbrev reread : CapabilityConfig → CapabilityConfig
  reread c = parse_capability_config (capability_config_to_json {D = D} c)

  parse-print : (c : CapabilityConfig) → InRange c → reread c ≡ c
  unfolding parse_capability_config capability_config_to_json get_string get_int get_int64
  parse-print c h = elim (Option-cases c.load_balancing) [
    | inl unset ↦ ground (arith, unset, h)
    | inr (s, set) ↦ ground (arith, set, h, strategy_round_trip s)
  ]

  lookup-load_capabilities :
      (name : String) (m t : Table String CapabilityConfig)
      → Distinct m
      → All (λ e. InRange e.1) m
      → lookup name (load_capabilities (config_members {D = D} m) t)
        ≡ elim (lookup name m) [ none ↦ lookup name t | some c ↦ some c ]
  unfolding load_capabilities lookup capability_config_to_json
  lookup-load_capabilities name [] t d a = refl
  lookup-load_capabilities name ((k, c) ∷ m) t d a = ground (
    arith,
    lookup-load_capabilities name m (insert k (reread c) t) d.1 a.1,
    lookup-insert k name (reread c) t,
    parse-print c a.0,
    eq_iff k name,
    d.0,
  )

  lookup-load_features :
      (name : String) (m t : Table String Bool)
      → Distinct m
      → lookup name (load_features (feature_members {D = D} m) t)
        ≡ elim (lookup name m) [ none ↦ lookup name t | some on ↦ some on ]
  unfolding load_features lookup
  lookup-load_features name [] t d = refl
  lookup-load_features name ((k, on) ∷ m) t d = ground (
    arith,
    lookup-load_features name m (insert k on t) d.1,
    lookup-insert k name on t,
    eq_iff k name,
    d.0,
  )

-- A configuration that can be written and read: no key stands twice, and its numbers are in range.
pub record IsWritable {D : Type 0} (c : GatewayConfig D) : Type 0 where
  pub distinct_capabilities : Distinct c.capabilities
  pub distinct_features : Distinct c.features
  pub default_range : InRange c.defaults
  pub capability_ranges : All (λ e. InRange e.1) c.capabilities

module _ {D : Type 0} where
  -- The parts of a configuration that is read back.
  defaults-loaded :
      (path : String) (c : GatewayConfig D)
      → InRange c.defaults
      → (from_file path (parsed (to_json c))).defaults ≡ c.defaults
  unfolding from_file load_from_json to_json get_object capability_config_to_json
  defaults-loaded path c h = parse-print D c.defaults h

  capabilities-loaded :
      (path name : String) (c : GatewayConfig D)
      → IsWritable c
      → lookup name (from_file path (parsed (to_json c))).capabilities ≡ lookup name c.capabilities
  unfolding from_file load_from_json to_json get_object make_config lookup
  capabilities-loaded path name c w =
      lookup-load_capabilities D name c.capabilities [] w.distinct_capabilities w.capability_ranges
      ∙ filled (lookup name c.capabilities)
    where
      filled : (o : Option CapabilityConfig) → elim o [ none ↦ none | some cfg ↦ some cfg ] ≡ o
      filled none = refl
      filled (some cfg) = refl

  for_capability-loaded :
      (path capability : String) (c : GatewayConfig D)
      → IsWritable c
      → for_capability capability (from_file path (parsed (to_json c)))
        ≡ for_capability capability c
  unfolding for_capability
  for_capability-loaded path capability c w =
      ground
        (arith, capabilities-loaded path capability c w, defaults-loaded path c w.default_range)

  -- A configuration that is written to the file and loaded at the next start answers every lookup
  -- of a capability's settings and of a feature flag as it did when it was written, flags that
  -- were never set apart: these answer as in a new configuration. Its keys are distinct and its
  -- numbers in the range of their types.
  pub from_file-to_json :
      (path capability feature : String) (default : Bool) (c : GatewayConfig D)
      → IsWritable c
      → let loaded = from_file path (parsed (to_json c)) in
        (for_capability capability loaded ≡ for_capability capability c)
        × (is_enabled feature default loaded ≡ elim (lookup feature c.features) [
          | none ↦ is_enabled feature default (make_config {D = D} path)
          | some on ↦ on
        ])
  unfolding from_file load_from_json to_json is_enabled get_object
  from_file-to_json path capability feature default c w = (
    for_capability-loaded path capability c w,
    ground (
      arith,
      lookup-load_features D feature c.features (make_config {D = D} path).features
          w.distinct_features,
    ),
  )

  saved :
      (nowhere writable : Bool) (c : GatewayConfig D)
      → let result : Bool × GatewayConfig D =
          (if nowhere
            then (true, c)
            else if writable
            then (true, record c { file = some (to_json c) })
            else (false, c)) in
        let c' = result.1 in
        c'.file ≡ (if nowhere then c.file else if writable then some (to_json c') else c.file)
  unfolding to_json
  saved true writable c = refl
  saved false true c = refl
  saved false false c = refl

  -- After a change of one capability the file holds the document of the new configuration, if
  -- there is a path and the file can be written, and is as before otherwise; the change itself is
  -- made in every case.
  pub set_capability_config-file :
      (writable : Bool) (name : String) (cfg : CapabilityConfig) (c : GatewayConfig D)
      → let c' = set_capability_config writable name cfg c in
        (lookup name c'.capabilities ≡ some cfg)
        × (c'.file ≡ (
            if c.persist_path == ""
            then c.file
            else if writable
            then some (to_json c')
            else c.file))
  unfolding set_capability_config
  set_capability_config-file writable name cfg c = (
    ground (arith, lookup-insert_self name cfg c.capabilities),
    saved (c.persist_path == "") writable
        (record c { capabilities = insert name cfg c.capabilities }),
  )
