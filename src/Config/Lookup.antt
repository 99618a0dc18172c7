-- ===== src/Config/Lookup.antt =====
-- What a lookup in the gateway's configuration finds.
use rdws_us.Prelude.{String, Bool, true, none, some, ◌≡◌, ◌==◌, arith, if◌then◌else◌}
use rdws_us.Prelude.Int.{pos, ltb_ℤ}
use rdws_us.Prelude.Table.{text_key, lookup, lookup-insert, lookup-erase}
use rdws_us.Config.Defs.{
  CapabilityConfig, GatewayConfig, override, for_capability, timeout_for, is_enabled, set_defaults,
  set_capability_config, remove_capability_config, set_feature,
}

module _ {D : Type 0} where
  -- The timeout of a capability is positive whatever is configured: it is the capability's own
  -- where that is positive, else the default where that is, else 30 seconds.
  pub timeout_for_cases :
      (capability : String) (c : GatewayConfig D)
      → (ltb_ℤ (pos 0) (timeout_for capability c) ≡ true)
        × (timeout_for capability c ≡ elim (lookup capability c.capabilities) [
          | none ↦ if ltb_ℤ (pos 0) c.defaults.timeout_ms then c.defaults.timeout_ms else pos 30000
          | some over ↦
              if ltb_ℤ (pos 0) over.timeout_ms
              then over.timeout_ms
              else if ltb_ℤ (pos 0) c.defaults.timeout_ms
              then c.defaults.timeout_ms
              else pos 30000
        ])
  unfolding timeout_for for_capability
  timeout_for_cases capability c = (ground arith, ground arith)

  -- Setting the configuration of one capability overrides the defaults for it, removing it gives
  -- the defaults back, and no other capability's configuration changes.
  pub for_capability-set :
      (writable : Bool) (name capability : String) (cfg : CapabilityConfig) (c : GatewayConfig D)
      → (for_capability capability (set_capability_config writable name cfg c)
          ≡ (if name == capability then override c.defaults cfg else for_capability capability c))
        × (for_capability capability (remove_capability_config writable name c)
            ≡ (if name == capability then c.defaults else for_capability capability c))
  unfolding for_capability set_capability_config remove_capability_config
  for_capability-set writable name capability cfg c = (
    ground (arith, lookup-insert name capability cfg c.capabilities),
    ground (arith, lookup-erase name capability c.capabilities),
  )

  -- A flag that is set reads as it was set, and the other flags as before; setting the defaults
  -- changes no flag.
  pub is_enabled-set :
      (writable on default : Bool) (name feature : String) (cfg : CapabilityConfig)
      (c : GatewayConfig D)
      → (is_enabled feature default (set_feature writable name on c)
          ≡ (if name == feature then on else is_enabled feature default c))
        × (is_enabled feature default (set_defaults writable cfg c) ≡ is_enabled feature default c)
  unfolding is_enabled set_feature set_defaults
  is_enabled-set writable on default name feature cfg c =
      (ground (arith, lookup-insert name feature on c.features), ground arith)
