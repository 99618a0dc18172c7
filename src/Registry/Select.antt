-- ===== src/Registry/Select.antt =====
-- ServiceRegistry::selectBestService of src/service_broker/Services/ServiceRegistry.cpp. The list of
-- available services is taken first, the lock is released, and the rest is under the lock again.
use rdws_us.Prelude.{
  ℕ, ◌+◌, ◌-◌, ◌%◌, ◌^◌, String, Bool, none, some, List, [], ◌∷◌, if◌then◌else◌, value_or, length,
  get_or,
}
use rdws_us.Prelude.Int.{ℤ, pos, ltb_ℤ}
use rdws_us.Prelude.Floats.{Floats}
use rdws_us.Prelude.Table.{Table, text_key, lookup, insert}
use rdws_us.Identity.{ServiceIdentity, get_load_percentage}
use rdws_us.Registry.{
  ServiceRegistry, LoadBalancingStrategy, round_robin, least_loaded, fastest_response, random,
}
use rdws_us.Registry.Queries.{find_available_services}

-- The loop of LEAST_LOADED and of FASTEST_RESPONSE: `best` is the service kept so far, and `least`
-- its measure, or the initial bound.
module _ {A : Type 0} (lt : A → A → Bool) (measure : ServiceIdentity → A) where
  unfoldable pub lowest_from : Table String ServiceIdentity → String → A → List String → String
  lowest_from m best least [] = best
  lowest_from m best least (id ∷ ids) = elim (lookup id m) [
    | none ↦ lowest_from m best least ids
    | some s ↦
        let lower = lowest_from m id (measure s) ids in
        let kept = lowest_from m best least ids in if lt (measure s) least then lower else kept
  ]

-- milliseconds::max()
abbrev pub max_milliseconds : ℤ
max_milliseconds = pos (2 ^ 63 - 1)

unfoldable pub choose :
    Floats
    → (ℕ → ℕ)
    → LoadBalancingStrategy
    → String
    → List String
    → ServiceRegistry
    → String × ServiceRegistry
unfolding lowest_from
choose F draw strategy capability [] r = ("", r)
choose F draw round_robin capability (first ∷ rest) r =
    let available = first ∷ rest in
    let counter = value_or (lookup capability r.round_robin_counters) 0 in
    (
      get_or available (counter % length available) "",
      record r {
        round_robin_counters = insert capability ((counter + 1) % 2 ^ 64) r.round_robin_counters;
      },
    )
choose F draw least_loaded capability (first ∷ rest) r =
    (lowest_from F.lt (get_load_percentage F) r.identities first (F.lit 100 0) (first ∷ rest), r)
choose F draw fastest_response capability (first ∷ rest) r = (
  lowest_from ltb_ℤ (λ s. s.avg_response_time) r.identities first max_milliseconds (first ∷ rest),
  r,
)
choose F draw random capability (first ∷ rest) r =
    let available = first ∷ rest in (get_or available (draw (length available)) "", r)

-- `draw n` is the sample of uniform_int_distribution(0, n - 1).
unfoldable pub select_best_service :
    Floats
    → (ℕ → ℕ)
    → ℕ
    → String
    → LoadBalancingStrategy
    → ServiceRegistry
    → String × ServiceRegistry
select_best_service F draw now capability strategy r =
    choose F draw strategy capability (find_available_services now capability r) r
