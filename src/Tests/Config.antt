-- ===== src/Tests/Config.antt =====
-- A configuration with one capability, and one with its defaults.
use rdws_us.Prelude.{ℕ, false, none, some, [], ◌∷◌, ◌≡◌, refl}
use rdws_us.Prelude.Table.{text_key, lookup, erase, Distinct, lookup-erase, erase-Distinct}
use rdws_us.Json.{Json, str, null, object, find}
use rdws_us.Json.Merge.{merge_patch, members_or_none, overridden, find-merge_patch}
use rdws_us.Config.{for_capability, is_enabled, from_file, parsed, to_json, make_config}
use rdws_us.Config.Persistence.{IsWritable, from_file-to_json}
use rdws_us.Tests.Data.{config}

config-IsWritable : IsWritable config
unfolding lookup
config-IsWritable = record {
  distinct_capabilities = (refl, tt);
  distinct_features = (refl, tt);
  default_range = (refl, refl);
  capability_ranges = ((refl, refl), tt);
}

from_file-to_json_example :
    let loaded = from_file "gateway.json" (parsed (to_json config)) in
    (for_capability "echo" loaded ≡ for_capability "echo" config)
    × (is_enabled "metrics_collection" false loaded
        ≡ elim (lookup "metrics_collection" config.features) [
          | none ↦ is_enabled "metrics_collection" false (make_config {D = ℕ} "gateway.json")
          | some on ↦ on
        ])
from_file-to_json_example =
    from_file-to_json "gateway.json" "echo" "metrics_collection" false config config-IsWritable

abbrev base : Json ℕ
base = object (("a", str "1") ∷ ("b", str "2") ∷ [])

abbrev patch : Json ℕ
patch = object (("a", null) ∷ ("c", str "3") ∷ [])

base-Distinct : Distinct (members_or_none (some base))
unfolding lookup
base-Distinct = (refl, (refl, tt))

patch-Distinct : Distinct (members_or_none (some patch))
unfolding lookup
patch-Distinct = (refl, (refl, tt))

find-merge_patch_example :
    find "a" (merge_patch erase (some base) (some patch))
    ≡ overridden
        (lookup "a" (members_or_none (some patch)))
        (lookup "a" (members_or_none (some base)))
find-merge_patch_example =
    find-merge_patch erase (λ k ms d. (erase-Distinct k ms d, (λ j. lookup-erase k j ms)))
      (some base) (some patch) "a" base-Distinct patch-Distinct
