-- ===== src/Ingestion/Caches.antt =====
-- The caches of src/services/ingestion_service/AppIngestionService.cpp: who owns a sensor, and which
-- device a PSK identity belongs to. A refresh is given the answer of the gateway's invoke.
use rdws_us.Prelude.{
  ℕ, String, Bool, false, Option, none, some, List, [], ◌∷◌, if◌then◌else◌, ◌==◌, is_some, value_or,
}
use rdws_us.Prelude.Text.{codes}
use rdws_us.Prelude.Table.{Table, text_key, lookup}
use rdws_us.Hex.{from_hex}
use rdws_us.Json.{Json, is_object, get_string, get_array}

pub record SensorInfo : Type 0 where
  pub device_id : String
  pub unit : String

pub record CachedCredential : Type 0 where
  pub key : List ℕ
  pub device_id : String

-- `sensor_owners` is `none` until the first refresh: ownersLoaded_.
pub record Caches : Type 0 where
  pub sensor_owners : Option (Table String SensorInfo)
  pub psk_cache : Table String CachedCredential

-- emplace: an entry that is there stays.
abbrev pub emplace : {V : Type 0} → String → V → Table String V → Table String V
emplace k v m = if is_some (lookup k m) then m else (k, v) ∷ m

-- What a successful invoke answers: `none` where it failed or its payload does not parse.
module _ {D : Type 0} where
  abbrev data_of : Option (Json D) → Option (List (Json D))
  data_of none = none
  data_of (some envelope) = if is_object envelope then get_array envelope "data" else none

  unfoldable pub read_owners : Table String SensorInfo → List (Json D) → Table String SensorInfo
  unfolding get_string lookup
  read_owners owners [] = owners
  read_owners owners (entry ∷ entries) = elim (get_string entry "id") [
    | none ↦ read_owners owners entries
    | some sensor_id ↦ elim (get_string entry "device_id") [
      | none ↦ read_owners owners entries
      | some device_id ↦
          read_owners
            (emplace sensor_id
              (record { device_id = device_id; unit = value_or (get_string entry "unit") "" })
              owners)
            entries
    ]
  ]

  unfoldable pub refresh_sensor_owners : Option (Json D) → Caches → Caches
  unfolding get_array read_owners
  refresh_sensor_owners response caches = elim (data_of response) [
    | none ↦ caches
    | some entries ↦ record caches { sensor_owners = some (read_owners [] entries) }
  ]

  -- `none` where fromHex throws: nothing catches it, so it ends the process.
  unfoldable pub read_credentials :
      Table String CachedCredential → List (Json D) → Option (Table String CachedCredential)
  unfolding get_string lookup from_hex
  read_credentials cache [] = some cache
  read_credentials cache (entry ∷ entries) = elim (get_string entry "psk_identity") [
    | none ↦ read_credentials cache entries
    | some identity ↦ elim (get_string entry "psk_key") [
      | none ↦ read_credentials cache entries
      | some key_hex ↦ elim (get_string entry "device_id") [
        | none ↦ read_credentials cache entries
        | some device_id ↦ elim (from_hex (codes key_hex)) [
          | none ↦ none
          | some key ↦
              read_credentials
                (emplace identity (record { key = key; device_id = device_id }) cache) entries
        ]
      ]
    ]
  ]

  unfoldable pub refresh_credentials : Option (Json D) → Caches → Option Caches
  unfolding get_array read_credentials
  refresh_credentials response caches = elim (data_of response) [
    | none ↦ some caches
    | some entries ↦ elim (read_credentials [] entries) [
      | none ↦ none
      | some cache ↦ some (record caches { psk_cache = cache })
    ]
  ]

  unfoldable pub refresh_caches : Bool → Option (Json D) → Option (Json D) → Caches → Option Caches
  unfolding refresh_credentials refresh_sensor_owners
  refresh_caches connected credentials owners caches =
      if connected
      then elim (refresh_credentials credentials caches) [
        | none ↦ none
        | some caches' ↦ some (refresh_sensor_owners owners caches')
      ]
      else some caches

unfoldable pub authenticated_device_id : Option String → Caches → String
unfolding lookup
authenticated_device_id none caches = ""
authenticated_device_id (some identity) caches = elim (lookup identity caches.psk_cache) [
  | none ↦ ""
  | some credential ↦ credential.device_id
]

unfoldable pub psk_lookup : String → Caches → Option (List ℕ)
unfolding lookup
psk_lookup identity caches = elim (lookup identity caches.psk_cache) [
  | none ↦ none
  | some credential ↦ some credential.key
]

unfoldable pub owned_by : Table String SensorInfo → String → String → Bool
unfolding lookup
owned_by owners sensor_id device_id = elim (lookup sensor_id owners) [
  | none ↦ false
  | some info ↦ info.device_id == device_id
]
