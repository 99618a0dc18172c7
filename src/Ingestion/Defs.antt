-- ===== src/Ingestion/Defs.antt =====
-- handleSenml and onRequest of src/services/ingestion_service/AppIngestionService.cpp, and
-- toIso8601 of src/shared/senml/conversion.cpp. What is sent is listed in its order; a message that
-- is only logged when its queue fails is listed whether the queue takes it or not.
use Prim.Native.String
use rdws_us.Prelude.{
  ℕ, zero, suc, ◌+◌, ◌%◌, String, Bool, not, ◌&&◌, Option, none, some, List, [], ◌∷◌, ◌++◌,
  if◌then◌else◌, eqb, leb, ltb, is_some, value_or, any_of, ◌==◌,
}
use rdws_us.Prelude.Int.{ℤ, pos, negsuc}
use rdws_us.Prelude.Floats.{Floats}
use rdws_us.Prelude.Text.{codes, strip_prefix}
use rdws_us.Prelude.Table.{Table, text_key, lookup}
use rdws_us.Json.{Json, int, double, str, object}
use rdws_us.Senml.Parse.{Record}
use rdws_us.Senml.Units.{to_sensor_unit}
use rdws_us.Ingestion.Caches.{SensorInfo, owned_by}

pub record World (F : Floats) : Type 1 where
  -- std::time(nullptr), as a double
  pub now : F.D
  -- publishBatch on sensor_readings, and publish on device_telemetry
  pub batch_taken : Bool
  pub span_taken : Bool
  pub floor : F.D → F.D
  pub lround : F.D → ℤ
  -- gmtime_r and strftime with "%Y-%m-%dT%H:%M:%S", and snprintf's ".%03dZ"
  pub date_and_time : ℤ → String
  pub millis_suffix : ℕ → String
  -- Whether a double is a whole number: std::trunc(v) == v.
  pub is_whole : F.D → Bool
  -- rapidjson's RemoveMember
  pub remove_member : String → Table String (Json F.D) → Table String (Json F.D)

-- What the service sends: readings in one batch, a span of a configuration, diagnostics, a position.
pub data Sent (D : Type 0) : Type 0 where
  readings : List (Json D) → Sent D
  config_span : Json D → Sent D
  telemetry : Json D → Sent D
  location : Json D → Sent D

pub data Outcome : Type 0 where
  format_error : Outcome
  forbidden : Outcome
  unavailable : Outcome
  stored : ℕ → Outcome

abbrev pub is_digit : ℕ → Bool
is_digit c = leb b'0' c && leb c b'9'

-- A local name of digits is a sensor's id.
unfoldable pub is_numeric : String → Bool
unfolding any_of
is_numeric name = not (name == "") && not (any_of (λ c. not (is_digit c)) (codes name))

-- kFlagTimeUnsynced is the first bit; the known flags are the first three.
unfoldable pub flags_ok : ℕ → Bool
flags_ok flags = eqb (flags % 2) 0 && ltb flags 8

unfoldable pub prefix_of : String → String
prefix_of device_id = String.◌++◌ device_id "/"

abbrev pub local_name : String → String → String
local_name device_id name = value_or (strip_prefix (prefix_of device_id) name) ""

abbrev suc_ℤ : ℤ → ℤ
suc_ℤ (pos n) = pos (n + 1)
suc_ℤ (negsuc zero) = pos 0
suc_ℤ (negsuc (suc n)) = negsuc n

abbrev magnitude : ℤ → ℕ
magnitude (pos n) = n
magnitude (negsuc n) = n + 1

module _ (F : Floats) where
  -- The readings and the rest of a pack, as the loop gathers them.
  pub record Gathered : Type 0 where
    pub messages : List (Json F.D)
    pub rec_cfg : Option ℤ
    pub declared_cfg : Option ℤ
    pub first_time : Option F.D
    pub last_time : Option F.D
    pub diagnostics : List (F.D × List (Record F.D))
    pub positions : List (F.D × (Option F.D × Option F.D))

  abbrev pub nothing_gathered : Gathered
  nothing_gathered = record {
    messages = [];
    rec_cfg = none;
    declared_cfg = none;
    first_time = none;
    last_time = none;
    diagnostics = [];
    positions = [];
  }

  -- operator[] of a std::map by time, and an update of what it finds or makes.
  unfoldable pub at_time : {V : Type 0} → F.D → V → (V → V) → List (F.D × V) → List (F.D × V)
  at_time t new update [] = (t, update new) ∷ []
  at_time t new update ((s, v) ∷ m) =
      let later = at_time t new update m in
      if F.lt s t
      then (s, v) ∷ later
      else if F.lt t s
      then (t, update new) ∷ (s, v) ∷ m
      else (s, update v) ∷ m

  abbrev pub earliest : Option F.D → F.D → F.D
  earliest none t = t
  earliest (some s) t = if F.lt t s then t else s

  abbrev pub newest : Option F.D → F.D → F.D
  newest none t = t
  newest (some s) t = if F.lt s t then t else s

  abbrev truncated : Option F.D → Option ℤ → Option ℤ
  truncated none old = old
  truncated (some v) old = some (F.trunc v)

  module _ (w : World F) where
    unfoldable pub to_iso8601 : F.D → String
    to_iso8601 epoch_seconds =
        let whole = w.floor epoch_seconds in
        let seconds = F.trunc whole in
        let millis = magnitude (
          w.lround
            (F.mul (F.add epoch_seconds (F.mul (F.of_int (negsuc 0)) whole)) (F.lit 10000 1))) in
        if eqb millis 1000
        then String.◌++◌ (w.date_and_time (suc_ℤ seconds)) (w.millis_suffix 0)
        else String.◌++◌ (w.date_and_time seconds) (w.millis_suffix millis)

    unfoldable pub reading_message : String → String → String → F.D → String → ℕ → Json F.D
    reading_message device_id sensor_id timestamp value unit flags = object (
        ("device_id", str device_id)
        ∷ ("sensor_id", str sensor_id)
        ∷ ("timestamp", str timestamp)
        ∷ ("value", double value)
        ∷ ("unit", str unit)
        ∷ ("flags", int (pos flags))
        ∷ [])

    -- The reading that a record of a sensor is stored as, or `none` where it is dropped.
    unfoldable pub reading_of : Table String SensorInfo → String → Record F.D → Option (Json F.D)
    unfolding owned_by lookup flags_ok to_sensor_unit reading_message to_iso8601
    reading_of owners device_id r =
        let sensor_id = local_name device_id r.name in
        if owned_by owners sensor_id device_id
        then elim r.value [
          | none ↦ none
          | some v ↦
              if flags_ok r.flags
              then elim (lookup sensor_id owners) [
                | none ↦ none
                | some info ↦ elim (to_sensor_unit F v r.unit info.unit) [
                  | none ↦ none
                  | some value ↦ some (
                      reading_message device_id sensor_id (to_iso8601 r.time) value info.unit
                        r.flags)
                ]
              ]
              else none
        ]
        else none

    abbrev pub keep_diagnostic : Record F.D → Gathered → Gathered
    keep_diagnostic r g = record g {
      diagnostics = at_time {V = List (Record F.D)} r.time [] (λ rs. rs ++ r ∷ []) g.diagnostics;
    }

    abbrev place_latitude : Record F.D → Gathered → Gathered
    place_latitude r g =
        if is_some r.value
        then record g {
          positions =
              at_time {V = Option F.D × Option F.D} r.time (none, none) (λ p. (r.value, p.1))
                g.positions;
        }
        else g

    abbrev place_longitude : Record F.D → Gathered → Gathered
    place_longitude r g =
        if is_some r.value
        then record g {
          positions =
              at_time {V = Option F.D × Option F.D} r.time (none, none) (λ p. (p.0, r.value))
                g.positions;
        }
        else g

    unfoldable pub gather_other : String → Record F.D → Gathered → Gathered
    unfolding at_time
    gather_other local r g =
        if local == "rec_cfg"
        then record g { rec_cfg = truncated r.value g.rec_cfg }
        else if local == "cfg_version"
        then keep_diagnostic r (record g { declared_cfg = truncated r.value g.declared_cfg })
        else if local == "lat"
        then keep_diagnostic r (place_latitude r g)
        else if local == "lon"
        then keep_diagnostic r (place_longitude r g)
        else keep_diagnostic r g

    unfoldable pub gather_reading : Option (Json F.D) → F.D → Gathered → Gathered
    gather_reading none time g = g
    gather_reading (some m) time g = record g {
      messages = g.messages ++ m ∷ [];
      first_time = some (earliest g.first_time time);
      last_time = some (newest g.last_time time);
    }

    unfoldable pub gather :
        Table String SensorInfo → String → List (Record F.D) → Gathered → Gathered
    unfolding is_numeric gather_other gather_reading reading_of strip_prefix prefix_of
    gather owners device_id [] g = g
    gather owners device_id (r ∷ rs) g =
        let local = local_name device_id r.name in
        gather owners device_id rs (
          if is_numeric local
          then gather_reading (reading_of owners device_id r) r.time g
          else gather_other local r g)
