-- ===== src/Senml/Trigger.antt =====
-- src/shared/senml/trigger_config.cpp: the trigger rules of a configuration on their way to a
-- station. A configuration is its document; std::llround is a parameter.
use rdws_us.Prelude.{
  String, Option, none, some, List, [], ◌∷◌, if◌then◌else◌, ◌==◌, is_some, find_if,
}
use rdws_us.Prelude.Int.{ℤ}
use rdws_us.Prelude.Floats.{Floats}
use rdws_us.Prelude.Table.{Table, text_key, lookup}
use rdws_us.Json.{
  Json, int, arr, obj, members, elems, of_elems, object, find, find_member, get_string, get_int64,
}
use rdws_us.Json.Merge.{assign}
use rdws_us.Router.{to_string}
use rdws_us.Senml.Parse.{number_of}
use rdws_us.Senml.Units.{from_sensor_unit}

module _ (F : Floats) (llround : F.D → ℤ) where
  pub record ChannelFormat : Type 0 where
    pub chan : String
    pub sensor_type : String
    pub senml_unit : String
    pub fixed_point_scale : F.D

  abbrev pub channels : List ChannelFormat
  channels =
      record {
        chan = "temp";
        sensor_type = "temperature";
        senml_unit = "Cel";
        fixed_point_scale = F.lit 1000 1;
      }
      ∷ record {
        chan = "humidity";
        sensor_type = "humidity";
        senml_unit = "%RH";
        fixed_point_scale = F.lit 1000 1;
      }
      ∷ record {
        chan = "press";
        sensor_type = "pressure";
        senml_unit = "Pa";
        fixed_point_scale = F.lit 10 1;
      }
      ∷ []

  unfoldable pub to_firmware_fixed_point : F.D → String → String → Option ℤ
  unfolding find_if from_sensor_unit
  to_firmware_fixed_point value chan sensor_unit = elim (find_if (λ c. chan == c.chan) channels) [
    | none ↦ none
    | some c ↦
        let senml = from_sensor_unit F value sensor_unit c.sensor_type in
        if senml.unit == c.senml_unit
        then some (llround (F.mul senml.value c.fixed_point_scale))
        else none
  ]

  -- The rule with the field in fixed point, or `none` where that cannot be.
  unfoldable pub convert_field :
      String → String → String → Table String (Json F.D) → Option (Table String (Json F.D))
  unfolding lookup to_firmware_fixed_point assign
  convert_field field chan sensor_unit rule = elim (lookup field rule) [
    | none ↦ some rule
    | some v ↦ elim (number_of F v) [
      | none ↦ none
      | some d ↦ elim (to_firmware_fixed_point d chan sensor_unit) [
        | none ↦ none
        | some fixed ↦ some (assign field (int fixed) rule)
      ]
    ]
  ]

  -- unitByChan: emplace keeps the first entry of a channel.
  unfoldable pub units_by_chan :
      Table String String → Table String String → List (Json F.D) → Option (Table String String)
  unfolding get_string get_int64 lookup
  units_by_chan unit_by_sensor found [] = some found
  units_by_chan unit_by_sensor found (entry ∷ entries) = elim (get_string entry "chan") [
    | none ↦ none
    | some chan ↦ elim (get_int64 entry "sensor_id") [
      | none ↦ none
      | some id ↦ elim (lookup (to_string id) unit_by_sensor) [
        | none ↦ units_by_chan unit_by_sensor found entries
        | some unit ↦
            units_by_chan unit_by_sensor
              (if is_some (lookup chan found) then found else (chan, unit) ∷ found) entries
      ]
    ]
  ]

  abbrev pub members_of : Json F.D → Table String (Json F.D)
  members_of (obj ms) = members ms
  members_of _ = []

  unfoldable pub convert_rule : Table String String → Json F.D → Option (Json F.D)
  unfolding get_string lookup convert_field
  convert_rule unit_by_chan rule = elim (get_string rule "chan") [
    | none ↦ none
    | some chan ↦ elim (lookup chan unit_by_chan) [
      | none ↦ none
      | some unit ↦ elim (convert_field "thr" chan unit (members_of rule)) [
        | none ↦ none
        | some rule' ↦ elim (convert_field "hys" chan unit rule') [
          | none ↦ none
          | some rule'' ↦ some (object rule'')
        ]
      ]
    ]
  ]

  unfoldable pub convert_rules : Table String String → List (Json F.D) → Option (List (Json F.D))
  unfolding convert_rule
  convert_rules unit_by_chan [] = some []
  convert_rules unit_by_chan (rule ∷ rules) = elim (convert_rule unit_by_chan rule) [
    | none ↦ none
    | some rule' ↦ elim (convert_rules unit_by_chan rules) [
      | none ↦ none
      | some rules' ↦ some (rule' ∷ rules')
    ]
  ]

  abbrev pub array_in : Option (Json F.D) → Option (List (Json F.D))
  array_in (some (arr vs)) = some (elems vs)
  array_in _ = none

  unfoldable pub config_for_firmware : Option (Json F.D) → Table String String → Option (Json F.D)
  unfolding find find_member units_by_chan convert_rules assign
  config_for_firmware (some (obj config)) unit_by_sensor = elim (find_member "triggers" config) [
    | none ↦ some (obj config)
    | some (arr triggers) ↦ elim (array_in (find_member "onboard" config)) [
      | none ↦ none
      | some onboard ↦ elim (units_by_chan unit_by_sensor [] onboard) [
        | none ↦ none
        | some unit_by_chan ↦ elim (convert_rules unit_by_chan (elems triggers)) [
          | none ↦ none
          | some rules ↦ some (object (assign "triggers" (arr (of_elems rules)) (members config)))
        ]
      ]
    ]
    | some _ ↦ none
  ]
  config_for_firmware _ unit_by_sensor = none
