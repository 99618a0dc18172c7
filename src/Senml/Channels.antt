-- ===== src/Senml/Channels.antt =====
-- The channels of a station, in src/shared/senml/trigger_config.cpp: the fixed point of each, and the
-- unit of its sensor.
use rdws_us.Prelude.{
  String, Option, none, some, List, [], ◌∷◌, ◌==◌, ◌≡◌, ◌⊎◌, refl, is_some, arith, Bool-cases,
  find_if, eq_iff, if◌then◌else◌, Option-cases, inl, inr,
}
use rdws_us.Prelude.Int.{ℤ}
use rdws_us.Prelude.Floats.{Floats}
use rdws_us.Prelude.Table.{Table, text_key, lookup}
use rdws_us.Json.{Json, get_string, get_int64}
use rdws_us.Router.{to_string}
use rdws_us.Senml.Units.{from_sensor_unit}
use rdws_us.Senml.Trigger.{to_firmware_fixed_point, units_by_chan}

module _ (F : Floats) (llround : F.D → ℤ) where
  -- The fixed point of a channel: its sensor's type, the unit that a value must have, its scale.
  abbrev pub FixedPoint : String → String → F.D → ℤ → Type 0
  FixedPoint chan unit d n =
      (type : String) × (senml_unit : String) × (scale : F.D) × (((chan ≡ "temp")
          × (type ≡ "temperature")
          × (senml_unit ≡ "Cel")
          × (scale ≡ F.lit 1000 1))
        ⊎ ((chan ≡ "humidity")
            × (type ≡ "humidity")
            × (senml_unit ≡ "%RH")
            × (scale ≡ F.lit 1000 1))
        ⊎ ((chan ≡ "press") × (type ≡ "pressure") × (senml_unit ≡ "Pa") × (scale ≡ F.lit 10 1)))
      × ((from_sensor_unit F d unit type).unit ≡ senml_unit)
      × (n ≡ llround (F.mul (from_sensor_unit F d unit type).value scale))

  pub to_firmware_fixed_point_lem :
      (d : F.D) (chan unit : String) (n : ℤ)
      → to_firmware_fixed_point F llround d chan unit ≡ some n
      → FixedPoint chan unit d n
  unfolding to_firmware_fixed_point find_if
  to_firmware_fixed_point_lem d chan unit n h = elim (Bool-cases (chan == "temp")) [
    | inl hit ↦ (
      "temperature",
      "Cel",
      F.lit 1000 1,
      inl ((eq_iff chan "temp").0 hit, refl, refl, refl),
      (eq_iff (from_sensor_unit F d unit "temperature").unit "Cel").0 (ground (arith, hit, h)),
      ground (arith, hit, h),
    )
    | inr miss ↦ elim (Bool-cases (chan == "humidity")) [
      | inl hit ↦ (
        "humidity",
        "%RH",
        F.lit 1000 1,
        inr (inl ((eq_iff chan "humidity").0 hit, refl, refl, refl)),
        (eq_iff (from_sensor_unit F d unit "humidity").unit "%RH").0 (ground (arith, miss, hit, h)),
        ground (arith, miss, hit, h),
      )
      | inr miss' ↦ elim (Bool-cases (chan == "press")) [
        | inl hit ↦ (
          "pressure",
          "Pa",
          F.lit 10 1,
          inr (inr ((eq_iff chan "press").0 hit, refl, refl, refl)),
          (eq_iff (from_sensor_unit F d unit "pressure").unit "Pa").0
              (ground (arith, miss, miss', hit, h)),
          ground (arith, miss, miss', hit, h),
        )
        | inr none_left ↦ absurd (ground (arith, miss, miss', none_left, h))
      ]
    ]
  ]

  -- The unit of the sensor of an entry of "onboard", where the entry is of the channel.
  abbrev pub unit_of_entry : Table String String → String → Json F.D → Option String
  unit_of_entry unit_by_sensor chan entry = elim (get_string entry "chan") [
    | none ↦ none
    | some c ↦
        if c == chan
        then elim (get_int64 entry "sensor_id") [
          | none ↦ none
          | some id ↦ lookup (to_string id) unit_by_sensor
        ]
        else none
  ]

  -- The unit of a channel: of its first entry whose sensor is known.
  abbrev pub unit_of_chan : Table String String → List (Json F.D) → String → Option String
  unit_of_chan unit_by_sensor [] chan = none
  unit_of_chan unit_by_sensor (entry ∷ entries) chan =
      elim (unit_of_entry unit_by_sensor chan entry) [
        | some unit ↦ some unit
        | none ↦ unit_of_chan unit_by_sensor entries chan
      ]

  abbrev first_of : Option String → Option String → Option String
  first_of (some unit) later = some unit
  first_of none later = later

  abbrev with_unit : String → String → Table String String → Table String String
  with_unit chan unit found = if is_some (lookup chan found) then found else (chan, unit) ∷ found

  added :
      (unit_by_sensor found table : Table String String) (entry : Json F.D)
      (entries : List (Json F.D)) (chan c unit : String) (id : ℤ)
      → get_string entry "chan" ≡ some c
      → get_int64 entry "sensor_id" ≡ some id
      → lookup (to_string id) unit_by_sensor ≡ some unit
      → units_by_chan F llround unit_by_sensor found (entry ∷ entries) ≡ some table
      → (units_by_chan F llround unit_by_sensor (with_unit c unit found) entries ≡ some table
          → lookup chan table
            ≡ first_of
                (lookup chan (with_unit c unit found))
                (unit_of_chan unit_by_sensor entries chan))
      → lookup chan table
        ≡ first_of (lookup chan found) (unit_of_chan unit_by_sensor (entry ∷ entries) chan)
  unfolding units_by_chan lookup
  added unit_by_sensor found table entry entries chan c unit id named there known h rest =
      ground (arith, named, there, known, h, rest, eq_iff c chan)

  pub lookup-units_by_chan :
      (unit_by_sensor found table : Table String String) (entries : List (Json F.D)) (chan : String)
      → units_by_chan F llround unit_by_sensor found entries ≡ some table
      → lookup chan table ≡ first_of (lookup chan found) (unit_of_chan unit_by_sensor entries chan)
  unfolding units_by_chan
  lookup-units_by_chan unit_by_sensor found table [] chan h = ground (arith, h)
  lookup-units_by_chan unit_by_sensor found table (entry ∷ entries) chan h =
      elim (Option-cases (get_string entry "chan")) [
        | inl no_chan ↦ absurd (ground (arith, no_chan, h))
        | inr (c, named) ↦ elim (Option-cases (get_int64 entry "sensor_id")) [
          | inl no_id ↦ absurd (ground (arith, named, no_id, h))
          | inr (id, there) ↦ elim (Option-cases (lookup (to_string id) unit_by_sensor)) [
            | inl unknown ↦ ground (
              arith,
              named,
              there,
              unknown,
              h,
              lookup-units_by_chan unit_by_sensor found table entries chan,
            )
            | inr (unit, known) ↦
                added unit_by_sensor found table entry entries chan c unit id named there known h
                  (lookup-units_by_chan unit_by_sensor (with_unit c unit found) table entries chan)
          ]
        ]
      ]
