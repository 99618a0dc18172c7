-- ===== src/Tests/Senml.antt =====
-- A pack with base fields, units, and a configuration with a trigger.
use rdws_us.Prelude.{
  ℕ, ◌/◌, ◌^◌, String, false, none, some, List, [], ◌∷◌, ◌≡◌, refl, ◌==◌, arith, All,
}
use rdws_us.Prelude.Int.{pos}
use rdws_us.Prelude.Floats.{Floats}
use rdws_us.Prelude.Table.{text_key, lookup}
use rdws_us.Prelude.Checked.{passed}
use rdws_us.Json.{
  Json, int, str, arr, obj, Members, Elems, members, of_members, of_elems, elems, object, find,
  find_member,
}
use rdws_us.Senml.Parse.{Record, parse}
use rdws_us.Senml.Resolve.{resolve_all, WellFormed, parse-eq-passed}
use rdws_us.Senml.Units.{
  to_sensor_unit, from_sensor_unit, sent_and_received, OneIsNeutral,
  to_sensor_unit-from_sensor_unit,
}
use rdws_us.Senml.Trigger.{config_for_firmware}
use rdws_us.Senml.Channels.{unit_of_chan}
use rdws_us.Senml.Delivery.{Converted, config_for_firmware-eq-some}
use rdws_us.Router.{to_string}
use rdws_us.Tests.Data.{naturals}

abbrev documents : List (Json ℕ)
documents =
    object (("bn", str "1/") ∷ ("n", str "5") ∷ ("v", int (pos 3)) ∷ ("u", str "Cel") ∷ [])
    ∷ object (("n", str "seq") ∷ ("v", int (pos 8)) ∷ [])
    ∷ []

abbrev record_of : String → String → ℕ → Record ℕ
record_of name unit value = record {
  name = name;
  time = 100;
  unit = unit;
  value = some value;
  bool_value = none;
  string_value = none;
  flags = 0;
}

abbrev parsed : List (Record ℕ)
parsed = record_of "1/5" "Cel" 3 ∷ record_of "1/seq" "" 8 ∷ []

parses : parse naturals (some (arr (of_elems documents))) 100 ≡ passed parsed
unfolding parse
parses = refl

parse-eq-passed_example : (parsed ≡ resolve_all naturals 100 [] documents) × All WellFormed parsed
parse-eq-passed_example = parse-eq-passed naturals documents 100 parsed parses

-- Whole numbers, with decimals cut off.
abbrev whole_numbers : Floats
whole_numbers = record naturals { lit = λ m e. m / 10 ^ e }

one-neutral : OneIsNeutral whole_numbers
one-neutral x = (omega arith, omega arith)

to_sensor_unit-from_sensor_unit_example :
    to_sensor_unit whole_numbers
      (from_sensor_unit whole_numbers 300 "%" "moisture").value
      (from_sensor_unit whole_numbers 300 "%" "moisture").unit
      "%"
    ≡ some (sent_and_received whole_numbers 300 "%" "moisture")
to_sensor_unit-from_sensor_unit_example =
    to_sensor_unit-from_sensor_unit whole_numbers one-neutral 300 "%" "moisture" refl

abbrev triggers : Elems ℕ
triggers = of_elems (object (("chan", str "temp") ∷ ("thr", int (pos 21)) ∷ []) ∷ [])

abbrev station : Members ℕ
station = of_members (
    (
      "onboard",
      arr (of_elems (object (("chan", str "temp") ∷ ("sensor_id", int (pos 5)) ∷ []) ∷ [])),
    )
    ∷ ("triggers", arr triggers)
    ∷ [])

abbrev delivered : Json ℕ
delivered = object (
    (
      "onboard",
      arr (of_elems (object (("chan", str "temp") ∷ ("sensor_id", int (pos 5)) ∷ []) ∷ [])),
    )
    ∷ (
      "triggers",
      arr (of_elems (object (("chan", str "temp") ∷ ("thr", int (pos 2100)) ∷ []) ∷ [])),
    )
    ∷ [])

has_triggers : find_member "triggers" station ≡ some (arr triggers)
unfolding find_member
has_triggers = refl

delivers :
    config_for_firmware whole_numbers pos (some (obj station)) (("5", "°C") ∷ []) ≡ some delivered
unfolding config_for_firmware to_string
delivers = refl

config_for_firmware-eq-some_example :
    (onboard : Elems ℕ) × (rules : List (Json ℕ)) × (find_member "onboard" station
      ≡ some (arr onboard))
    × (find "triggers" delivered ≡ some (arr (of_elems rules)))
    × Converted whole_numbers pos
        (unit_of_chan whole_numbers pos (("5", "°C") ∷ []) (elems onboard))
        (elems triggers)
        rules
    × ((j : String) → ("triggers" == j) ≡ false → find j delivered ≡ lookup j (members station))
config_for_firmware-eq-some_example =
    config_for_firmware-eq-some whole_numbers pos station triggers (("5", "°C") ∷ []) delivered
      has_triggers delivers
