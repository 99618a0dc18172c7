-- ===== src/Tests/Ingestion.antt =====
-- A pack of a device with one sensor, from its arrival to the database.
use rdws_us.Prelude.{
  ℕ, String, true, false, none, some, Option, [], ◌∷◌, ◌≡◌, refl, All, if◌then◌else◌, ◌==◌,
}
use rdws_us.Prelude.Int.{pos}
use rdws_us.Prelude.Table.{Table, text_key, erase}
use rdws_us.Json.{Json, int, double, str, arr, of_elems, object}
use rdws_us.Senml.Parse.{Record}
use rdws_us.Ingestion.Caches.{SensorInfo}
use rdws_us.Ingestion.Defs.{World, stored, nothing_gathered, gather}
use rdws_us.Ingestion.Handlers.{handle_senml, is_stored}
use rdws_us.Ingestion.Promise.{is_required}
use rdws_us.Ingestion.Safety.{IsOwn, handle_senml-IsOwn, Accepted, handle_senml-IsTaken}
use rdws_us.Ingestion.Span.{Covers, reading_times, gather-Covers}
use rdws_us.Writer.Defs.{Writer, new_writer, handle_message, wait_for_database}
use rdws_us.Writer.Durable.{IsSafe, handle_message-IsSafe}
use rdws_us.Writer.Pace.{IsPaced, Running, Turn, Running-IsPaced}
use rdws_us.Tests.Data.{naturals}

abbrev world : World naturals
world = record {
  now = 100;
  batch_taken = true;
  span_taken = true;
  floor = λ x. x;
  lround = pos;
  date_and_time = λ t. "2026-01-01T00:00:00";
  millis_suffix = λ n. ".000Z";
  is_whole = λ x. true;
  remove_member = erase;
}

abbrev owners : Table String SensorInfo
owners = ("5", record { device_id = "1"; unit = "Cel" }) ∷ []

abbrev pack : Option (Json ℕ)
pack = some (
    arr (
      of_elems (
        object (("bn", str "1/") ∷ ("n", str "5") ∷ ("v", int (pos 3)) ∷ ("u", str "Cel") ∷ [])
        ∷ object (("n", str "rec_cfg") ∷ ("v", int (pos 22)) ∷ [])
        ∷ [])))

abbrev reading : Record ℕ
reading = record {
  name = "1/5";
  time = 100;
  unit = "Cel";
  value = some 3;
  bool_value = none;
  string_value = none;
  flags = 0;
}

stores_one : (handle_senml naturals world (some owners) "1" pack).0 ≡ stored 1
unfolding handle_senml
stores_one = refl

handle_senml-IsOwn_example :
    All
      (IsOwn naturals world owners "1" pack)
      (handle_senml naturals world (some owners) "1" pack).1.1
handle_senml-IsOwn_example = handle_senml-IsOwn naturals world owners "1" pack

handle_senml-IsTaken_example :
    ((handle_senml naturals world (some owners) "1" pack).0 ≡ stored 1
      → Accepted naturals world
          (some owners)
          "1"
          pack
          1
          (handle_senml naturals world (some owners) "1" pack).1.1)
    × (is_stored naturals world (handle_senml naturals world (some owners) "1" pack).0 ≡ false
        → All
            (λ s. is_required naturals world s ≡ true)
            (handle_senml naturals world (some owners) "1" pack).1.1)
handle_senml-IsTaken_example = handle_senml-IsTaken naturals world (some owners) "1" pack 1

gather-Covers_example :
    Covers naturals world
      (gather naturals world owners "1" (reading ∷ []) (nothing_gathered naturals))
      (reading_times naturals world owners "1" (reading ∷ []))
gather-Covers_example =
    gather-Covers naturals world owners "1" (reading ∷ []) (nothing_gathered naturals)

abbrev writes : rdws_us.Writer.Defs.World
writes = record {
  now = 5000;
  write_error = none;
  dead_taken = true;
  failed_at = "2026-01-01T00:00:00Z";
}

abbrev message : Json ℕ
message = object (
    ("device_id", str "1")
    ∷ ("sensor_id", str "5")
    ∷ ("timestamp", str "2026-01-01T00:00:00.000Z")
    ∷ ("value", double 3)
    ∷ ("unit", str "Cel")
    ∷ ("flags", int (pos 0))
    ∷ [])

abbrev written : Json ℕ → String
written m = "reading"

abbrev read_back : String → Option (Json ℕ)
read_back text = if text == "reading" then some message else none

handle_message-IsSafe_example :
    IsSafe naturals writes new_writer (handle_message naturals writes "{}" none new_writer)
handle_message-IsSafe_example = handle_message-IsSafe naturals writes "{}" none new_writer

abbrev waited : Writer
waited = wait_for_database false 6000 (wait_for_database true 5000 new_writer)

waited-Running : Running naturals waited
waited-Running =
    Running.turns (Running.turns Running.starts (Turn.probes true 5000 refl))
      (Turn.probes false 6000 refl)

Running-IsPaced_example : IsPaced waited
Running-IsPaced_example = Running-IsPaced naturals waited waited-Running
