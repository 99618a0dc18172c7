-- ===== src/Writer/Arrival.antt =====
-- From a pack to the database: what src/services/ingestion_service/AppIngestionService.cpp publishes is
-- stored by src/services/reading_writer_service/AppReadingWriterService.cpp. Between them a message is
-- a text: rapidjson's writer and parser are parameters.
use rdws_us.Prelude.{String, Option, some, List, ◌∷◌, ◌≡◌, All}
use rdws_us.Prelude.Int.{pos}
use rdws_us.Prelude.Floats.{Floats}
use rdws_us.Prelude.Table.{Table, text_key, lookup}
use rdws_us.Prelude.Checked.{passed}
use rdws_us.Json.{Json}
use rdws_us.Senml.Parse.{Record, parse}
use rdws_us.Senml.Units.{to_sensor_unit}
use rdws_us.Ingestion.Caches.{SensorInfo}
use rdws_us.Ingestion.Defs.{to_iso8601, local_name, Sent, readings}
use rdws_us.Ingestion.Readings.{Sifted, Unread}
use rdws_us.Writer.Defs.{
  ack, World, reading_stored, Writer, touch_last_seen, handle_message, write_succeeded,
}

module _ (F : Floats) (ingestion : rdws_us.Ingestion.Defs.World F) (w : World)
    (written : Json F.D → String) (read_back : String → Option (Json F.D)) (s : Writer) where
  -- The message of a record: it is acknowledged, and the first thing done with it is to store a
  -- reading with the record's sensor, its time, the value in the sensor's unit and the flags.
  abbrev pub Arrives : Table String SensorInfo → String → Record F.D → Json F.D → Type 0
  Arrives owners device_id r m =
      (info : SensorInfo) × (sent : F.D) × (value : F.D) × (lookup (local_name device_id r.name)
          owners
        ≡ some info)
      × (r.value ≡ some sent)
      × (to_sensor_unit F sent r.unit info.unit ≡ some value)
      × (handle_message F w (written m) (read_back (written m)) s ≡ (
        ack,
        (
          (touch_last_seen F w.now device_id (write_succeeded s)).0,
          reading_stored (local_name device_id r.name) (to_iso8601 F ingestion r.time)
                (F.show value) (pos r.flags)
              ∷ (touch_last_seen F w.now device_id (write_succeeded s)).1,
        ),
      ))

  -- The text of each reading that was sent is read back as the message.
  abbrev pub ReadsBack : Sent F.D → Type 0
  ReadsBack (readings ms) = All (λ m. read_back (written m) ≡ some m) ms
  ReadsBack _ = Unit

  -- What a thing that was sent comes to in the database.
  abbrev pub IsStored : Table String SensorInfo → String → Option (Json F.D) → Sent F.D → Type 0
  IsStored owners device_id body (readings ms) =
      (pack : List (Record F.D)) × (parse F body ingestion.now ≡ passed pack)
      × Sifted (Arrives owners device_id) (Unread F ingestion owners device_id) pack ms
  IsStored owners device_id body _ = Unit
