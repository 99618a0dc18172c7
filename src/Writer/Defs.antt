-- ===== src/Writer/Defs.antt =====
-- The state and the handlers of src/services/reading_writer_service/AppReadingWriterService.cpp. Times
-- are in milliseconds. Only what took effect is listed: what the database or a queue has confirmed.
use rdws_us.Prelude.{
  ℕ, ◌+◌, ◌-◌, ◌*◌, String, Bool, true, false, ◌||◌, Option, none, some, List, [], ◌∷◌,
  if◌then◌else◌, ltb, is_some, value_or, ◌==◌,
}
use rdws_us.Prelude.Int.{ℤ, pos}
use rdws_us.Prelude.Floats.{Floats}
use rdws_us.Prelude.Text.{strip_prefix}
use rdws_us.Prelude.Table.{Table, text_key, lookup, insert}
use rdws_us.Json.{Json, obj, str, object, get_string, get_int, get_double, get_object}

pub data Outcome : Type 0 where
  ack : Outcome
  requeue : Outcome

-- What a write threw: DatabaseError.
pub record DatabaseError : Type 0 where
  pub sqlstate : String
  pub what : String

pub record World : Type 0 where
  pub now : ℕ
  -- how the database answers the write of this message
  pub write_error : Option DatabaseError
  -- whether the dead-letter queue takes it
  pub dead_taken : Bool
  -- strftime of the time, in UTC
  pub failed_at : String

pub data Effect (D : Type 0) : Type 0 where
  reading_stored : String → String → String → ℤ → Effect D
  telemetry_stored : String → String → Json D → Effect D
  span_stored : String → ℤ → String → String → Effect D
  dead_lettered : Json D → Effect D
  last_seen : String → Effect D

pub record Writer : Type 0 where
  pub db_down : Bool
  pub db_backoff : ℕ
  pub retry_at : ℕ
  pub mq_backoff : ℕ
  pub mq_retry_at : ℕ
  pub last_touch : Table String ℕ

abbrev pub initial_backoff : ℕ
initial_backoff = 1000

abbrev pub max_backoff : ℕ
max_backoff = 30000

abbrev pub doubled : ℕ → ℕ
doubled b = if ltb (b * 2) max_backoff then b * 2 else max_backoff

abbrev pub new_writer : Writer
new_writer = record {
  db_down = true;
  db_backoff = initial_backoff;
  retry_at = 0;
  mq_backoff = initial_backoff;
  mq_retry_at = 0;
  last_touch = [];
}

unfoldable pub schedule_retry : ℕ → Writer → Writer
schedule_retry now s = record s { retry_at = now + s.db_backoff; db_backoff = doubled s.db_backoff }

unfoldable pub is_poison : String → Bool
unfolding strip_prefix
is_poison sqlstate = is_some (strip_prefix "22" sqlstate) || is_some (strip_prefix "23" sqlstate)

abbrev pub write_succeeded : Writer → Writer
write_succeeded s = record s { db_backoff = initial_backoff }

-- After a wait for the database: `answers` is what SELECT 1 found.
unfoldable pub wait_for_database : Bool → ℕ → Writer → Writer
unfolding schedule_retry
wait_for_database answers now s =
    if answers then record s { db_down = false } else schedule_retry now s

-- After a wait for the broker: whether both consumers are connected then.
unfoldable pub wait_for_broker : Bool → ℕ → Writer → Writer
wait_for_broker connected now s =
    if connected
    then record s { mq_backoff = initial_backoff }
    else record s { mq_retry_at = now + s.mq_backoff; mq_backoff = doubled s.mq_backoff }

module _ (F : Floats) where
  abbrev pub Handled : Type 0
  Handled = Outcome × (Writer × List (Effect F.D))

  -- At most once a minute for each device; a failure is only logged.
  unfoldable pub touch_last_seen : ℕ → String → Writer → Writer × List (Effect F.D)
  unfolding lookup insert
  touch_last_seen now device_id s = elim (lookup device_id s.last_touch) [
    | none ↦ (record s { last_touch = insert device_id now s.last_touch }, last_seen device_id ∷ [])
    | some before ↦
        if ltb (now - before) 60000
        then (s, [])
        else (record s { last_touch = insert device_id now s.last_touch }, last_seen device_id ∷ [])
  ]

  module _ (w : World) where
    abbrev pub envelope : String → String → String → String → Json F.D
    envelope body reason sqlstate error = object (
        ("reason", str reason)
        ∷ ("sqlstate", str sqlstate)
        ∷ ("error", str error)
        ∷ ("failed_at", str w.failed_at)
        ∷ ("body", str body)
        ∷ [])

    unfoldable pub dead_letter : String → String → String → String → Writer → Handled
    dead_letter body reason sqlstate error s =
        if w.dead_taken
        then (ack, (s, dead_lettered (envelope body reason sqlstate error) ∷ []))
        else (requeue, (s, []))

    -- `reason` is what the write was, with "_rejected".
    unfoldable pub on_write_failure : String → String → DatabaseError → Writer → Handled
    unfolding is_poison dead_letter schedule_retry
    on_write_failure reason body e s =
        if is_poison e.sqlstate
        then dead_letter body reason e.sqlstate e.what s
        else (requeue, (schedule_retry w.now (record s { db_down = true }), []))

    -- A write: what it stores, what it is called, and what follows where it succeeds.
    unfoldable pub write :
        Effect F.D → String → String → (Writer → Writer × List (Effect F.D)) → Writer → Handled
    unfolding on_write_failure
    write stored reason body after s = elim w.write_error [
      | some e ↦ on_write_failure reason body e s
      | none ↦ let (s', effects) = after (write_succeeded s) in (ack, (s', stored ∷ effects))
    ]

    abbrev pub touch_if : Option String → Writer → Writer × List (Effect F.D)
    touch_if none s = (s, [])
    touch_if (some device_id) s = touch_last_seen w.now device_id s

    abbrev pub parsed_object : Option (Json F.D) → Option (Json F.D)
    parsed_object (some (obj ms)) = some (obj ms)
    parsed_object _ = none

    abbrev pub missing_field : String → String → Writer → Handled
    missing_field body error s = dead_letter body "missing_field" "" error s

    unfoldable pub handle_message : String → Option (Json F.D) → Writer → Handled
    unfolding dead_letter write get_string get_double get_int touch_last_seen
    handle_message body parsed s = elim (parsed_object parsed) [
      | none ↦ dead_letter body "malformed" "" "not a JSON object" s
      | some doc ↦ elim (get_string doc "sensor_id") [
        | none ↦ missing_field body "sensor_id, timestamp and value are required" s
        | some sensor_id ↦ elim (get_string doc "timestamp") [
          | none ↦ missing_field body "sensor_id, timestamp and value are required" s
          | some timestamp ↦ elim (get_double doc "value") [
            | none ↦ missing_field body "sensor_id, timestamp and value are required" s
            | some value ↦
                write
                  (reading_stored sensor_id timestamp (F.show value)
                    (value_or (get_int doc "flags") (pos 0)))
                  "insert_rejected" body (touch_if (get_string doc "device_id")) s
          ]
        ]
      ]
    ]

    unfoldable pub handle_config_span : Json F.D → String → Writer → Handled
    unfolding dead_letter write get_string get_int
    handle_config_span doc body s =
        let missing =
          missing_field body "device_id, version, first_ts and last_ts are required" s in
        elim (get_string doc "device_id") [
          | none ↦ missing
          | some device_id ↦ elim (get_int doc "version") [
            | none ↦ missing
            | some version ↦ elim (get_string doc "first_ts") [
              | none ↦ missing
              | some first_ts ↦ elim (get_string doc "last_ts") [
                | none ↦ missing
                | some last_ts ↦
                    write (span_stored device_id version first_ts last_ts)
                      "config_span_upsert_rejected" body (λ t. (t, [])) s
              ]
            ]
          ]
        ]

    unfoldable pub handle_telemetry_message : String → Option (Json F.D) → Writer → Handled
    unfolding dead_letter write get_string get_object handle_config_span touch_last_seen
    handle_telemetry_message body parsed s =
        let missing = missing_field body "device_id, timestamp and data are required" s in
        elim (parsed_object parsed) [
          | none ↦ dead_letter body "malformed" "" "not a JSON object" s
          | some doc ↦
              let span = handle_config_span doc body s in
              if value_or (get_string doc "type") "" == "config_span"
              then span
              else elim (get_string doc "device_id") [
                | none ↦ missing
                | some device_id ↦ elim (get_string doc "timestamp") [
                  | none ↦ missing
                  | some timestamp ↦ elim (get_object doc "data") [
                    | none ↦ missing
                    | some data_ ↦
                        write (telemetry_stored device_id timestamp data_)
                          "telemetry_upsert_rejected" body (touch_last_seen w.now device_id) s
                  ]
                ]
              ]
        ]
