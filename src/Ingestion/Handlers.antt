-- ===== src/Ingestion/Handlers.antt =====
-- handleSenml, configReply and onRequest of src/services/ingestion_service/AppIngestionService.cpp.
use Prim.Native.String
use rdws_us.Prelude.{
  ℕ, String, Bool, true, false, not, ◌&&◌, ◌||◌, Option, none, some, List, [], ◌∷◌, ◌++◌, map,
  if◌then◌else◌, is_some, length, any_of, ◌==◌,
}
use rdws_us.Prelude.Int.{ℤ, negsuc, ltb_ℤ}
use rdws_us.Prelude.Floats.{Floats}
use rdws_us.Prelude.Text.{strip_prefix}
use rdws_us.Prelude.Table.{Table, text_key}
use rdws_us.Prelude.Checked.{refused, passed}
use rdws_us.Json.{Json, boolean, int, double, str, object, get_object, get_int}
use rdws_us.Senml.Parse.{Record, parse}
use rdws_us.Senml.Trigger.{config_for_firmware}
use rdws_us.Ingestion.Caches.{SensorInfo, Caches, authenticated_device_id}
use rdws_us.Ingestion.Defs.{
  World, Sent, readings, config_span, telemetry, location, Outcome, format_error, forbidden,
  unavailable, stored, prefix_of, local_name, Gathered, nothing_gathered, to_iso8601, gather,
}

module _ (F : Floats) (w : World F) where
  unfoldable pub span_message : String → ℤ → F.D → F.D → Json F.D
  unfolding to_iso8601
  span_message device_id version first_time last_time = object (
      ("type", str "config_span")
      ∷ ("device_id", str device_id)
      ∷ ("version", int version)
      ∷ ("first_ts", str (to_iso8601 F w first_time))
      ∷ ("last_ts", str (to_iso8601 F w last_time))
      ∷ [])

  -- Whole values below 9.0e15 are written as integers.
  abbrev number_value : F.D → Json F.D
  number_value v =
      if w.is_whole v
        && F.lt v (F.lit 9000000000000000 0)
        && F.lt (F.of_int (negsuc 8999999999999999)) v
      then int (F.trunc v)
      else double v

  -- An empty text where no value stands does not occur: a record has one.
  abbrev value_json : Record F.D → Json F.D
  value_json r = elim r.value [
    | some v ↦ number_value v
    | none ↦ elim r.bool_value [
      | some b ↦ boolean b
      | none ↦ elim r.string_value [ some s ↦ str s | none ↦ str "" ]
    ]
  ]

  unfoldable pub telemetry_data :
      String → List (Record F.D) → Table String (Json F.D) → Table String (Json F.D)
  unfolding strip_prefix prefix_of
  telemetry_data device_id [] ms = ms
  telemetry_data device_id (r ∷ rs) ms =
      let key = local_name device_id r.name in
      telemetry_data device_id rs (w.remove_member key ms ++ (key, value_json r) ∷ [])

  unfoldable pub telemetry_message : String → F.D → List (Record F.D) → Json F.D
  unfolding telemetry_data to_iso8601
  telemetry_message device_id time rs = object (
      ("device_id", str device_id)
      ∷ ("timestamp", str (to_iso8601 F w time))
      ∷ ("data", object (telemetry_data device_id rs []))
      ∷ [])

  -- The latest instant with both coordinates: the last of the ascending list.
  unfoldable pub latest_position : List (F.D × (Option F.D × Option F.D)) → Option (F.D × F.D)
  latest_position [] = none
  latest_position ((time, (lat, lon)) ∷ rest) = elim (latest_position rest) [
    | some p ↦ some p
    | none ↦ elim lat [ none ↦ none | some x ↦ elim lon [ none ↦ none | some y ↦ some (x, y) ] ]
  ]

  abbrev pub off_globe : F.D → F.D → Bool
  off_globe lat lon =
      F.lt lat (F.of_int (negsuc 89))
      || F.lt (F.lit 900 1) lat
      || F.lt lon (F.of_int (negsuc 179))
      || F.lt (F.lit 1800 1) lon

  -- "POINT(lon lat)" as the update of the device's location, where it is on the globe.
  unfoldable pub report_location : String → Option (F.D × F.D) → List (Sent F.D)
  report_location device_id none = []
  report_location device_id (some (lat, lon)) =
      if off_globe lat lon
      then []
      else location (
          object (
            ("device_id", str device_id)
            ∷ (
              "location",
              str (
                  String.◌++◌ "POINT("
                    (String.◌++◌ (F.show lon) (String.◌++◌ " " (String.◌++◌ (F.show lat) ")")))),
            )
            ∷ []))
        ∷ []

  abbrev pub is_empty : List (Json F.D) → Bool
  is_empty [] = true
  is_empty (m ∷ ms) = false

  -- The span of a pack that names its configuration and has readings.
  unfoldable pub span_of : String → Gathered F → Option (Json F.D)
  unfolding span_message
  span_of device_id g = elim g.rec_cfg [
    | none ↦ none
    | some version ↦ elim g.first_time [
      | none ↦ none
      | some first ↦ elim g.last_time [
        | none ↦ none
        | some last ↦ some (span_message device_id version first last)
      ]
    ]
  ]

  abbrev pub send_readings : List (Json F.D) → List (Sent F.D)
  send_readings ms = if is_empty ms then [] else readings ms ∷ []

  abbrev pub send_span : Option (Json F.D) → List (Sent F.D)
  send_span none = []
  send_span (some m) = config_span m ∷ []

  abbrev pub send_telemetry : String → List (F.D × List (Record F.D)) → List (Sent F.D)
  send_telemetry device_id diagnostics =
      map (λ d. telemetry (telemetry_message device_id d.0 d.1)) diagnostics

  -- The pack once it is gathered; publishBatch takes an empty batch without sending anything.
  unfoldable pub publish_all : String → Gathered F → Outcome × List (Sent F.D)
  unfolding span_of telemetry_message report_location latest_position
  publish_all device_id g =
      let sent_readings = send_readings g.messages in
      let span = span_of device_id g in
      if is_empty g.messages || w.batch_taken
      then (if not (is_some span) || w.span_taken
          then (
            stored (length g.messages),
            sent_readings
                ++ (send_span span
                    ++ (send_telemetry device_id g.diagnostics
                        ++ report_location device_id (latest_position g.positions))),
          )
          else (
            if is_empty g.messages then stored 0 else unavailable,
            sent_readings ++ send_span span,
          ))
      else (unavailable, sent_readings)

  -- What the handler answers, the configuration that the device declares, and what was sent.
  abbrev pub Handled : Type 0
  Handled = Outcome × (Option ℤ × List (Sent F.D))

  -- A name outside the authenticated device.
  unfoldable pub any_foreign : String → List (Record F.D) → Bool
  unfolding any_of strip_prefix prefix_of
  any_foreign device_id pack =
      any_of (λ r. not (is_some (strip_prefix (prefix_of device_id) r.name))) pack

  unfoldable pub handle_senml :
      Option (Table String SensorInfo) → String → Option (Json F.D) → Handled
  unfolding parse any_foreign gather publish_all
  handle_senml owners device_id body = elim (parse F body w.now) [
    | refused m ↦ (format_error, (none, []))
    | passed pack ↦ if any_foreign device_id pack then (forbidden, (none, [])) else elim owners [
      | none ↦ (unavailable, (none, []))
      | some known ↦
          let g = gather F w known device_id pack (nothing_gathered F) in
          let (outcome, sent) = publish_all device_id g in (outcome, (g.declared_cfg, sent))
    ]
  ]

  abbrev unit_by_sensor : Option (Table String SensorInfo) → Table String String
  unit_by_sensor none = []
  unit_by_sensor (some owners) = map (λ o. (o.0, o.1.unit)) owners

  -- `response` is what a successful device_config.get answered, where it parses.
  unfoldable pub config_reply :
      (F.D → ℤ) → Option (Table String SensorInfo) → Option (Json F.D) → ℤ → Option (Json F.D)
  unfolding get_object get_int config_for_firmware
  config_reply llround owners none declared = none
  config_reply llround owners (some envelope) declared = elim (get_object envelope "data") [
    | none ↦ none
    | some data_ ↦ elim (get_int data_ "version") [
      | none ↦ none
      | some version ↦ elim (get_object data_ "config") [
        | none ↦ none
        | some config ↦
            if not (ltb_ℤ version declared) && not (ltb_ℤ declared version)
            then none
            else elim (config_for_firmware F llround (some config) (unit_by_sensor owners)) [
              | none ↦ none
              | some delivered ↦
                  some (object (("version", int version) ∷ ("config", delivered) ∷ []))
            ]
      ]
    ]
  ]

  abbrev pub is_stored : Outcome → Bool
  is_stored (stored n) = true
  is_stored _ = false

  -- The code of an answer: CoAP's class times hundred and detail.
  abbrev pub response_code : Outcome → ℕ
  response_code forbidden = 403
  response_code format_error = 400
  response_code unavailable = 503
  response_code (stored n) = 204

  unfoldable pub on_request :
      (F.D → ℤ)
      → Caches
      → Option String
      → Bool
      → Option (Json F.D)
      → Option (Json F.D)
      → ℕ × (Option (Json F.D) × List (Sent F.D))
  unfolding authenticated_device_id handle_senml config_reply
  on_request llround caches identity is_senml body response =
      let device_id = authenticated_device_id identity caches in
      if device_id == ""
      then (401, (none, []))
      else if not is_senml
      then (415, (none, []))
      else let (outcome, (declared, sent)) = handle_senml caches.sensor_owners device_id body in
        (
          response_code outcome,
          (
            if is_stored outcome
                then elim declared [
                  | none ↦ none
                  | some version ↦ config_reply llround caches.sensor_owners response version
                ]
                else none,
            sent,
          ),
        )
