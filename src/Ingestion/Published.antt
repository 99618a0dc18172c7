-- ===== src/Ingestion/Published.antt =====
-- What publish_all sends: the publishing half of handleSenml of
-- src/services/ingestion_service/AppIngestionService.cpp.
use rdws_us.Prelude.{
  String, false, not, ◌||◌, Option, none, some, List, [], ◌∷◌, ◌++◌, is_some, ◌≡◌, refl, arith, All,
  All-append, Bool-cases, Option-cases, inl, inr,
}
use rdws_us.Prelude.Floats.{Floats}
use rdws_us.Prelude.Table.{Table, text_key}
use rdws_us.Json.{Json}
use rdws_us.Senml.Parse.{Record}
use rdws_us.Ingestion.Caches.{SensorInfo}
use rdws_us.Ingestion.Defs.{
  World, Sent, readings, config_span, telemetry, location, Gathered, nothing_gathered,
  gather_reading, gather,
}
use rdws_us.Ingestion.Handlers.{
  publish_all, span_of, report_location, latest_position, telemetry_message, is_empty,
  send_readings, send_span, send_telemetry, off_globe,
}
use rdws_us.Ingestion.Readings.{gather-Keeps, gather_other-Same}

module _ (F : Floats) (w : World F) where
  -- A reading has a span's two times.
  abbrev pub Timed : Gathered F → Type 0
  Timed g =
      (is_some g.first_time ≡ not (is_empty F w g.messages))
      × (is_some g.last_time ≡ not (is_empty F w g.messages))

  not_empty-snoc : (ms : List (Json F.D)) (m : Json F.D) → is_empty F w (ms ++ m ∷ []) ≡ false
  not_empty-snoc [] m = refl
  not_empty-snoc (x ∷ ms) m = refl

  pub gather-Timed :
      (owners : Table String SensorInfo) (device_id : String) (rs : List (Record F.D))
      → Timed (gather F w owners device_id rs (nothing_gathered F))
  unfolding gather_reading
  gather-Timed owners device_id rs =
      gather-Keeps F w Timed owners device_id
        (λ local r g h. ground (arith, gather_other-Same F w local r g, h))
        (λ r m g e h.
          (rw (not_empty-snoc g.messages m) refl, rw (not_empty-snoc g.messages m) refl))
        rs (nothing_gathered F) (refl, refl)

  -- Whatever holds of the readings, of a span, of diagnostics and of positions holds of what is sent.
  module _ {ℓ} (P : Sent F.D → Type ℓ) (device_id : String) (g : Gathered F)
      (of_readings : is_empty F w g.messages ≡ false → P (readings g.messages))
      (of_span : (m : Json F.D) → span_of F w device_id g ≡ some m → P (config_span m)) where
    pub send_readings-All : All P (send_readings F w g.messages)
    send_readings-All = elim (Bool-cases (is_empty F w g.messages)) [
      | inl none_left ↦ rw none_left tt
      | inr some_left ↦ rw some_left (of_readings some_left, tt)
    ]

    pub send_span-All : All P (send_span F w (span_of F w device_id g))
    send_span-All = elim (Option-cases (span_of F w device_id g)) [
      | inl no_span ↦ rw no_span tt
      | inr (m, span) ↦ rw span (of_span m span, tt)
    ]

    module _ (of_telemetry : (m : Json F.D) → P (telemetry m))
        (of_location : (m : Json F.D) → P (location m)) where
      pub send_telemetry-All :
          (diagnostics : List (F.D × List (Record F.D)))
          → All P (send_telemetry F w device_id diagnostics)
      send_telemetry-All [] = tt
      send_telemetry-All (d ∷ ds) =
          (of_telemetry (telemetry_message F w device_id d.0 d.1), send_telemetry-All ds)

      pub report_location-All : (p : Option (F.D × F.D)) → All P (report_location F w device_id p)
      unfolding report_location
      report_location-All none = tt
      report_location-All (some (lat, lon)) = elim (Bool-cases (off_globe F w lat lon)) [
        | inl off ↦ rw off tt
        | inr on ↦ rw on (of_location _, tt)
      ]

      pub publish_all-All : All P (publish_all F w device_id g).1
      unfolding publish_all
      publish_all-All = elim (Bool-cases (is_empty F w g.messages || w.batch_taken)) [
        | inr failed ↦ rw failed send_readings-All
        | inl taken ↦ elim (Bool-cases (not (is_some (span_of F w device_id g)) || w.span_taken)) [
          | inr lost ↦ rw taken (rw lost (All-append P _ _ send_readings-All send_span-All))
          | inl kept ↦ rw taken (
              rw kept (
                All-append P _ _ send_readings-All (
                  All-append P _ _ send_span-All (
                    All-append P _ _ (send_telemetry-All g.diagnostics)
                      (report_location-All (latest_position F w g.positions))))))
        ]
      ]
