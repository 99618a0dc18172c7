-- ===== src/Writer/Durable.antt =====
-- No message is lost: what the handlers of src/services/reading_writer_service/
-- AppReadingWriterService.cpp acknowledge is stored, or kept in a dead-letter queue.
use rdws_us.Prelude.{
  ℕ, String, Bool, true, false, Option, none, some, List, [], value_or, any_of, ◌==◌, ◌≡◌, ◌⊎◌,
  refl, sym, subst, arith, Bool-cases, Option-cases, inl, inr,
}
use rdws_us.Prelude.Int.{pos}
use rdws_us.Prelude.Floats.{Floats}
use rdws_us.Json.{Json, get_string, get_int, get_double, get_object}
use rdws_us.Writer.Defs.{
  Outcome, ack, requeue, DatabaseError, World, Effect, reading_stored, telemetry_stored,
  span_stored, last_seen, Writer, is_poison, schedule_retry, touch_last_seen, dead_letter,
  on_write_failure, write, touch_if, handle_message, handle_config_span, handle_telemetry_message,
  Handled, parsed_object, write_succeeded,
}

abbrev pub is_ack : Outcome → Bool
is_ack ack = true
is_ack requeue = false

-- The message, or its substance, outlives the acknowledgement.
abbrev pub is_durable : {D : Type 0} → Effect D → Bool
is_durable (last_seen d) = false
is_durable _ = true

module _ (F : Floats) (w : World) where
  -- Acknowledged exactly if something durable took effect, and consumption is paused, for a positive
  -- time, only where the message is redelivered.
  abbrev pub IsSafe : Writer → Handled F → Type 0
  IsSafe s h =
      (is_ack h.0 ≡ any_of is_durable h.1.1)
      × ((h.0 ≡ ack) ⊎ (h.1.1 ≡ []))
      × ((h.1.0.db_down ≡ s.db_down) ⊎ ((h.0 ≡ requeue) × (h.1.0.db_down ≡ true)))

  dead_letter-IsSafe :
      (body reason sqlstate error : String) (s : Writer)
      → IsSafe s (dead_letter F w body reason sqlstate error s)
  unfolding dead_letter any_of
  dead_letter-IsSafe body reason sqlstate error s = elim (Bool-cases w.dead_taken) [
    | inl taken ↦ rw taken (refl, inl refl, inl refl)
    | inr full ↦ rw full (refl, inr refl, inl refl)
  ]

  on_write_failure-IsSafe :
      (reason body : String) (e : DatabaseError) (s : Writer)
      → IsSafe s (on_write_failure F w reason body e s)
  unfolding on_write_failure schedule_retry any_of
  on_write_failure-IsSafe reason body e s = elim (Bool-cases (is_poison e.sqlstate)) [
    | inl poison ↦ rw poison (dead_letter-IsSafe body reason e.sqlstate e.what s)
    | inr outage ↦ rw outage (refl, inr refl, inr (refl, refl))
  ]

  write-IsSafe :
      (stored : Effect F.D) (reason body : String) (after : Writer → Writer × List (Effect F.D))
      (s : Writer)
      → is_durable stored ≡ true
      → ((t : Writer) → (after t).0.db_down ≡ t.db_down)
      → IsSafe s (write F w stored reason body after s)
  unfolding write any_of
  write-IsSafe stored reason body after s durable same = elim (Option-cases w.write_error) [
    | inl fine ↦ rw fine (rw durable (refl, inl refl, inl (same (write_succeeded s))))
    | inr (e, failed) ↦ rw failed (on_write_failure-IsSafe reason body e s)
  ]

  touch_last_seen-db_down :
      (now : ℕ) (device_id : String) (s : Writer)
      → (touch_last_seen F now device_id s).0.db_down ≡ s.db_down
  unfolding touch_last_seen
  touch_last_seen-db_down now device_id s = ground arith

  touch_if-db_down :
      (device_id : Option String) (s : Writer) → (touch_if F w device_id s).0.db_down ≡ s.db_down
  touch_if-db_down none s = refl
  touch_if-db_down (some device_id) s = touch_last_seen-db_down w.now device_id s

  by_write :
      (s : Writer) (h : Handled F) (stored : Effect F.D) (reason body : String)
      (after : Writer → Writer × List (Effect F.D))
      → h ≡ write F w stored reason body after s
      → is_durable stored ≡ true
      → ((t : Writer) → (after t).0.db_down ≡ t.db_down)
      → IsSafe s h
  by_write s h stored reason body after e durable same =
      subst (IsSafe s) (sym e) (write-IsSafe stored reason body after s durable same)

  abbrev missing : String → Writer → Handled F
  missing body s =
      dead_letter F w body "missing_field" "" "sensor_id, timestamp and value are required" s

  -- A handler is safe if it does what a safe one does.
  by : (s : Writer) (h h' : Handled F) → h ≡ h' → IsSafe s h' → IsSafe s h
  by s h h' e safe = subst (IsSafe s) (sym e) safe

  -- A reading's message is acknowledged exactly if it was stored or dead-lettered, and is redelivered
  -- with nothing done otherwise; consumption is paused only where it is redelivered.
  pub handle_message-IsSafe :
      (body : String) (parsed : Option (Json F.D)) (s : Writer)
      → IsSafe s (handle_message F w body parsed s)
  unfolding handle_message
  handle_message-IsSafe body parsed s =
      let it = handle_message F w body parsed s in
      elim (Option-cases (parsed_object F w parsed)) [
        | inl bad ↦
            by s it (dead_letter F w body "malformed" "" "not a JSON object" s)
              (ground (arith, bad)) (dead_letter-IsSafe body _ _ _ s)
        | inr (doc, read) ↦ elim (Option-cases (get_string doc "sensor_id")) [
          | inl no_id ↦
              by s it (missing body s) (ground (arith, read, no_id))
                (dead_letter-IsSafe body _ _ _ s)
          | inr (sensor_id, named) ↦ elim (Option-cases (get_string doc "timestamp")) [
            | inl no_time ↦
                by s it (missing body s) (ground (arith, read, named, no_time))
                  (dead_letter-IsSafe body _ _ _ s)
            | inr (timestamp, timed) ↦ elim (Option-cases (get_double doc "value")) [
              | inl no_value ↦
                  by s it (missing body s) (ground (arith, read, named, timed, no_value))
                    (dead_letter-IsSafe body _ _ _ s)
              | inr (value, valued) ↦
                  by_write s it
                    (reading_stored sensor_id timestamp (F.show value)
                      (value_or (get_int doc "flags") (pos 0)))
                    "insert_rejected" body (touch_if F w (get_string doc "device_id"))
                    (ground (arith, read, named, timed, valued)) refl
                    (touch_if-db_down (get_string doc "device_id"))
            ]
          ]
        ]
      ]

  handle_config_span-IsSafe :
      (doc : Json F.D) (body : String) (s : Writer) → IsSafe s (handle_config_span F w doc body s)
  unfolding handle_config_span
  handle_config_span-IsSafe doc body s =
      let it = handle_config_span F w doc body s in
      let absent =
        dead_letter F w body "missing_field" ""
          "device_id, version, first_ts and last_ts are required" s in
      let safe =
        dead_letter-IsSafe body "missing_field" ""
          "device_id, version, first_ts and last_ts are required" s in
      elim (Option-cases (get_string doc "device_id")) [
        | inl none₁ ↦ by s it absent (ground (arith, none₁)) safe
        | inr (device_id, some₁) ↦ elim (Option-cases (get_int doc "version")) [
          | inl none₂ ↦ by s it absent (ground (arith, some₁, none₂)) safe
          | inr (version, some₂) ↦ elim (Option-cases (get_string doc "first_ts")) [
            | inl none₃ ↦ by s it absent (ground (arith, some₁, some₂, none₃)) safe
            | inr (first_ts, some₃) ↦ elim (Option-cases (get_string doc "last_ts")) [
              | inl none₄ ↦ by s it absent (ground (arith, some₁, some₂, some₃, none₄)) safe
              | inr (last_ts, some₄) ↦
                  by_write s it (span_stored device_id version first_ts last_ts)
                    "config_span_upsert_rejected" body (λ t. (t, []))
                    (ground (arith, some₁, some₂, some₃, some₄)) refl (λ t. refl)
            ]
          ]
        ]
      ]

  -- So is a message of diagnostics or of a configuration's span.
  pub handle_telemetry_message-IsSafe :
      (body : String) (parsed : Option (Json F.D)) (s : Writer)
      → IsSafe s (handle_telemetry_message F w body parsed s)
  unfolding handle_telemetry_message
  handle_telemetry_message-IsSafe body parsed s =
      let it = handle_telemetry_message F w body parsed s in
      let absent =
        dead_letter F w body "missing_field" "" "device_id, timestamp and data are required" s in
      let safe =
        dead_letter-IsSafe body "missing_field" "" "device_id, timestamp and data are required" s in
      elim (Option-cases (parsed_object F w parsed)) [
        | inl bad ↦
            by s it (dead_letter F w body "malformed" "" "not a JSON object" s)
              (ground (arith, bad)) (dead_letter-IsSafe body _ _ _ s)
        | inr (doc, read) ↦
            elim (Bool-cases (value_or (get_string doc "type") "" == "config_span")) [
              | inl span ↦
                  by s it (handle_config_span F w doc body s) (ground (arith, read, span))
                    (handle_config_span-IsSafe doc body s)
              | inr other ↦ elim (Option-cases (get_string doc "device_id")) [
                | inl none₁ ↦ by s it absent (ground (arith, read, other, none₁)) safe
                | inr (device_id, some₁) ↦ elim (Option-cases (get_string doc "timestamp")) [
                  | inl none₂ ↦ by s it absent (ground (arith, read, other, some₁, none₂)) safe
                  | inr (timestamp, some₂) ↦ elim (Option-cases (get_object doc "data")) [
                    | inl none₃ ↦
                        by s it absent (ground (arith, read, other, some₁, some₂, none₃)) safe
                    | inr (data_, some₃) ↦
                        by_write s it (telemetry_stored device_id timestamp data_)
                          "telemetry_upsert_rejected" body (touch_last_seen F w.now device_id)
                          (ground (arith, read, other, some₁, some₂, some₃)) refl
                          (touch_last_seen-db_down w.now device_id)
                  ]
                ]
              ]
            ]
      ]
