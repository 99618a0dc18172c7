-- ===== src/Writer/Pace.antt =====
-- How long src/services/reading_writer_service/AppReadingWriterService.cpp waits between its attempts.
use rdws_us.Prelude.{
  ℕ, ◌≤◌, String, Bool, true, false, Option, some, List, value_or, ◌==◌, ◌≡◌, sym, subst, arith,
  Bool-cases, Option-cases, inl, inr,
}
use rdws_us.Prelude.Floats.{Floats}
use rdws_us.Json.{Json, get_string, get_object}
use rdws_us.Writer.Defs.{
  World, DatabaseError, parsed_object, Effect, telemetry_stored, Writer, new_writer, schedule_retry,
  wait_for_database, wait_for_broker, touch_last_seen, dead_letter, on_write_failure, write,
  handle_message, handle_config_span, handle_telemetry_message, write_succeeded,
}

-- Between one second and thirty.
abbrev pub IsPaced : Writer → Type 0
IsPaced s =
    ((1000 ≤ s.db_backoff) × (s.db_backoff ≤ 30000))
    × ((1000 ≤ s.mq_backoff) × (s.mq_backoff ≤ 30000))

schedule_retry-IsPaced : (now : ℕ) (s : Writer) → IsPaced s → IsPaced (schedule_retry now s)
unfolding schedule_retry
schedule_retry-IsPaced now s h = ground (arith, h)

module _ (F : Floats) where
  touch_last_seen-IsPaced :
      (now : ℕ) (device_id : String) (s : Writer)
      → IsPaced s
      → IsPaced (touch_last_seen F now device_id s).0
  unfolding touch_last_seen
  touch_last_seen-IsPaced now device_id s h = ground (arith, h)

  handle_message-IsPaced :
      (w : World) (body : String) (parsed : Option (Json F.D)) (s : Writer)
      → IsPaced s
      → IsPaced (handle_message F w body parsed s).1.0
  unfolding handle_message write on_write_failure dead_letter schedule_retry touch_last_seen
  handle_message-IsPaced w body parsed s h = ground (arith, h)

  on_write_failure-IsPaced :
      (w : World) (reason body : String) (e : DatabaseError) (s : Writer)
      → IsPaced s
      → IsPaced (on_write_failure F w reason body e s).1.0
  unfolding on_write_failure dead_letter schedule_retry
  on_write_failure-IsPaced w reason body e s h = ground (arith, h)

  write-IsPaced :
      (w : World) (stored : Effect F.D) (reason body : String)
      (after : Writer → Writer × List (Effect F.D)) (s : Writer)
      → ((t : Writer) → IsPaced t → IsPaced (after t).0)
      → IsPaced s
      → IsPaced (write F w stored reason body after s).1.0
  unfolding write
  write-IsPaced w stored reason body after s keeps h = elim (Option-cases w.write_error) [
    | inl fine ↦ rw fine (keeps (write_succeeded s) ((omega arith, omega arith), h.1))
    | inr (e, failed) ↦ rw failed (on_write_failure-IsPaced w reason body e s h)
  ]

  handle_config_span-IsPaced :
      (w : World) (doc : Json F.D) (body : String) (s : Writer)
      → IsPaced s
      → IsPaced (handle_config_span F w doc body s).1.0
  unfolding handle_config_span write on_write_failure dead_letter schedule_retry
  handle_config_span-IsPaced w doc body s h = ground (arith, h)

  telemetry_span :
      (w : World) (body : String) (parsed : Option (Json F.D)) (s : Writer) (doc : Json F.D)
      → parsed_object F w parsed ≡ some doc
      → (value_or (get_string doc "type") "" == "config_span") ≡ true
      → handle_telemetry_message F w body parsed s ≡ handle_config_span F w doc body s
  unfolding handle_telemetry_message
  telemetry_span w body parsed s doc read span = ground (arith, read, span)

  telemetry_write :
      (w : World) (body : String) (parsed : Option (Json F.D)) (s : Writer) (doc : Json F.D)
      (device_id timestamp : String) (data_ : Json F.D)
      → parsed_object F w parsed ≡ some doc
      → (value_or (get_string doc "type") "" == "config_span") ≡ false
      → get_string doc "device_id" ≡ some device_id
      → get_string doc "timestamp" ≡ some timestamp
      → get_object doc "data" ≡ some data_
      → handle_telemetry_message F w body parsed s
        ≡ write F w
            (telemetry_stored device_id timestamp data_)
            "telemetry_upsert_rejected"
            body
            (touch_last_seen F w.now device_id)
            s
  unfolding handle_telemetry_message
  telemetry_write w body parsed s doc device_id timestamp data_ read other some₁ some₂ some₃ =
      ground (arith, read, other, some₁, some₂, some₃)

  handle_telemetry_message-IsPaced :
      (w : World) (body : String) (parsed : Option (Json F.D)) (s : Writer)
      → IsPaced s
      → IsPaced (handle_telemetry_message F w body parsed s).1.0
  unfolding handle_telemetry_message dead_letter
  handle_telemetry_message-IsPaced w body parsed s h =
      elim (Option-cases (parsed_object F w parsed)) [
        | inl bad ↦ ground (arith, bad, h)
        | inr (doc, read) ↦ elim (Option-cases (get_string doc "device_id")) [
          | inl none₁ ↦ ground (arith, read, none₁, h, handle_config_span-IsPaced w doc body s h)
          | inr (device_id, some₁) ↦ elim (Option-cases (get_string doc "timestamp")) [
            | inl none₂ ↦
                ground (arith, read, some₁, none₂, h, handle_config_span-IsPaced w doc body s h)
            | inr (timestamp, some₂) ↦ elim (Option-cases (get_object doc "data")) [
              | inl none₃ ↦
                  ground
                    (arith, read, some₁, some₂, none₃, h, handle_config_span-IsPaced w doc body s h)
              | inr (data_, some₃) ↦
                  elim (Bool-cases (value_or (get_string doc "type") "" == "config_span")) [
                    | inl span ↦
                        subst (λ h. IsPaced h.1.0)
                          (sym (telemetry_span w body parsed s doc read span))
                          (handle_config_span-IsPaced w doc body s h)
                    | inr other ↦
                        subst (λ h. IsPaced h.1.0)
                          (sym (
                            telemetry_write w body parsed s doc device_id timestamp data_ read other
                              some₁ some₂ some₃))
                          (write-IsPaced w (telemetry_stored device_id timestamp data_)
                            "telemetry_upsert_rejected" body (touch_last_seen F w.now device_id) s
                            (touch_last_seen-IsPaced w.now device_id) h)
                  ]
            ]
          ]
        ]
      ]

  -- A turn of the loop: a message of one of the queues, or a wait for the database or the broker.
  pub data Turn (s s' : Writer) : Type 0 where
    reads :
        (w : World) (body : String) (parsed : Option (Json F.D))
        → s' ≡ (handle_message F w body parsed s).1.0
        → Turn s s'
    reads_telemetry :
        (w : World) (body : String) (parsed : Option (Json F.D))
        → s' ≡ (handle_telemetry_message F w body parsed s).1.0
        → Turn s s'
    probes : (answers : Bool) (now : ℕ) → s' ≡ wait_for_database answers now s → Turn s s'
    reconnects : (connected : Bool) (now : ℕ) → s' ≡ wait_for_broker connected now s → Turn s s'

  pub data Running : Writer → Type 0 where
    starts : Running new_writer
    turns : {s s' : Writer} → Running s → Turn s s' → Running s'

  Turn-IsPaced : (s s' : Writer) → Turn s s' → IsPaced s → IsPaced s'
  unfolding wait_for_database wait_for_broker schedule_retry
  Turn-IsPaced s s' (reads w body parsed e) h =
      subst IsPaced (sym e) (handle_message-IsPaced w body parsed s h)
  Turn-IsPaced s s' (reads_telemetry w body parsed e) h =
      subst IsPaced (sym e) (handle_telemetry_message-IsPaced w body parsed s h)
  Turn-IsPaced s s' (probes answers now e) h = subst IsPaced (sym e) (ground (arith, h))
  Turn-IsPaced s s' (reconnects connected now e) h = subst IsPaced (sym e) (ground (arith, h))

  -- After any turns of the loop the waits for the database and for the broker are between one second
  -- and thirty.
  pub Running-IsPaced : (s : Writer) → Running s → IsPaced s
  Running-IsPaced s starts = ((omega arith, omega arith), (omega arith, omega arith))
  Running-IsPaced s (turns {s = t} past turn) = Turn-IsPaced t s turn (Running-IsPaced t past)
