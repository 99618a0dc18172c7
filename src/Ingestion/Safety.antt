-- ===== src/Ingestion/Safety.antt =====
-- What handleSenml of src/services/ingestion_service/AppIngestionService.cpp lets through to the
-- queues, and what its answers promise.
use rdws_us.Prelude.{
  ℕ, String, true, false, not, ◌&&◌, Option, some, List, [], length, eqb, any_of, if◌then◌else◌,
  ◌≡◌, ◌⊎◌, sym, subst, ap, ◌∙◌, arith, All, Bool-cases, Option-cases, inl, inr,
}
use rdws_us.Prelude.Floats.{Floats}
use rdws_us.Prelude.Table.{Table, text_key}
use rdws_us.Prelude.Checked.{passed, Checked-cases}
use rdws_us.Json.{Json}
use rdws_us.Senml.Parse.{Record, parse}
use rdws_us.Ingestion.Caches.{SensorInfo}
use rdws_us.Ingestion.Defs.{World, Sent, readings, stored, nothing_gathered, gather}
use rdws_us.Ingestion.Handlers.{publish_all, handle_senml, is_stored, any_foreign}
use rdws_us.Ingestion.Readings.{
  Sifted, IsReading, Unread, gather-Sifted, names_configuration, gather-rec_cfg,
}
use rdws_us.Ingestion.Published.{publish_all-All, gather-Timed}
use rdws_us.Ingestion.Promise.{
  picked, readings_in, spans_in, IsTaken, is_required, IsRequired, Promised, publish_all_cases,
}

some_injective : {A : Type 0} (a b : A) → some a ≡ some b → a ≡ b
some_injective a b h = cc

module _ (F : Floats) (w : World F) where
  -- What may be sent for a device: one batch of exactly the readings of the pack, in its order.
  abbrev pub IsOwn : Table String SensorInfo → String → Option (Json F.D) → Sent F.D → Type 0
  IsOwn owners device_id body (readings ms) =
      (pack : List (Record F.D)) × (parse F body w.now ≡ passed pack)
      × Sifted (IsReading F w owners device_id) (Unread F w owners device_id) pack ms
  IsOwn owners device_id body _ = Unit

  -- A pack is answered at once, with nothing sent, or it is gathered and published.
  handle_senml_cases :
      (owners : Option (Table String SensorInfo)) (device_id : String) (body : Option (Json F.D))
      → (((handle_senml F w owners device_id body).1.1 ≡ [])
          × (is_stored F w (handle_senml F w owners device_id body).0 ≡ false))
        ⊎ ((known : Table String SensorInfo) × (pack : List (Record F.D)) × (owners ≡ some known)
            × (parse F body w.now ≡ passed pack)
            × ((handle_senml F w owners device_id body).0
                ≡ (publish_all F w device_id
                    (gather F w known device_id pack (nothing_gathered F))).0)
            × ((handle_senml F w owners device_id body).1.1
                ≡ (publish_all F w device_id
                    (gather F w known device_id pack (nothing_gathered F))).1))
  unfolding handle_senml
  handle_senml_cases owners device_id body = elim (Checked-cases (parse F body w.now)) [
    | inl (m, bad) ↦ inl (ground (arith, bad), ground (arith, bad))
    | inr (pack, read) ↦ elim (Bool-cases (any_foreign F w device_id pack)) [
      | inl foreign ↦ inl (ground (arith, read, foreign), ground (arith, read, foreign))
      | inr own ↦ elim (Option-cases owners) [
        | inl unknown ↦ inl (ground (arith, read, own, unknown), ground (arith, read, own, unknown))
        | inr (known, loaded) ↦ inr (
          known,
          pack,
          loaded,
          read,
          ground (arith, read, own, loaded),
          ground (arith, read, own, loaded),
        )
      ]
    ]
  ]

  gathered-IsOwn :
      (owners : Table String SensorInfo) (device_id : String) (body : Option (Json F.D))
      (pack : List (Record F.D))
      → parse F body w.now ≡ passed pack
      → IsOwn owners device_id body
          (readings (gather F w owners device_id pack (nothing_gathered F)).messages)
  gathered-IsOwn owners device_id body pack read =
      let (ms, all, sifted) = gather-Sifted F w owners device_id pack (nothing_gathered F) in
      (
        pack,
        read,
        subst (Sifted (IsReading F w owners device_id) (Unread F w owners device_id) pack) (sym all)
            sifted,
      )

  -- A batch that is published for a device holds exactly the readings of the pack, in its order: for
  -- each record that is named by the id of a sensor registered to the device, with a value in a unit
  -- that converts to the sensor's, no unknown flag and a time that was in step, the message with that
  -- id, the record's time and flags, the converted value and the sensor's unit.
  pub handle_senml-IsOwn :
      (owners : Table String SensorInfo) (device_id : String) (body : Option (Json F.D))
      → All (IsOwn owners device_id body) (handle_senml F w (some owners) device_id body).1.1
  handle_senml-IsOwn owners device_id body =
      elim (handle_senml_cases (some owners) device_id body) [
        | inl (silent, refusal) ↦ subst (All (IsOwn owners device_id body)) (sym silent) tt
        | inr (known, pack, same, read, outcome, sent) ↦
            let g = gather F w known device_id pack (nothing_gathered F) in
            subst (All (IsOwn owners device_id body)) (sym sent) (
              publish_all-All F w (IsOwn owners device_id body) device_id g
                (λ some_left.
                  subst (λ o. IsOwn o device_id body (readings g.messages))
                    (some_injective known owners (sym same))
                    (gathered-IsOwn known device_id body pack read))
                (λ m e. tt) (λ m. tt) (λ m. tt))
      ]

  -- What a positive answer for `n` readings promises.
  abbrev pub Accepted :
      Option (Table String SensorInfo) → String → Option (Json F.D) → ℕ → List (Sent F.D) → Type 0
  Accepted owners device_id body n sent =
      (known : Table String SensorInfo) × (pack : List (Record F.D)) × (ms : List (Json F.D))
      × (owners ≡ some known)
      × (parse F body w.now ≡ passed pack)
      × Sifted (IsReading F w known device_id) (Unread F w known device_id) pack ms
      × (n ≡ length ms)
      × (picked readings_in sent ≡ ms)
      × (length (picked spans_in sent)
          ≡ (if any_of (names_configuration F w device_id) pack && not (eqb n 0) then 1 else 0))
      × All (IsTaken F w n) sent

  Promised-Accepted :
      (owners : Option (Table String SensorInfo)) (device_id : String) (body : Option (Json F.D))
      (n : ℕ) (known : Table String SensorInfo) (pack : List (Record F.D)) (sent : List (Sent F.D))
      → owners ≡ some known
      → parse F body w.now ≡ passed pack
      → Promised F w n (gather F w known device_id pack (nothing_gathered F)) sent
      → Accepted owners device_id body n sent
  Promised-Accepted owners device_id body n known pack sent same read (many, batch, spans, taken) =
      let g = gather F w known device_id pack (nothing_gathered F) in
      let (ms, all, sifted) = gather-Sifted F w known device_id pack (nothing_gathered F) in
      (
        known,
        pack,
        ms,
        same,
        read,
        sifted,
        many ∙ ap length all,
        batch ∙ all,
        spans
            ∙ ap (λ b. if b && not (eqb n 0) then 1 else 0)
                (gather-rec_cfg F w known device_id pack (nothing_gathered F)),
        taken,
      )

  -- A pack is answered with 2.04 only if all its readings, as many as the answer says, were sent, and
  -- one span where it names its configuration and has readings, and the queues took them; before that
  -- neither diagnostics nor a position is sent.
  pub handle_senml-IsTaken :
      (owners : Option (Table String SensorInfo)) (device_id : String) (body : Option (Json F.D))
      (n : ℕ)
      → ((handle_senml F w owners device_id body).0 ≡ stored n
          → Accepted owners device_id body n (handle_senml F w owners device_id body).1.1)
        × (is_stored F w (handle_senml F w owners device_id body).0 ≡ false
            → All (λ s. is_required F w s ≡ true) (handle_senml F w owners device_id body).1.1)
  unfolding IsRequired
  handle_senml-IsTaken owners device_id body n = elim (handle_senml_cases owners device_id body) [
    | inl (silent, refusal) ↦ (
      (λ e. absurd (ground (arith, refusal, e))),
      (λ e. subst (All (IsRequired F w)) (sym silent) tt),
    )
    | inr (known, pack, same, read, outcome, sent) ↦
        let g = gather F w known device_id pack (nothing_gathered F) in
        let (taken, required) =
          publish_all_cases F w device_id g n (gather-Timed F w known device_id pack) in
        (
          (λ e.
              Promised-Accepted owners device_id body n known pack _ same read
                (subst (Promised F w n g) (sym sent) (taken (sym outcome ∙ e)))),
          (λ e.
              subst (All (IsRequired F w)) (sym sent)
                (required (ap (is_stored F w) (sym outcome) ∙ e))),
        )
  ]
