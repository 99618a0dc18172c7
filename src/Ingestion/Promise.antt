-- ===== src/Ingestion/Promise.antt =====
-- What a positive answer of handleSenml of src/services/ingestion_service/AppIngestionService.cpp says
-- of the things that were sent.
use rdws_us.Prelude.{
  ℕ, String, Bool, true, false, not, ◌&&◌, ◌||◌, Option, none, some, List, [], ◌∷◌, ◌++◌, is_some,
  length, eqb, if◌then◌else◌, ◌≡◌, refl, sym, ap, ◌∙◌, arith, All, All-append, Bool-cases, inl, inr,
}
use mathlib.Core.List.{append_assoc, append-nil}
use rdws_us.Prelude.Floats.{Floats}
use rdws_us.Prelude.Table.{text_key}
use rdws_us.Json.{Json}
use rdws_us.Senml.Parse.{Record}
use rdws_us.Ingestion.Defs.{
  World, Sent, readings, config_span, telemetry, location, stored, Gathered,
}
use rdws_us.Ingestion.Handlers.{
  publish_all, span_of, report_location, latest_position, telemetry_message, is_empty,
  send_readings, send_span, send_telemetry, off_globe, is_stored,
}
use rdws_us.Ingestion.Published.{
  Timed, send_readings-All, send_span-All, send_telemetry-All, report_location-All,
}

-- What is picked from each thing that was sent, one after the other.
abbrev pub picked : {D : Type 0} → (Sent D → List (Json D)) → List (Sent D) → List (Json D)
picked f [] = []
picked f (s ∷ sent) = f s ++ picked f sent

picked-append :
    {D : Type 0} (f : Sent D → List (Json D)) (xs ys : List (Sent D))
    → picked f (xs ++ ys) ≡ picked f xs ++ picked f ys
picked-append f [] ys = refl
picked-append f (s ∷ xs) ys =
    ap (λ l. f s ++ l) (picked-append f xs ys)
    ∙ sym (append_assoc (f s) (picked f xs) (picked f ys))

picked-none :
    {D : Type 0} (f : Sent D → List (Json D)) (xs : List (Sent D))
    → All (λ s. f s ≡ []) xs
    → picked f xs ≡ []
picked-none f [] h = refl
picked-none f (s ∷ xs) h = ap (λ l. l ++ picked f xs) h.0 ∙ picked-none f xs h.1

abbrev pub readings_in : {D : Type 0} → Sent D → List (Json D)
readings_in (readings ms) = ms
readings_in _ = []

abbrev pub spans_in : {D : Type 0} → Sent D → List (Json D)
spans_in (config_span m) = m ∷ []
spans_in _ = []

module _ (F : Floats) (w : World F) where
  -- What a positive answer promises of each thing that was sent: the queue took it.
  abbrev pub IsTaken : ℕ → Sent F.D → Type 0
  IsTaken n (readings ms) = (w.batch_taken ≡ true) × (length ms ≡ n)
  IsTaken n (config_span m) = w.span_taken ≡ true
  IsTaken n _ = Unit

  -- What may be sent before a pack is stored: its readings and its span.
  abbrev pub is_required : Sent F.D → Bool
  is_required (telemetry m) = false
  is_required (location m) = false
  is_required _ = true

  unfoldable pub IsRequired : Sent F.D → Type 0
  IsRequired s = is_required s ≡ true

  span-some_left :
      (device_id : String) (g : Gathered F)
      → Timed F w g
      → is_some (span_of F w device_id g) ≡ true
      → is_empty F w g.messages ≡ false
  unfolding span_of
  span-some_left device_id g timed spanned = ground (arith, timed, spanned)

  stored-injective : (a b : ℕ) → stored a ≡ stored b → a ≡ b
  stored-injective a b h = cc

  batch-IsTaken :
      (g : Gathered F) (n : ℕ)
      → (is_empty F w g.messages || w.batch_taken) ≡ true
      → length g.messages ≡ n
      → is_empty F w g.messages ≡ false
      → IsTaken n (readings g.messages)
  batch-IsTaken g n taken many some_left = (ground (arith, taken, some_left), many)

  span_kept_lem :
      (device_id : String) (g : Gathered F)
      → (not (is_some (span_of F w device_id g)) || w.span_taken) ≡ true
      → (m : Json F.D) → span_of F w device_id g ≡ some m
      → w.span_taken ≡ true
  span_kept_lem device_id g kept m span = ground (arith, kept, span)

  telemetry-All :
      (device_id : String) (f : Sent F.D → List (Json F.D))
      → ((m : Json F.D) → f (telemetry m) ≡ [])
      → (ds : List (F.D × List (Record F.D)))
      → All (λ s. f s ≡ []) (send_telemetry F w device_id ds)
  telemetry-All device_id f h [] = tt
  telemetry-All device_id f h (d ∷ ds) =
      (h (telemetry_message F w device_id d.0 d.1), telemetry-All device_id f h ds)

  location-All :
      (device_id : String) (f : Sent F.D → List (Json F.D))
      → ((m : Json F.D) → f (location m) ≡ [])
      → (p : Option (F.D × F.D)) → All (λ s. f s ≡ []) (report_location F w device_id p)
  unfolding report_location
  location-All device_id f h none = tt
  location-All device_id f h (some (lat, lon)) = elim (Bool-cases (off_globe F w lat lon)) [
    | inl off ↦ rw off tt
    | inr on ↦ rw on (h _, tt)
  ]

  batch-picked : (ms : List (Json F.D)) → picked readings_in (send_readings F w ms) ≡ ms
  batch-picked [] = refl
  batch-picked (m ∷ ms) = append-nil (m ∷ ms)

  span-unpicked : (o : Option (Json F.D)) → picked readings_in (send_span F w o) ≡ []
  span-unpicked none = refl
  span-unpicked (some m) = refl

  -- The tail of what is sent holds neither readings nor spans.
  publish_all-picked :
      (device_id : String) (g : Gathered F) (f : Sent F.D → List (Json F.D))
      → ((m : Json F.D) → f (telemetry m) ≡ [])
      → ((m : Json F.D) → f (location m) ≡ [])
      → picked f (
          send_readings F w g.messages
          ++ (send_span F w (span_of F w device_id g)
              ++ (send_telemetry F w device_id g.diagnostics
                  ++ report_location F w device_id (latest_position F w g.positions))))
        ≡ picked f (send_readings F w g.messages)
          ++ picked f (send_span F w (span_of F w device_id g))
  publish_all-picked device_id g f no_telemetry no_location =
      let batch = send_readings F w g.messages in
      let span = send_span F w (span_of F w device_id g) in
      let diagnostics = send_telemetry F w device_id g.diagnostics in
      let position = report_location F w device_id (latest_position F w g.positions) in
      picked-append f batch (span ++ (diagnostics ++ position))
      ∙ ap (λ l. picked f batch ++ l)
          (picked-append f span (diagnostics ++ position)
            ∙ ap (λ l. picked f span ++ l)
                (picked-append f diagnostics position
                  ∙ ap (λ l. l ++ picked f position)
                      (picked-none f diagnostics
                        (telemetry-All device_id f no_telemetry g.diagnostics))
                  ∙ picked-none f position
                      (location-All device_id f no_location (latest_position F w g.positions)))
            ∙ append-nil (picked f span))

  readings-picked :
      (device_id : String) (g : Gathered F)
      → picked readings_in (send_readings F w g.messages)
          ++ picked readings_in (send_span F w (span_of F w device_id g))
        ≡ g.messages
  readings-picked device_id g =
      ap (λ l. l ++ picked readings_in (send_span F w (span_of F w device_id g)))
        (batch-picked g.messages)
      ∙ ap (λ l. g.messages ++ l) (span-unpicked (span_of F w device_id g))
      ∙ append-nil g.messages

  spans-picked :
      (device_id : String) (g : Gathered F)
      → Timed F w g
      → length (
          picked spans_in (send_readings F w g.messages)
          ++ picked spans_in (send_span F w (span_of F w device_id g)))
        ≡ (if is_some g.rec_cfg && not (is_empty F w g.messages) then 1 else 0)
  unfolding span_of
  spans-picked device_id g timed = ground (arith, timed)

  -- A positive answer: the readings and the span were sent, and the queues took them.
  abbrev pub Promised : ℕ → Gathered F → List (Sent F.D) → Type 0
  Promised n g sent =
      (n ≡ length g.messages)
      × (picked readings_in sent ≡ g.messages)
      × (length (picked spans_in sent) ≡ (if is_some g.rec_cfg && not (eqb n 0) then 1 else 0))
      × All (IsTaken n) sent

  eqb-length : (ms : List (Json F.D)) → eqb (length ms) 0 ≡ is_empty F w ms
  eqb-length [] = refl
  eqb-length (m ∷ ms) = ground arith

  span-one :
      (g : Gathered F) (n k : ℕ)
      → k ≡ (if is_some g.rec_cfg && not (is_empty F w g.messages) then 1 else 0)
      → length g.messages ≡ n
      → k ≡ (if is_some g.rec_cfg && not (eqb n 0) then 1 else 0)
  span-one g n k h many = ground (arith, h, many, eqb-length g.messages)

  pub publish_all_cases :
      (device_id : String) (g : Gathered F) (n : ℕ)
      → Timed F w g
      → ((publish_all F w device_id g).0 ≡ stored n → Promised n g (publish_all F w device_id g).1)
        × (is_stored F w (publish_all F w device_id g).0 ≡ false
            → All IsRequired (publish_all F w device_id g).1)
  unfolding publish_all IsRequired
  publish_all_cases device_id g n timed =
      elim (Bool-cases (is_empty F w g.messages || w.batch_taken)) [
        | inr failed ↦ rw failed (
          (λ e. absurd cc),
          (λ e. send_readings-All F w IsRequired device_id g (λ s. refl) (λ m s. refl)),
        )
        | inl taken ↦ elim (Bool-cases (not (is_some (span_of F w device_id g)) || w.span_taken)) [
          | inr lost ↦
              let some_left = span-some_left device_id g timed (ground (arith, lost)) in
              rw taken (
                rw lost (
                  rw some_left (
                    (λ e. absurd cc),
                    (λ e.
                        (refl, send_span-All F w IsRequired device_id g (λ s. refl) (λ m s. refl))),
                  )))
          | inl kept ↦ rw taken (
              rw kept (
                (λ e.
                    let many = stored-injective (length g.messages) n e in
                    let of_readings = batch-IsTaken g n taken many in
                    let of_span = span_kept_lem device_id g kept in
                    (
                      sym many,
                      publish_all-picked device_id g readings_in (λ m. refl) (λ m. refl)
                          ∙ readings-picked device_id g,
                      ap length (publish_all-picked device_id g spans_in (λ m. refl) (λ m. refl))
                          ∙ span-one g n _ (spans-picked device_id g timed) many,
                      All-append (IsTaken n) _ _
                          (send_readings-All F w (IsTaken n) device_id g of_readings of_span)
                          (All-append (IsTaken n) _ _
                            (send_span-All F w (IsTaken n) device_id g of_readings of_span)
                            (All-append (IsTaken n) _ _
                              (send_telemetry-All F w (IsTaken n) device_id g of_readings of_span
                                (λ m. tt) (λ m. tt) g.diagnostics)
                              (report_location-All F w (IsTaken n) device_id g of_readings of_span
                                (λ m. tt) (λ m. tt) (latest_position F w g.positions)))),
                    )),
                (λ e. absurd cc),
              ))
        ]
      ]
