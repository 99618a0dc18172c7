-- ===== src/Ingestion/Readings.antt =====
-- The readings of a pack, as the loop of handleSenml of
-- src/services/ingestion_service/AppIngestionService.cpp gathers them.
use rdws_us.Prelude.{
  ◌%◌, ◌<◌, String, Bool, true, false, ◌&&◌, ◌||◌, none, some, List, [], ◌∷◌, ◌++◌, ◌==◌, any_of,
  is_some, ◌≡◌, refl, sym, subst, ap, ◌∙◌, arith, All, eq_iff, Bool-cases, Option-cases, inl, inr,
}
use mathlib.Core.List.{append_assoc, append-nil}
use rdws_us.Prelude.Int.{pos}
use rdws_us.Prelude.Floats.{Floats}
use rdws_us.Prelude.Table.{Table, text_key, lookup}
use rdws_us.Json.{Json, int, double, str, object}
use rdws_us.Senml.Parse.{Record}
use rdws_us.Senml.Units.{to_sensor_unit}
use rdws_us.Ingestion.Caches.{SensorInfo, owned_by}
use rdws_us.Ingestion.Defs.{
  World, local_name, is_numeric, flags_ok, Gathered, to_iso8601, reading_message, reading_of,
  gather_other, gather_reading, gather,
}

-- A list that is taken from another in its order: `R` relates what is kept to what it becomes, and
-- `S` holds of what is dropped.
pub data Sifted {A B : Type 0} (R : A → B → Type 0) (S : A → Type 0)
    : List A → List B → Type 0 where
  ends : Sifted R S [] []
  takes :
      {a : A} {b : B} {xs : List A} {ys : List B}
      → R a b
      → Sifted R S xs ys
      → Sifted R S (a ∷ xs) (b ∷ ys)
  skips : {a : A} {xs : List A} {ys : List B} → S a → Sifted R S xs ys → Sifted R S (a ∷ xs) ys

pub Sifted-map :
    {A B : Type 0} {R T : A → B → Type 0} {S : A → Type 0} {P : B → Type 0} {xs : List A}
    {ys : List B}
    → ((a : A) (b : B) → R a b → P b → T a b)
    → Sifted R S xs ys
    → All P ys
    → Sifted T S xs ys
Sifted-map f (Sifted.ends) h = Sifted.ends
Sifted-map f (Sifted.takes {a} {b} r s) h = Sifted.takes (f a b r h.0) (Sifted-map f s h.1)
Sifted-map f (Sifted.skips d s) h = Sifted.skips d (Sifted-map f s h)

module _ (F : Floats) (w : World F) where
  -- The record is of a sensor of the device, has a value in a unit of that sensor, no unknown flag
  -- and a time that was in step; the message has the sensor's id, the record's time, the value that
  -- was converted, the sensor's unit and the record's flags.
  abbrev pub IsReading : Table String SensorInfo → String → Record F.D → Json F.D → Type 0
  IsReading owners device_id r m =
      (info : SensorInfo) × (sent : F.D) × (value : F.D) × (is_numeric (local_name device_id r.name)
        ≡ true)
      × (lookup (local_name device_id r.name) owners ≡ some info)
      × (info.device_id ≡ device_id)
      × (r.flags % 2 ≡ 0)
      × (r.flags < 8)
      × (r.value ≡ some sent)
      × (to_sensor_unit F sent r.unit info.unit ≡ some value)
      × (m
          ≡ object (
              ("device_id", str device_id)
              ∷ ("sensor_id", str (local_name device_id r.name))
              ∷ ("timestamp", str (to_iso8601 F w r.time))
              ∷ ("value", double value)
              ∷ ("unit", str info.unit)
              ∷ ("flags", int (pos r.flags))
              ∷ []))

  abbrev pub Unread : Table String SensorInfo → String → Record F.D → Type 0
  Unread owners device_id r = (m : Json F.D) → ¬ IsReading owners device_id r m

  reading_of-IsReading :
      (owners : Table String SensorInfo) (device_id : String) (r : Record F.D) (m : Json F.D)
      → is_numeric (local_name device_id r.name) ≡ true
      → reading_of F w owners device_id r ≡ some m
      → IsReading owners device_id r m
  unfolding reading_of owned_by reading_message flags_ok
  reading_of-IsReading owners device_id r m numeric h =
      let sensor_id = local_name device_id r.name in
      elim (Option-cases (lookup sensor_id owners)) [
        | inl unknown ↦ absurd (ground (arith, unknown, h))
        | inr (info, known) ↦ elim (Option-cases r.value) [
          | inl no_value ↦ absurd (ground (arith, known, no_value, h))
          | inr (sent, valued) ↦ elim (Option-cases (to_sensor_unit F sent r.unit info.unit)) [
            | inl no_rule ↦ absurd (ground (arith, known, valued, no_rule, h))
            | inr (value, converted) ↦ (
              info,
              sent,
              value,
              numeric,
              known,
              (eq_iff info.device_id device_id).0 (ground (arith, known, h)),
              ground (arith, known, valued, h),
              ground (arith, known, valued, h),
              valued,
              converted,
              ground (arith, known, valued, converted, h),
            )
          ]
        ]
      ]

  reading_of_complete :
      (owners : Table String SensorInfo) (device_id : String) (r : Record F.D) (m : Json F.D)
      → IsReading owners device_id r m
      → is_some (reading_of F w owners device_id r) ≡ true
  unfolding reading_of owned_by flags_ok
  reading_of_complete owners device_id r m
        (info, sent, value, numeric, known, own, synced, small, valued, converted, same) =
      ground (arith, known, eq_iff info.device_id device_id, own, synced, small, valued, converted)

  -- What the loop keeps if each record that it stores and each other record keeps it.
  pub gather-Keeps {ℓ} :
      (P : Gathered F → Type ℓ) (owners : Table String SensorInfo) (device_id : String)
      (other : (local : String) (r : Record F.D) (g : Gathered F)
        → P g
        → P (gather_other F w local r g))
      (reading : (r : Record F.D) (m : Json F.D) (g : Gathered F)
        → reading_of F w owners device_id r ≡ some m
        → P g
        → P (gather_reading F w (some m) r.time g))
      (rs : List (Record F.D)) (g : Gathered F)
      → P g
      → P (gather F w owners device_id rs g)
  unfolding gather gather_reading
  gather-Keeps P owners device_id other reading [] g h = h
  gather-Keeps P owners device_id other reading (r ∷ rs) g h =
      let local = local_name device_id r.name in
      let continue = gather-Keeps P owners device_id other reading rs in
      elim (Bool-cases (is_numeric local)) [
        | inr diagnostic ↦ rw diagnostic (continue (gather_other F w local r g) (other local r g h))
        | inl numeric ↦ elim (Option-cases (reading_of F w owners device_id r)) [
          | inl dropped ↦ rw numeric (rw dropped (continue g h))
          | inr (m, kept) ↦
              rw numeric
                (rw kept (continue (gather_reading F w (some m) r.time g) (reading r m g kept h)))
        ]
      ]

  pub gather_other-Same :
      (local : String) (r : Record F.D) (g : Gathered F)
      → ((gather_other F w local r g).messages ≡ g.messages)
        × ((gather_other F w local r g).first_time ≡ g.first_time)
        × ((gather_other F w local r g).last_time ≡ g.last_time)
  unfolding gather_other
  gather_other-Same local r g = (ground arith, ground arith, ground arith)

  gather-other :
      (owners : Table String SensorInfo) (device_id : String) (r : Record F.D)
      (rs : List (Record F.D)) (g : Gathered F)
      → is_numeric (local_name device_id r.name) ≡ false
      → gather F w owners device_id (r ∷ rs) g
        ≡ gather F w owners device_id rs (gather_other F w (local_name device_id r.name) r g)
  unfolding gather
  gather-other owners device_id r rs g diagnostic = rw diagnostic refl

  gather-unread :
      (owners : Table String SensorInfo) (device_id : String) (r : Record F.D)
      (rs : List (Record F.D)) (g : Gathered F)
      → is_numeric (local_name device_id r.name) ≡ true
      → reading_of F w owners device_id r ≡ none
      → gather F w owners device_id (r ∷ rs) g ≡ gather F w owners device_id rs g
  unfolding gather gather_reading
  gather-unread owners device_id r rs g numeric unread = rw numeric (rw unread refl)

  gather-read :
      (owners : Table String SensorInfo) (device_id : String) (r : Record F.D)
      (rs : List (Record F.D)) (g : Gathered F) (m : Json F.D)
      → is_numeric (local_name device_id r.name) ≡ true
      → reading_of F w owners device_id r ≡ some m
      → gather F w owners device_id (r ∷ rs) g
        ≡ gather F w owners device_id rs (gather_reading F w (some m) r.time g)
  unfolding gather
  gather-read owners device_id r rs g m numeric read = rw numeric (rw read refl)

  with_message :
      (ms rest total : List (Json F.D)) (m : Json F.D)
      → total ≡ (ms ++ m ∷ []) ++ rest
      → total ≡ ms ++ m ∷ rest
  with_message ms rest total m h = h ∙ append_assoc ms (m ∷ []) rest

  -- The messages are the readings of the pack, in its order.
  pub gather-Sifted :
      (owners : Table String SensorInfo) (device_id : String) (rs : List (Record F.D))
      (g : Gathered F)
      → (ms : List (Json F.D)) × ((gather F w owners device_id rs g).messages ≡ g.messages ++ ms)
        × Sifted (IsReading owners device_id) (Unread owners device_id) rs ms
  unfolding gather gather_reading
  gather-Sifted owners device_id [] g = ([], sym (append-nil g.messages), Sifted.ends)
  gather-Sifted owners device_id (r ∷ rs) g =
      let local = local_name device_id r.name in
      elim (Bool-cases (is_numeric local)) [
        | inr diagnostic ↦
            let (ms, all, rest) = gather-Sifted owners device_id rs (gather_other F w local r g) in
            (
              ms,
              ap (λ h. h.messages) (gather-other owners device_id r rs g diagnostic)
                  ∙ all
                  ∙ ap (λ l. l ++ ms) (gather_other-Same local r g).0,
              Sifted.skips (λ m h. ground (arith, diagnostic, h.3)) rest,
            )
        | inl numeric ↦ elim (Option-cases (reading_of F w owners device_id r)) [
          | inl unread ↦
              let (ms, all, rest) = gather-Sifted owners device_id rs g in
              (
                ms,
                ap (λ h. h.messages) (gather-unread owners device_id r rs g numeric unread) ∙ all,
                Sifted.skips
                    (λ m h. ground (arith, unread, reading_of_complete owners device_id r m h))
                    rest,
              )
          | inr (m, read) ↦
              let (ms, all, rest) =
                gather-Sifted owners device_id rs (gather_reading F w (some m) r.time g) in
              (
                m ∷ ms,
                ap (λ h. h.messages) (gather-read owners device_id r rs g m numeric read)
                    ∙ with_message g.messages ms _ m all,
                Sifted.takes (reading_of-IsReading owners device_id r m numeric read) rest,
              )
        ]
      ]

  -- A record that names the configuration that the readings were taken under.
  abbrev pub names_configuration : String → Record F.D → Bool
  names_configuration device_id r = local_name device_id r.name == "rec_cfg" && is_some r.value

  rec_cfg-not_numeric : (local : String) → is_numeric local ≡ true → (local == "rec_cfg") ≡ false
  unfolding is_numeric any_of
  rec_cfg-not_numeric local numeric = elim (Bool-cases (local == "rec_cfg")) [
    | inl same ↦ absurd (
        let named : is_numeric "rec_cfg" ≡ true =
          subst (λ l. is_numeric l ≡ true) ((eq_iff local "rec_cfg").0 same) numeric in
        cc)
    | inr other ↦ other
  ]

  gather_other-rec_cfg :
      (local : String) (r : Record F.D) (g : Gathered F)
      → is_some (gather_other F w local r g).rec_cfg
        ≡ is_some g.rec_cfg || local == "rec_cfg" && is_some r.value
  unfolding gather_other
  gather_other-rec_cfg local r g = ground arith

  pub gather-rec_cfg :
      (owners : Table String SensorInfo) (device_id : String) (rs : List (Record F.D))
      (g : Gathered F)
      → is_some (gather F w owners device_id rs g).rec_cfg
        ≡ is_some g.rec_cfg || any_of (names_configuration device_id) rs
  unfolding gather gather_reading any_of
  gather-rec_cfg owners device_id [] g = ground arith
  gather-rec_cfg owners device_id (r ∷ rs) g =
      let local = local_name device_id r.name in
      elim (Bool-cases (is_numeric local)) [
        | inr diagnostic ↦ ground (
          arith,
          gather-other owners device_id r rs g diagnostic,
          gather-rec_cfg owners device_id rs (gather_other F w local r g),
          gather_other-rec_cfg local r g,
        )
        | inl numeric ↦ elim (Option-cases (reading_of F w owners device_id r)) [
          | inl unread ↦ ground (
            arith,
            gather-unread owners device_id r rs g numeric unread,
            gather-rec_cfg owners device_id rs g,
            rec_cfg-not_numeric local numeric,
          )
          | inr (m, read) ↦ ground (
            arith,
            gather-read owners device_id r rs g m numeric read,
            gather-rec_cfg owners device_id rs (gather_reading F w (some m) r.time g),
            rec_cfg-not_numeric local numeric,
          )
        ]
      ]
