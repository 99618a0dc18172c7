-- ===== src/Ingestion/Span.antt =====
-- The times of the span that src/services/ingestion_service/AppIngestionService.cpp publishes.
use rdws_us.Prelude.{
  String, Bool, true, false, not, ◌&&◌, Option, none, some, List, [], ◌∷◌, if◌then◌else◌, is_some,
  ◌≡◌, refl, sym, subst, arith, All, Bool-cases, Option-cases, inl, inr,
}
use rdws_us.Prelude.Floats.{Floats}
use rdws_us.Prelude.Table.{Table}
use rdws_us.Senml.Parse.{Record}
use rdws_us.Ingestion.Caches.{SensorInfo}
use rdws_us.Ingestion.Defs.{
  World, local_name, is_numeric, Gathered, earliest, newest, reading_of, gather_other,
  gather_reading, gather,
}
use rdws_us.Ingestion.Readings.{gather-Keeps, gather_other-Same}

module _ (F : Floats) (w : World F) where
  -- The times of the records that are stored as readings.
  unfoldable pub reading_times : Table String SensorInfo → String → List (Record F.D) → List F.D
  reading_times owners device_id [] = []
  reading_times owners device_id (r ∷ rs) =
      let later = reading_times owners device_id rs in
      if is_numeric (local_name device_id r.name) && is_some (reading_of F w owners device_id r)
      then r.time ∷ later
      else later

  abbrev pub within : Option F.D → Option F.D → F.D → Bool
  within (some a) (some b) t = not (F.lt t a) && not (F.lt b t)
  within _ _ t = false

  abbrev IsWithin : F.D → Gathered F → Type 0
  IsWithin t g = within g.first_time g.last_time t ≡ true

  widened :
      (first last : Option F.D) (x t : F.D)
      → within first last t ≡ true
      → within (some (earliest F first x)) (some (newest F last x)) t ≡ true
  widened none last x t h = absurd cc
  widened (some a) none x t h = absurd cc
  widened (some a) (some b) x t h = ground (arith, h, F.lt_trans t x a, F.lt_trans b x t)

  reached :
      (first last : Option F.D) (x : F.D)
      → within (some (earliest F first x)) (some (newest F last x)) x ≡ true
  reached none none x = ground (arith, F.lt_irrefl x)
  reached none (some b) x = ground (arith, F.lt_irrefl x)
  reached (some a) none x = ground (arith, F.lt_irrefl x)
  reached (some a) (some b) x = ground (arith, F.lt_irrefl x)

  stays :
      (owners : Table String SensorInfo) (device_id : String) (t : F.D) (rs : List (Record F.D))
      (g : Gathered F)
      → IsWithin t g
      → IsWithin t (gather F w owners device_id rs g)
  unfolding gather_reading
  stays owners device_id t =
      gather-Keeps F w (IsWithin t) owners device_id
        (λ local r g h. ground (arith, gather_other-Same F w local r g, h))
        (λ r m g e h. widened g.first_time g.last_time r.time t h)

  abbrev pub Covers : Gathered F → List F.D → Type 0
  Covers g ts = All (λ t. within g.first_time g.last_time t ≡ true) ts

  covers :
      (owners : Table String SensorInfo) (device_id : String) (r : Record F.D)
      (rs : List (Record F.D)) (g next : Gathered F) (times : List F.D)
      → gather F w owners device_id (r ∷ rs) g ≡ gather F w owners device_id rs next
      → reading_times owners device_id (r ∷ rs) ≡ times
      → Covers (gather F w owners device_id rs next) times
      → Covers (gather F w owners device_id (r ∷ rs) g) (reading_times owners device_id (r ∷ rs))
  covers owners device_id r rs g next times eg et h =
      subst (Covers (gather F w owners device_id (r ∷ rs) g)) (sym et)
        (subst (λ s. Covers s times) (sym eg) h)

  -- The span of a pack covers the time of every record of it that is stored as a reading.
  pub gather-Covers :
      (owners : Table String SensorInfo) (device_id : String) (rs : List (Record F.D))
      (g : Gathered F)
      → Covers (gather F w owners device_id rs g) (reading_times owners device_id rs)
  unfolding gather gather_reading reading_times
  gather-Covers owners device_id [] g = tt
  gather-Covers owners device_id (r ∷ rs) g =
      let local = local_name device_id r.name in
      let later = reading_times owners device_id rs in
      elim (Bool-cases (is_numeric local)) [
        | inr diagnostic ↦
            let next = gather_other F w local r g in
            covers owners device_id r rs g next later (rw diagnostic refl) (rw diagnostic refl)
              (gather-Covers owners device_id rs next)
        | inl numeric ↦ elim (Option-cases (reading_of F w owners device_id r)) [
          | inl dropped ↦
              covers owners device_id r rs g g later (rw numeric (rw dropped refl))
                (rw numeric (rw dropped refl)) (gather-Covers owners device_id rs g)
          | inr (m, kept) ↦
              let next = gather_reading F w (some m) r.time g in
              covers owners device_id r rs g next (r.time ∷ later) (rw numeric (rw kept refl))
                (rw numeric (rw kept refl))
                (
                  stays owners device_id r.time rs next (reached g.first_time g.last_time r.time),
                  gather-Covers owners device_id rs next,
                )
        ]
      ]
