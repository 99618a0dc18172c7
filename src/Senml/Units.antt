-- ===== src/Senml/Units.antt =====
-- toSensorUnit and fromSensorUnit of src/shared/senml/conversion.cpp.
use rdws_us.Prelude.{
  String, false, ◌&&◌, Option, none, some, List, [], ◌∷◌, if◌then◌else◌, ◌==◌, ◌≡◌, inl, inr, refl,
  find_if, eq_iff, Bool-cases, ap, sym, subst, arith,
}
use rdws_us.Prelude.Floats.{Floats}

module _ (F : Floats) where
  pub record UnitRule : Type 0 where
    pub senml : String
    pub sensor : String
    pub factor : F.D

  pub record SenmlValue : Type 0 where
    pub unit : String
    pub value : F.D

  abbrev pub unit_rules : List UnitRule
  unit_rules =
      record { senml = "Cel"; sensor = "°C"; factor = F.lit 10 1 }
      ∷ record { senml = "%RH"; sensor = "%"; factor = F.lit 10 1 }
      ∷ record { senml = "/"; sensor = "%"; factor = F.lit 1000 1 }
      ∷ record { senml = "Pa"; sensor = "kPa"; factor = F.lit 1 3 }
      ∷ record { senml = "lx"; sensor = "lux"; factor = F.lit 10 1 }
      ∷ []

  unfoldable pub to_sensor_unit : F.D → String → String → Option F.D
  unfolding find_if
  to_sensor_unit value senml_unit sensor_unit =
      if senml_unit == ""
      then none
      else if senml_unit == sensor_unit
      then some value
      else elim (find_if (λ rule. senml_unit == rule.senml && sensor_unit == rule.sensor)
          unit_rules) [ none ↦ none | some rule ↦ some (F.mul value rule.factor) ]

  unfoldable pub from_sensor_unit : F.D → String → String → SenmlValue
  unfolding find_if
  from_sensor_unit value sensor_unit sensor_type =
      if sensor_unit == "%"
      then (if sensor_type == "humidity"
          then record { unit = "%RH"; value = value }
          else if sensor_type == "moisture"
          then record { unit = "/"; value = F.div value (F.lit 1000 1) }
          else record { unit = sensor_unit; value = value })
      else elim (find_if (λ rule. sensor_unit == rule.sensor) unit_rules) [
        | none ↦ record { unit = sensor_unit; value = value }
        | some rule ↦ record { unit = rule.senml; value = F.div value rule.factor }
      ]

  -- What a value is after it was sent and received: two units are scaled on the way.
  unfoldable pub sent_and_received : F.D → String → String → F.D
  sent_and_received value sensor_unit sensor_type =
      if sensor_unit == "%" && sensor_type == "moisture"
      then F.mul (F.div value (F.lit 1000 1)) (F.lit 1000 1)
      else if sensor_unit == "kPa"
      then F.mul (F.div value (F.lit 1 3)) (F.lit 1 3)
      else value

  -- 1.0 is neutral.
  abbrev pub OneIsNeutral : Type 0
  OneIsNeutral = (x : F.D) → (F.mul x (F.lit 10 1) ≡ x) × (F.div x (F.lit 10 1) ≡ x)

  module _ (neutral : OneIsNeutral) where
    abbrev Returns : F.D → String → String → Type 0
    Returns value sensor_unit sensor_type =
        to_sensor_unit (from_sensor_unit value sensor_unit sensor_type).value
          (from_sensor_unit value sensor_unit sensor_type).unit sensor_unit
        ≡ some (sent_and_received value sensor_unit sensor_type)

    percent : (value : F.D) (sensor_type : String) → Returns value "%" sensor_type
    unfolding to_sensor_unit from_sensor_unit sent_and_received
    percent value sensor_type = elim (Bool-cases (sensor_type == "humidity")) [
      | inl is ↦
          subst (Returns value "%") (sym ((eq_iff sensor_type "humidity").0 is))
            (ap some (neutral value).0)
      | inr not_h ↦ elim (Bool-cases (sensor_type == "moisture")) [
        | inl is ↦ subst (Returns value "%") (sym ((eq_iff sensor_type "moisture").0 is)) refl
        | inr not_m ↦ rw not_h (rw not_m refl)
      ]
    ]

    celsius : (value : F.D) (sensor_type : String) → Returns value "°C" sensor_type
    unfolding to_sensor_unit from_sensor_unit sent_and_received
    celsius value sensor_type = ground (arith, neutral value)

    kilopascal : (value : F.D) (sensor_type : String) → Returns value "kPa" sensor_type
    unfolding to_sensor_unit from_sensor_unit sent_and_received
    kilopascal value sensor_type = refl

    lux : (value : F.D) (sensor_type : String) → Returns value "lux" sensor_type
    unfolding to_sensor_unit from_sensor_unit sent_and_received
    lux value sensor_type = ground (arith, neutral value)

    other :
        (value : F.D) (u sensor_type : String)
        → (u == "") ≡ false
        → (u == "%") ≡ false
        → (u == "°C") ≡ false
        → (u == "kPa") ≡ false
        → (u == "lux") ≡ false
        → Returns value u sensor_type
    unfolding to_sensor_unit from_sensor_unit sent_and_received
    other value u sensor_type e p c k l = ground (arith, e, p, c, k, l, eq_iff u u)

    -- Every value that is sent in the unit which fromSensorUnit chooses is accepted for its sensor, and
    -- is received as it was, but for moisture and kPa, which are scaled and scaled back.
    pub to_sensor_unit-from_sensor_unit :
        (value : F.D) (sensor_unit sensor_type : String)
        → (sensor_unit == "") ≡ false
        → Returns value sensor_unit sensor_type
    to_sensor_unit-from_sensor_unit value u sensor_type nonempty = elim (Bool-cases (u == "%")) [
      | inl is ↦
          subst (λ u. Returns value u sensor_type) (sym ((eq_iff u "%").0 is))
            (percent value sensor_type)
      | inr not_p ↦ elim (Bool-cases (u == "°C")) [
        | inl is ↦
            subst (λ u. Returns value u sensor_type) (sym ((eq_iff u "°C").0 is))
              (celsius value sensor_type)
        | inr not_c ↦ elim (Bool-cases (u == "kPa")) [
          | inl is ↦
              subst (λ u. Returns value u sensor_type) (sym ((eq_iff u "kPa").0 is))
                (kilopascal value sensor_type)
          | inr not_k ↦ elim (Bool-cases (u == "lux")) [
            | inl is ↦
                subst (λ u. Returns value u sensor_type) (sym ((eq_iff u "lux").0 is))
                  (lux value sensor_type)
            | inr not_l ↦ other value u sensor_type nonempty not_p not_c not_k not_l
          ]
        ]
      ]
    ]
