-- ===== src/Prelude/Table.antt =====
-- std::map as a list of entries in the order of the keys. `lookup` and the laws do not depend on
-- that order; loops over a map do.
use Prim.Native.Nat.{ℕ, Ordering}
use Prim.Native.String.{String, compare}
use mathlib.Core.Path.{◌≡◌, refl, ◌∙◌}
use mathlib.Core.Bool.{Bool, true, false}
use mathlib.Core.Logic.{◌↔◌, inl, inr}
use mathlib.Core.List.{List, [], ◌∷◌}
use mathlib.Core.Option.{Option, none, some}
use native.Mathlib.Omega.{arith}
use text.Mathlib.Text.{◌==◌ as str_eq}
use text.Mathlib.TextEquality.{eq_iff}
use rdws_us.Prelude.Tests.{if◌then◌else◌, eqb, eqb_iff, ltb, is_some, Bool-cases, Option-cases}

pub record Key {ℓ} (K : Type ℓ) : Type ℓ where
  pub beq : K → K → Bool
  pub beq_iff : (a b : K) → (beq a b ≡ true) ↔ (a ≡ b)
  pub before : K → K → Bool

abbrev text_before : String → String → Bool
text_before a b = elim (compare a b) [ Ordering.lt ↦ true | _ ↦ false ]

instance abbrev pub text_key : Key String
text_key = record { beq = str_eq; beq_iff = eq_iff; before = text_before }

instance abbrev pub number_key : Key ℕ
number_key = record { beq = eqb; beq_iff = eqb_iff; before = ltb }

abbrev pub Table {ℓ κ} : Type ℓ → Type κ → Type (ℓ ⊔ κ)
Table K V = List (K × V)

pub beq_refl {ℓ} : {K : Type ℓ} ⦃key : Key K⦄ (k : K) → key.beq k k ≡ true
beq_refl ⦃key⦄ k = (key.beq_iff k k).1 refl

beq_flip {ℓ} : {K : Type ℓ} ⦃key : Key K⦄ (k j : K) → key.beq j k ≡ false → key.beq k j ≡ false
beq_flip ⦃key⦄ k j h = ground (arith, key.beq_iff k j, key.beq_iff j k)

module _ {ℓ κ} {K : Type ℓ} {V : Type κ} ⦃key : Key K⦄ where
  unfoldable pub lookup : K → Table K V → Option V
  lookup k [] = none
  lookup k ((j, v) ∷ m) = if key.beq j k then some v else lookup k m

  replace : K → V → Table K V → Table K V
  replace k v [] = []
  replace k v ((j, w) ∷ m) = if key.beq j k then (k, v) ∷ m else (j, w) ∷ replace k v m

  place : K → V → Table K V → Table K V
  place k v [] = (k, v) ∷ []
  place k v ((j, w) ∷ m) = if key.before k j then (k, v) ∷ (j, w) ∷ m else (j, w) ∷ place k v m

  -- An entry that is there is overwritten; a new one goes to its place in the order.
  unfoldable pub insert : K → V → Table K V → Table K V
  unfolding lookup replace place
  insert k v m = if is_some (lookup k m) then replace k v m else place k v m

  unfoldable pub erase : K → Table K V → Table K V
  erase k [] = []
  erase k ((j, v) ∷ m) = if key.beq j k then erase k m else (j, v) ∷ erase k m

  lookup-replace :
      (k j : K) (v : V) (m : Table K V)
      → is_some (lookup k m) ≡ true
      → lookup j (replace k v m) ≡ (if key.beq k j then some v else lookup j m)
  unfolding lookup replace
  lookup-replace k j v [] h = cc
  lookup-replace k j v ((i, w) ∷ m) h =
      ground (arith, key.beq_iff k j, key.beq_iff i k, key.beq_iff i j, lookup-replace k j v m)

  lookup-place :
      (k j : K) (v : V) (m : Table K V)
      → lookup k m ≡ none
      → lookup j (place k v m) ≡ (if key.beq k j then some v else lookup j m)
  unfolding lookup place
  lookup-place k j v [] h = refl
  lookup-place k j v ((i, w) ∷ m) h =
      ground (arith, key.beq_iff k j, key.beq_iff i k, key.beq_iff i j, lookup-place k j v m)

  pub lookup-insert :
      (k j : K) (v : V) (m : Table K V)
      → lookup j (insert k v m) ≡ (if key.beq k j then some v else lookup j m)
  unfolding insert
  lookup-insert k j v m = ground (arith, lookup-replace k j v m, lookup-place k j v m)

  pub lookup-erase :
      (k j : K) (m : Table K V) → lookup j (erase k m) ≡ (if key.beq k j then none else lookup j m)
  unfolding lookup erase
  lookup-erase k j [] = ground arith
  lookup-erase k j ((i, w) ∷ m) =
      ground (arith, key.beq_iff k j, key.beq_iff i k, key.beq_iff i j, lookup-erase k j m)

  pub lookup-insert_self : (k : K) (v : V) (m : Table K V) → lookup k (insert k v m) ≡ some v
  lookup-insert_self k v m = simp (lookup-insert, beq_refl)

  pub lookup-erase_self : (k : K) (m : Table K V) → lookup k (erase k m) ≡ none
  lookup-erase_self k m = simp (lookup-erase, beq_refl)

  -- No key stands twice.
  abbrev pub Distinct : Table K V → Type κ
  Distinct [] = Unit
  Distinct ((k, v) ∷ m) = (lookup k m ≡ none) × Distinct m

  lookup-replace_ne :
      (k j : K) (v : V) (m : Table K V)
      → key.beq k j ≡ false
      → lookup j (replace k v m) ≡ lookup j m
  unfolding lookup replace
  lookup-replace_ne k j v [] h = refl
  lookup-replace_ne k j v ((i, w) ∷ m) h =
      ground (arith, key.beq_iff k j, key.beq_iff i k, key.beq_iff i j, lookup-replace_ne k j v m)

  replace-Distinct : (k : K) (v : V) (m : Table K V) → Distinct m → Distinct (replace k v m)
  unfolding replace
  replace-Distinct k v [] d = tt
  replace-Distinct k v ((j, w) ∷ m) d = elim (Bool-cases (key.beq j k)) [
    | inl same ↦ rw same (rw (← (key.beq_iff j k).0 same) d.0, d.1)
    | inr other ↦
        rw other (lookup-replace_ne k j v m (beq_flip k j other) ∙ d.0, replace-Distinct k v m d.1)
  ]

  place-Distinct :
      (k : K) (v : V) (m : Table K V) → lookup k m ≡ none → Distinct m → Distinct (place k v m)
  unfolding lookup place
  place-Distinct k v [] h d = (refl, tt)
  place-Distinct k v ((j, w) ∷ m) h d = elim (Bool-cases (key.before k j)) [
    | inl first ↦ rw first (h, d)
    | inr later ↦ rw later (
      ground (arith, lookup-place k j v m, key.beq_iff k j, key.beq_iff j k, h, d.0),
      place-Distinct k v m (ground (arith, h)) d.1,
    )
  ]

  pub insert-Distinct : (k : K) (v : V) (m : Table K V) → Distinct m → Distinct (insert k v m)
  unfolding insert
  insert-Distinct k v m d = elim (Option-cases (lookup k m)) [
    | inl missing ↦ rw missing (place-Distinct k v m missing d)
    | inr (w, found) ↦ rw found (replace-Distinct k v m d)
  ]

  pub erase-Distinct : (k : K) (m : Table K V) → Distinct m → Distinct (erase k m)
  unfolding erase
  erase-Distinct k [] d = tt
  erase-Distinct k ((j, w) ∷ m) d = elim (Bool-cases (key.beq j k)) [
    | inl same ↦ rw same (erase-Distinct k m d.1)
    | inr other ↦ rw other (ground (arith, lookup-erase k j m, d.0), erase-Distinct k m d.1)
  ]
