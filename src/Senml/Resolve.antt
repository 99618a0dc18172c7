-- ===== src/Senml/Resolve.antt =====
-- What src/shared/senml/senml.cpp makes of a pack: each record by itself, from the records so far.
use Prim.Native.String
use rdws_us.Prelude.{
  ℕ, suc, ◌<◌, String, Bool, true, Option, none, some, List, [], ◌∷◌, eqb, value_or, ◌≡◌, refl, ap,
  ◌∙◌, sym, subst, eqb_iff, arith, All,
}
use rdws_us.Prelude.Int.{pos}
use rdws_us.Prelude.Floats.{Floats}
use rdws_us.Prelude.Checked.{passed, require, >>=-eq-passed, require-eq-passed, passed-injective}
use rdws_us.Json.{Json, str, boolean, int, arr, elems, of_elems, find, is_object}
use rdws_us.Senml.Parse.{
  Record, Base, is_valid_name, value_count, text_field, bool_field, flags_field, number_of,
  number_field, absolute, plus, plus_base, rebase, full_name, assemble, at, understood, version_ok,
  read_base, read_record, parse_records, no_base, parse,
}

abbrev as_text : {D : Type 0} → Option (Json D) → Option String
as_text (some (str s)) = some s
as_text _ = none

abbrev as_bool : {D : Type 0} → Option (Json D) → Option Bool
as_bool (some (boolean b)) = some b
as_bool _ = none

abbrev as_flags : {D : Type 0} → Option (Json D) → ℕ
as_flags (some (int (pos n))) = n
as_flags _ = 0

-- The last that a list of records, the last first, says of something.
latest : {A D : Type 0} → (Json D → Option A) → A → List (Json D) → A
latest read default [] = default
latest read default (rec ∷ earlier) = value_or (read rec) (latest read default earlier)

-- A record of a pack is well formed: a valid name, one value, and flags of 16 bits.
abbrev pub WellFormed : {D : Type 0} → Record D → Type 0
WellFormed r =
    (is_valid_name r.name ≡ true)
    × (value_count r.value r.bool_value r.string_value ≡ 1)
    × (r.flags < 65536)

elems-of_elems : {D : Type 0} (docs : List (Json D)) → elems (of_elems docs) ≡ docs
elems-of_elems [] = refl
elems-of_elems (doc ∷ docs) = ap (λ ds. doc ∷ ds) (elems-of_elems docs)

plus_base-count :
    (F : Floats) (base : F.D) (v : Option F.D) (vb : Option Bool) (vs : Option String)
    → value_count (plus_base F base v) vb vs ≡ value_count v vb vs
plus_base-count F base none vb vs = refl
plus_base-count F base (some d) vb vs = refl

module _ (F : Floats) where
  abbrev as_number : Option (Json F.D) → Option F.D
  as_number none = none
  as_number (some v) = number_of F v

  unfoldable text_of : String → Json F.D → Option String
  unfolding find
  text_of field rec = as_text (find field rec)

  unfoldable number_in : String → Json F.D → Option F.D
  unfolding find
  number_in field rec = as_number (find field rec)

  unfoldable base_of : List (Json F.D) → Base F.D
  unfolding latest text_of number_in
  base_of recs = record {
    base_name = latest (text_of "bn") "" recs;
    base_time = latest (number_in "bt") (F.lit 0 0) recs;
    base_unit = latest (text_of "bu") "" recs;
    base_value = latest (number_in "bv") (F.lit 0 0) recs;
  }

  -- The record that a document stands for after `earlier`, the last of those first.
  unfoldable pub resolve_record : F.D → List (Json F.D) → Json F.D → Record F.D
  unfolding base_of text_of number_in find
  resolve_record now earlier rec =
      let base = base_of (rec ∷ earlier) in
      record {
        name = String.◌++◌ base.base_name (value_or (text_of "n" rec) "");
        time = absolute F now (plus F base.base_time (number_in "t" rec));
        unit = value_or (text_of "u" rec) base.base_unit;
        value = plus_base F base.base_value (number_in "v" rec);
        bool_value = as_bool (find "vb" rec);
        string_value = text_of "vs" rec;
        flags = as_flags (find "fl_" rec);
      }

  unfoldable pub resolve_all : F.D → List (Json F.D) → List (Json F.D) → List (Record F.D)
  unfolding resolve_record
  resolve_all now earlier [] = []
  resolve_all now earlier (rec ∷ recs) =
      resolve_record now earlier rec ∷ resolve_all now (rec ∷ earlier) recs

  text_field-eq-passed :
      (field m : String) (rec : Json F.D) (o : Option String)
      → text_field field m rec ≡ passed o
      → o ≡ text_of field rec
  unfolding text_field text_of
  text_field-eq-passed field m rec o h = ground (arith, h)

  number_field-eq-passed :
      (field m : String) (rec : Json F.D) (o : Option F.D)
      → number_field F field m rec ≡ passed o
      → o ≡ number_in field rec
  unfolding number_field number_in
  number_field-eq-passed field m rec o h = ground (arith, h)

  bool_field-eq-passed :
      (field m : String) (rec : Json F.D) (o : Option Bool)
      → bool_field field m rec ≡ passed o
      → o ≡ as_bool (find field rec)
  unfolding bool_field
  bool_field-eq-passed field m rec o h = ground (arith, h)

  flags_field-eq-passed :
      (m : String) (rec : Json F.D) (n : ℕ)
      → flags_field m rec ≡ passed n
      → (n ≡ as_flags (find "fl_" rec)) × (n < 65536)
  unfolding flags_field
  flags_field-eq-passed m rec n h = (ground (arith, h), ground (arith, h))

  rebase_lem :
      (earlier : List (Json F.D)) (rec : Json F.D) (bn : Option String) (bt : Option F.D)
      (bu : Option String) (bv : Option F.D) (base : Base F.D)
      → bn ≡ text_of "bn" rec
      → bt ≡ number_in "bt" rec
      → bu ≡ text_of "bu" rec
      → bv ≡ number_in "bv" rec
      → base ≡ rebase F (base_of earlier) bn bt bu bv
      → base ≡ base_of (rec ∷ earlier)
  unfolding base_of
  rebase_lem earlier rec bn bt bu bv base en et eu ev eb = rw (eb, en, et, eu, ev) refl

  read_base-eq-passed :
      (i : ℕ) (earlier : List (Json F.D)) (rec : Json F.D) (base : Base F.D)
      → read_base F i (base_of earlier) rec ≡ passed base
      → base ≡ base_of (rec ∷ earlier)
  unfolding read_base base_of
  read_base-eq-passed i earlier rec base h =
      let (u, e₁, h₁) =
        >>=-eq-passed (require (is_object rec) (String.◌++◌ (at i) "must be an object")) _ h in
      let (v, e₂, h₂) = >>=-eq-passed (understood (at i) rec) _ h₁ in
      let (w, e₃, h₃) =
        >>=-eq-passed
          (require (version_ok (find "bver" rec)) (String.◌++◌ (at i) "unsupported bver")) _ h₂ in
      let (bn, e₄, h₄) =
        >>=-eq-passed (text_field "bn" (String.◌++◌ (at i) "bn must be a string") rec) _ h₃ in
      let (bt, e₅, h₅) =
        >>=-eq-passed (number_field F "bt" (String.◌++◌ (at i) "bt must be a number") rec) _ h₄ in
      let (bu, e₆, h₆) =
        >>=-eq-passed (text_field "bu" (String.◌++◌ (at i) "bu must be a string") rec) _ h₅ in
      let (bv, e₇, h₇) =
        >>=-eq-passed (number_field F "bv" (String.◌++◌ (at i) "bv must be a number") rec) _ h₆ in
      rebase_lem earlier rec bn bt bu bv base
        (text_field-eq-passed "bn" (String.◌++◌ (at i) "bn must be a string") rec bn e₄)
        (number_field-eq-passed "bt" (String.◌++◌ (at i) "bt must be a number") rec bt e₅)
        (text_field-eq-passed "bu" (String.◌++◌ (at i) "bu must be a string") rec bu e₆)
        (number_field-eq-passed "bv" (String.◌++◌ (at i) "bv must be a number") rec bv e₇)
        (passed-injective base (rebase F (base_of earlier) bn bt bu bv) (sym h₇))

  assemble_lem :
      (now : F.D) (earlier : List (Json F.D)) (rec : Json F.D) (n u vs : Option String)
      (t v : Option F.D) (vb : Option Bool) (flags : ℕ) (out : Record F.D)
      → n ≡ text_of "n" rec
      → t ≡ number_in "t" rec
      → u ≡ text_of "u" rec
      → v ≡ number_in "v" rec
      → vb ≡ as_bool (find "vb" rec)
      → vs ≡ text_of "vs" rec
      → (flags ≡ as_flags (find "fl_" rec)) × (flags < 65536)
      → is_valid_name (full_name F (base_of (rec ∷ earlier)) n) ≡ true
      → eqb (value_count v vb vs) 1 ≡ true
      → out ≡ assemble F now (base_of (rec ∷ earlier)) n t u v vb vs flags
      → (out ≡ resolve_record now earlier rec) × WellFormed out
  unfolding resolve_record
  assemble_lem now earlier rec n u vs t v vb flags out en et eu ev evb evs eflags valid one eo =
      let base = base_of (rec ∷ earlier) in
      (
        rw (eo, en, et, eu, ev, evb, evs, eflags.0) refl,
        subst WellFormed (sym eo) (
          valid,
          plus_base-count F base.base_value v vb vs ∙ (eqb_iff (value_count v vb vs) 1).0 one,
          eflags.1,
        ),
      )

  read_record-eq-passed :
      (now : F.D) (i : ℕ) (earlier : List (Json F.D)) (rec : Json F.D) (out : Record F.D)
      → read_record F now i (base_of (rec ∷ earlier)) rec ≡ passed out
      → (out ≡ resolve_record now earlier rec) × WellFormed out
  unfolding read_record resolve_record
  read_record-eq-passed now i earlier rec out h =
      let (n, e₁, h₁) =
        >>=-eq-passed (text_field "n" (String.◌++◌ (at i) "n must be a string") rec) _ h in
      let (u, e₂, h₂) =
        >>=-eq-passed
          (require (is_valid_name (full_name F (base_of (rec ∷ earlier)) n)) (
            String.◌++◌ (at i) (
              String.◌++◌ "invalid name '"
                (String.◌++◌ (full_name F (base_of (rec ∷ earlier)) n) "'"))))
          _ h₁ in
      let (t, e₃, h₃) =
        >>=-eq-passed (number_field F "t" (String.◌++◌ (at i) "t must be a number") rec) _ h₂ in
      let (unit, e₄, h₄) =
        >>=-eq-passed (text_field "u" (String.◌++◌ (at i) "u must be a string") rec) _ h₃ in
      let (v, e₅, h₅) =
        >>=-eq-passed (number_field F "v" (String.◌++◌ (at i) "v must be a number") rec) _ h₄ in
      let (vb, e₆, h₆) =
        >>=-eq-passed (bool_field "vb" (String.◌++◌ (at i) "vb must be a boolean") rec) _ h₅ in
      let (vs, e₇, h₇) =
        >>=-eq-passed (text_field "vs" (String.◌++◌ (at i) "vs must be a string") rec) _ h₆ in
      let (w, e₈, h₈) =
        >>=-eq-passed
          (require (eqb (value_count v vb vs) 1)
            (String.◌++◌ (at i) "must have exactly one of v, vb, vs"))
          _ h₇ in
      let (flags, e₉, h₉) =
        >>=-eq-passed (flags_field (String.◌++◌ (at i) "fl_ must be an integer in [0, 65535]") rec)
          _ h₈ in
      assemble_lem now earlier rec n unit vs t v vb flags out
        (text_field-eq-passed "n" (String.◌++◌ (at i) "n must be a string") rec n e₁)
        (number_field-eq-passed "t" (String.◌++◌ (at i) "t must be a number") rec t e₃)
        (text_field-eq-passed "u" (String.◌++◌ (at i) "u must be a string") rec unit e₄)
        (number_field-eq-passed "v" (String.◌++◌ (at i) "v must be a number") rec v e₅)
        (bool_field-eq-passed "vb" (String.◌++◌ (at i) "vb must be a boolean") rec vb e₆)
        (text_field-eq-passed "vs" (String.◌++◌ (at i) "vs must be a string") rec vs e₇)
        (flags_field-eq-passed (String.◌++◌ (at i) "fl_ must be an integer in [0, 65535]") rec flags
          e₉)
        (require-eq-passed _ _ u e₂) (require-eq-passed _ _ w e₈)
        (passed-injective out (assemble F now (base_of (rec ∷ earlier)) n t unit v vb vs flags)
          (sym h₉))

  parse_step :
      (now : F.D) (earlier : List (Json F.D)) (doc : Json F.D) (docs : List (Json F.D))
      (base : Base F.D) (r : Record F.D) (rest out : List (Record F.D))
      → base ≡ base_of (doc ∷ earlier)
      → (base ≡ base_of (doc ∷ earlier) → (r ≡ resolve_record now earlier doc) × WellFormed r)
      → (base ≡ base_of (doc ∷ earlier)
          → (rest ≡ resolve_all now (doc ∷ earlier) docs) × All WellFormed rest)
      → out ≡ r ∷ rest
      → (out ≡ resolve_all now earlier (doc ∷ docs)) × All WellFormed out
  unfolding resolve_all
  parse_step now earlier doc docs base r rest out same one others eo =
      let (er, good) = one same in
      let (erest, all_good) = others same in
      (rw (eo, er, erest) refl, subst (All WellFormed) (sym eo) (good, all_good))

  parse_records-eq-passed :
      (now : F.D) (i : ℕ) (earlier docs : List (Json F.D)) (out : List (Record F.D))
      → parse_records F now i (base_of earlier) docs ≡ passed out
      → (out ≡ resolve_all now earlier docs) × All WellFormed out
  unfolding parse_records resolve_all
  parse_records-eq-passed now i earlier [] out h =
      let none_left = passed-injective out [] (sym h) in
      (none_left, subst (All WellFormed) (sym none_left) tt)
  parse_records-eq-passed now i earlier (doc ∷ docs) out h =
      let (base, e₁, h₁) = >>=-eq-passed (read_base F i (base_of earlier) doc) _ h in
      let (r, e₂, h₂) = >>=-eq-passed (read_record F now i base doc) _ h₁ in
      let (rest, e₃, h₃) = >>=-eq-passed (parse_records F now (suc i) base docs) _ h₂ in
      parse_step now earlier doc docs base r rest out (read_base-eq-passed i earlier doc base e₁)
        (λ same.
          read_record-eq-passed now i earlier doc r
            (subst (λ b. read_record F now i b doc ≡ passed r) same e₂))
        (λ same.
          parse_records-eq-passed now (suc i) (doc ∷ earlier) docs rest
            (subst (λ b. parse_records F now (suc i) b docs ≡ passed rest) same e₃))
        (passed-injective out (r ∷ rest) (sym h₃))

  -- The records of a pack that parses are the documents in their order, each by itself with the
  -- base fields of the last document up to it that holds them, and each is well formed.
  pub parse-eq-passed :
      (docs : List (Json F.D)) (now : F.D) (out : List (Record F.D))
      → parse F (some (arr (of_elems docs))) now ≡ passed out
      → (out ≡ resolve_all now [] docs) × All WellFormed out
  unfolding parse base_of
  parse-eq-passed docs now out h =
      parse_records-eq-passed now 0 [] docs out
        (subst (λ ds. parse_records F now 0 (no_base F) ds ≡ passed out) (elems-of_elems docs) h)
