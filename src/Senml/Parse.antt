-- ===== src/Senml/Parse.antt =====
-- src/shared/senml/senml.cpp and senml.h. A pack is the document that rapidjson parsed.
use Prim.Native.String
use rdws_us.Prelude.{
  ℕ, suc, ◌+◌, String, Bool, true, false, not, ◌&&◌, ◌||◌, Option, none, some, List, [], ◌∷◌,
  if◌then◌else◌, eqb, leb, ltb, is_some, value_or, find_if, any_of, ◌==◌, map,
}
use rdws_us.Prelude.Int.{pos, ltb_ℤ}
use rdws_us.Prelude.Floats.{Floats}
use rdws_us.Prelude.Text.{codes}
use rdws_us.Prelude.Checked.{Checked, refused, passed, require, ◌>>=◌, ◌>>◌}
use rdws_us.Json.{
  Json, boolean, int, double, str, arr, obj, members, elems, find, fits_int, is_object,
}
use rdws_us.Router.{to_string}

pub record Record (D : Type 0) : Type 0 where
  pub name : String
  pub time : D
  pub unit : String
  pub value : Option D
  pub bool_value : Option Bool
  pub string_value : Option String
  pub flags : ℕ

-- The fields that hold until a later record redefines them.
pub record Base (D : Type 0) : Type 0 where
  pub base_name : String
  pub base_time : D
  pub base_unit : String
  pub base_value : D

abbrev known_fields : List String
known_fields = "bn" ∷ "bt" ∷ "bu" ∷ "bv" ∷ "bver" ∷ "n" ∷ "u" ∷ "v" ∷ "vb" ∷ "vs" ∷ "t" ∷ "fl_" ∷ []

unfoldable pub is_known_field : String → Bool
unfolding any_of
is_known_field f = any_of (λ k. f == k) known_fields

ends_in : ℕ → List ℕ → Bool
ends_in c [] = false
ends_in c (x ∷ []) = eqb x c
ends_in c (x ∷ y ∷ xs) = ends_in c (y ∷ xs)

unfoldable pub must_understand : String → Bool
unfolding is_known_field ends_in
must_understand f = not (is_known_field f) && ends_in b'_' (codes f)

-- std::isalnum in the "C" locale.
abbrev is_alnum : ℕ → Bool
is_alnum c = (leb b'0' c && leb c b'9') || (leb b'A' c && leb c b'Z') || (leb b'a' c && leb c b'z')

abbrev is_name_char : ℕ → Bool
is_name_char c = is_alnum c || eqb c b'-' || eqb c b':' || eqb c b'.' || eqb c b'/' || eqb c b'_'

abbrev starts_well : List ℕ → Bool
starts_well [] = false
starts_well (c ∷ cs) = is_alnum c

unfoldable pub is_valid_name : String → Bool
unfolding any_of
is_valid_name name =
    starts_well (codes name) && not (any_of (λ c. not (is_name_char c)) (codes name))

abbrev pub at : ℕ → String
at i = String.◌++◌ "record " (String.◌++◌ (to_string (pos i)) ": ")

abbrev pub member_names : {D : Type 0} → Json D → List String
member_names (obj ms) = map (λ m. m.0) (members ms)
member_names _ = []

abbrev pub understood : {D : Type 0} → String → Json D → Checked {0} Unit
understood place rec = elim (find_if must_understand (member_names rec)) [
  | none ↦ passed tt
  | some f ↦
      refused
        (String.◌++◌ place (String.◌++◌ "unknown must-understand field '" (String.◌++◌ f "'")))
]

-- IsInt and at most kMaxVersion.
abbrev pub version_ok : {D : Type 0} → Option (Json D) → Bool
version_ok none = true
version_ok (some (int n)) = fits_int n && not (ltb_ℤ (pos 10) n)
version_ok (some _) = false

unfoldable pub text_field : {D : Type 0} → String → String → Json D → Checked (Option String)
unfolding find
text_field field m rec = elim (find field rec) [
  | none ↦ passed none
  | some (str s) ↦ passed (some s)
  | some _ ↦ refused m
]

unfoldable pub bool_field : {D : Type 0} → String → String → Json D → Checked (Option Bool)
unfolding find
bool_field field m rec = elim (find field rec) [
  | none ↦ passed none
  | some (boolean b) ↦ passed (some b)
  | some _ ↦ refused m
]

unfoldable pub flags_field : {D : Type 0} → String → Json D → Checked ℕ
unfolding find
flags_field m rec = elim (find "fl_" rec) [
  | none ↦ passed 0
  | some (int (pos n)) ↦ if ltb n 65536 then passed n else refused m
  | some _ ↦ refused m
]

abbrev pub one_if : {A : Type 0} → Option A → ℕ
one_if o = if is_some o then 1 else 0

abbrev pub value_count : {D : Type 0} → Option D → Option Bool → Option String → ℕ
value_count v vb vs = one_if v + one_if vb + one_if vs

module _ (F : Floats) where
  -- GetDouble of a number.
  abbrev pub number_of : Json F.D → Option F.D
  number_of (int n) = some (F.of_int n)
  number_of (double d) = some d
  number_of _ = none

  unfoldable pub number_field : String → String → Json F.D → Checked (Option F.D)
  unfolding find
  number_field field m rec = elim (find field rec) [
    | none ↦ passed none
    | some v ↦ elim (number_of v) [ none ↦ refused m | some d ↦ passed (some d) ]
  ]

  -- Times below 2²⁸ are relative.
  abbrev pub absolute : F.D → F.D → F.D
  absolute now time = if F.lt time (F.lit 268435456 0) then F.add now time else time

  abbrev pub plus : F.D → Option F.D → F.D
  plus d none = d
  plus d (some e) = F.add d e

  abbrev pub plus_base : F.D → Option F.D → Option F.D
  plus_base base none = none
  plus_base base (some d) = some (F.add base d)

  abbrev pub rebase : Base F.D → Option String → Option F.D → Option String → Option F.D → Base F.D
  rebase base bn bt bu bv = record {
    base_name = value_or bn base.base_name;
    base_time = value_or bt base.base_time;
    base_unit = value_or bu base.base_unit;
    base_value = value_or bv base.base_value;
  }

  abbrev pub full_name : Base F.D → Option String → String
  full_name base n = String.◌++◌ base.base_name (value_or n "")

  abbrev pub assemble :
      F.D
      → Base F.D
      → Option String
      → Option F.D
      → Option String
      → Option F.D
      → Option Bool
      → Option String
      → ℕ
      → Record F.D
  assemble now base n t u v vb vs flags = record {
    name = full_name base n;
    time = absolute now (plus base.base_time t);
    unit = value_or u base.base_unit;
    value = plus_base base.base_value v;
    bool_value = vb;
    string_value = vs;
    flags = flags;
  }

  unfoldable pub read_base : ℕ → Base F.D → Json F.D → Checked (Base F.D)
  unfolding text_field number_field must_understand find find_if
  read_base i base rec = do
    require (is_object rec) (String.◌++◌ (at i) "must be an object")
    understood (at i) rec
    require (version_ok (find "bver" rec)) (String.◌++◌ (at i) "unsupported bver")
    bn ← text_field "bn" (String.◌++◌ (at i) "bn must be a string") rec
    bt ← number_field "bt" (String.◌++◌ (at i) "bt must be a number") rec
    bu ← text_field "bu" (String.◌++◌ (at i) "bu must be a string") rec
    bv ← number_field "bv" (String.◌++◌ (at i) "bv must be a number") rec
    passed (rebase base bn bt bu bv)

  unfoldable pub read_record : F.D → ℕ → Base F.D → Json F.D → Checked (Record F.D)
  unfolding text_field number_field bool_field flags_field is_valid_name
  read_record now i base rec = do
    n ← text_field "n" (String.◌++◌ (at i) "n must be a string") rec
    let name = full_name base n
    require (is_valid_name name)
        (String.◌++◌ (at i) (String.◌++◌ "invalid name '" (String.◌++◌ name "'")))
    t ← number_field "t" (String.◌++◌ (at i) "t must be a number") rec
    u ← text_field "u" (String.◌++◌ (at i) "u must be a string") rec
    v ← number_field "v" (String.◌++◌ (at i) "v must be a number") rec
    vb ← bool_field "vb" (String.◌++◌ (at i) "vb must be a boolean") rec
    vs ← text_field "vs" (String.◌++◌ (at i) "vs must be a string") rec
    require (eqb (value_count v vb vs) 1) (String.◌++◌ (at i) "must have exactly one of v, vb, vs")
    flags ← flags_field (String.◌++◌ (at i) "fl_ must be an integer in [0, 65535]") rec
    passed (assemble now base n t u v vb vs flags)

  unfoldable pub parse_records : F.D → ℕ → Base F.D → List (Json F.D) → Checked (List (Record F.D))
  unfolding read_base read_record
  parse_records now i base [] = passed []
  parse_records now i base (rec ∷ recs) = do
    base' ← read_base i base rec
    out ← read_record now i base' rec
    rest ← parse_records now (suc i) base' recs
    passed (out ∷ rest)

  abbrev pub no_base : Base F.D
  no_base = record { base_name = ""; base_time = F.lit 0 0; base_unit = ""; base_value = F.lit 0 0 }

  unfoldable pub parse : Option (Json F.D) → F.D → Checked (List (Record F.D))
  unfolding parse_records
  parse none now = refused "malformed JSON"
  parse (some (arr vs)) now = parse_records now 0 no_base (elems vs)
  parse (some _) now = refused "pack must be a JSON array"
