-- ===== src/Json.antt =====
-- rapidjson values as the sources read and build them, and src/shared/utils/json_helper.cpp.
-- A number is an integer or a double, as the parser classifies it. Names and strings hold no NUL.
pub mod Merge
use rdws_us.Prelude.{
  ℕ, ◌^◌, ◌*◌, String, Bool, true, false, not, ◌&&◌, Option, none, some, List, [], ◌∷◌, ltb, leb,
  ◌==◌, if◌then◌else◌,
}
use rdws_us.Prelude.Int.{ℤ, pos, negsuc}

mutual
  pub data Json (D : Type 0) : Type 0 where
    null : Json D
    boolean : Bool → Json D
    int : ℤ → Json D
    double : D → Json D
    str : String → Json D
    arr : Elems D → Json D
    obj : Members D → Json D

  pub data Elems (D : Type 0) : Type 0 where
    nil : Elems D
    cons : Json D → Elems D → Elems D

  pub data Members (D : Type 0) : Type 0 where
    end : Members D
    member : String → Json D → Members D → Members D

abbrev pub fits_int : ℤ → Bool
fits_int (pos n) = ltb n (2 ^ 31)
fits_int (negsuc n) = ltb n (2 ^ 31)

abbrev pub fits_int64 : ℤ → Bool
fits_int64 (pos n) = ltb n (2 ^ 63)
fits_int64 (negsuc n) = ltb n (2 ^ 63)

module _ {D : Type 0} where
  abbrev pub elems : Elems D → List (Json D)
  elems nil = []
  elems (cons v vs) = v ∷ elems vs

  abbrev pub of_elems : List (Json D) → Elems D
  of_elems [] = nil
  of_elems (v ∷ vs) = cons v (of_elems vs)

  abbrev pub members : Members D → List (String × Json D)
  members end = []
  members (member k v ms) = (k, v) ∷ members ms

  abbrev pub of_members : List (String × Json D) → Members D
  of_members [] = end
  of_members ((k, v) ∷ ms) = member k v (of_members ms)

  abbrev pub object : List (String × Json D) → Json D
  object ms = obj (of_members ms)

  -- FindMember and operator[]: the first member of that name.
  unfoldable pub find_member : String → Members D → Option (Json D)
  find_member k end = none
  find_member k (member j v ms) = if j == k then some v else find_member k ms

  abbrev pub is_object : Json D → Bool
  is_object (obj _) = true
  is_object _ = false

  -- A member of an object; a value that is no object has none.
  unfoldable pub find : String → Json D → Option (Json D)
  unfolding find_member
  find k (obj ms) = find_member k ms
  find k _ = none

  abbrev as_string : Option (Json D) → Option String
  as_string (some (str s)) = some s
  as_string _ = none

  abbrev as_bool : Option (Json D) → Option Bool
  as_bool (some (boolean b)) = some b
  as_bool _ = none

  abbrev as_int : Option (Json D) → Option ℤ
  as_int (some (int n)) = if fits_int n then some n else none
  as_int _ = none

  abbrev as_uint : Option (Json D) → Option ℕ
  as_uint (some (int (pos n))) = if ltb n (2 ^ 32) then some n else none
  as_uint _ = none

  abbrev as_int64 : Option (Json D) → Option ℤ
  as_int64 (some (int n)) = if fits_int64 n then some n else none
  as_int64 _ = none

  abbrev as_double : Option (Json D) → Option D
  as_double (some (double d)) = some d
  as_double _ = none

  abbrev as_object : Option (Json D) → Option (Json D)
  as_object (some (obj ms)) = some (obj ms)
  as_object _ = none

  abbrev as_array : Option (Json D) → Option (List (Json D))
  as_array (some (arr vs)) = some (elems vs)
  as_array _ = none

  -- hasField guards every getter: an empty name finds nothing.
  field : Json D → String → Option (Json D)
  unfolding find
  field doc name = if name == "" then none else find name doc

  unfoldable pub get_string : Json D → String → Option String
  unfolding field
  get_string doc name = as_string (field doc name)

  unfoldable pub get_int : Json D → String → Option ℤ
  unfolding field
  get_int doc name = as_int (field doc name)

  unfoldable pub get_uint : Json D → String → Option ℕ
  unfolding field
  get_uint doc name = as_uint (field doc name)

  unfoldable pub get_int64 : Json D → String → Option ℤ
  unfolding field
  get_int64 doc name = as_int64 (field doc name)

  unfoldable pub get_bool : Json D → String → Option Bool
  unfolding field
  get_bool doc name = as_bool (field doc name)

  unfoldable pub get_double : Json D → String → Option D
  unfolding field
  get_double doc name = as_double (field doc name)

  unfoldable pub get_object : Json D → String → Option (Json D)
  unfolding field
  get_object doc name = as_object (field doc name)

  unfoldable pub get_array : Json D → String → Option (List (Json D))
  unfolding field
  get_array doc name = as_array (field doc name)
