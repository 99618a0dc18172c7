-- ===== src/Router/Path.antt =====
-- splitPath and matchPathPattern of src/service_broker/Services/EventRouter.cpp.
use Prim.Native.Char.{Char, code}
use Prim.Native.String
use rdws_us.Prelude.{
  String, Option, none, some, List, [], ◌∷◌, ◌==◌, eqb, if◌then◌else◌, length, ◌≡◌, refl, arith,
  eq_iff, ◌≢◌, ◌⊎◌, inl, inr, Bool-cases, Option-cases, sym, ap, suc, ◌∙◌,
}
use rdws_us.Prelude.Table.{Table, text_key, lookup, insert, lookup-insert}

abbrev push : String → Char → String
push s c = String.◌++◌ s (String.◌∷◌ c String.[])

-- Segments between slashes; the empty ones are skipped.
split_from : String → String → List String
split_from cur String.[] = if cur == "" then [] else cur ∷ []
split_from cur (String.◌∷◌ c s) =
    let closed = split_from "" s in
    let longer = split_from (push cur c) s in
    if eqb (code c) b'/' then (if cur == "" then closed else cur ∷ closed) else longer

unfoldable pub split_path : String → List String
unfolding split_from
split_path path = split_from "" path

-- What stands before a last '}'.
before_brace : String → Option String
before_brace String.[] = none
before_brace (String.◌∷◌ c String.[]) = if eqb (code c) b'}' then some "" else none
before_brace (String.◌∷◌ c (String.◌∷◌ d s)) = elim (before_brace (String.◌∷◌ d s)) [
  | none ↦ none
  | some name ↦ some (String.◌∷◌ c name)
]

-- The name in a segment of the form {name}.
unfoldable pub placeholder : String → Option String
unfolding before_brace
placeholder String.[] = none
placeholder (String.◌∷◌ c s) = if eqb (code c) b'{' then before_brace s else none

-- The loop of matchPathPattern, whose lists have one length.
unfoldable pub match_parts :
    List String → List String → Table String String → Option (Table String String)
match_parts [] [] params = some params
match_parts (pp ∷ patterns) (part ∷ parts) params = elim (placeholder pp) [
  | some name ↦ match_parts patterns parts (insert name part params)
  | none ↦ let rest = match_parts patterns parts params in if pp == part then rest else none
]
match_parts _ _ params = none

unfoldable pub match_path_pattern : String → String → Option (Table String String)
unfolding match_parts
match_path_pattern pattern path =
    if eqb (length (split_path pattern)) (length (split_path path))
    then match_parts (split_path pattern) (split_path path) []
    else none

-- path.substr(0, path.find('?')), and the path where there is none
unfoldable pub clean_path : String → String
clean_path String.[] = ""
clean_path (String.◌∷◌ c s) = if eqb (code c) b'?' then "" else String.◌∷◌ c (clean_path s)

-- A segment of a pattern against a segment of a path.
abbrev pub SegmentFits : String → String → Type 0
SegmentFits pp part = (placeholder pp ≢ none) ⊎ (pp ≡ part)

-- As many segments, and each fits.
abbrev pub Fits : List String → List String → Type 0
Fits [] [] = Unit
Fits (pp ∷ patterns) (part ∷ parts) = SegmentFits pp part × Fits patterns parts
Fits _ _ = ⊥

-- The segment that a parameter captures: the last one, where its name stands twice.
unfoldable pub captured : String → List String → List String → Option String → Option String
captured name (pp ∷ patterns) (part ∷ parts) found =
    captured name patterns parts
      (elim (placeholder pp) [ some n ↦ if n == name then some part else found | none ↦ found ])
captured name _ _ found = found

abbrev Matched :
    List String → List String → Table String String → Option (Table String String) → Type 0
Matched patterns parts params result =
    ((result ≡ none) × ¬ Fits patterns parts)
    ⊎ ((ps : Table String String) × (result ≡ some ps)
        × Fits patterns parts
        × ((name : String) → lookup name ps ≡ captured name patterns parts (lookup name params)))

match_parts-Matched :
    (patterns parts : List String) (params : Table String String)
    → Matched patterns parts params (match_parts patterns parts params)
unfolding match_parts captured
match_parts-Matched [] [] params = inr (params, refl, tt, λ name. refl)
match_parts-Matched [] (part ∷ parts) params = inl (refl, λ f. f)
match_parts-Matched (pp ∷ patterns) [] params = inl (refl, λ f. f)
match_parts-Matched (pp ∷ patterns) (part ∷ parts) params = elim (Option-cases (placeholder pp)) [
  | inl literal ↦ elim (Bool-cases (pp == part)) [
    | inl same ↦ elim (match_parts-Matched patterns parts params) [
      | inl (missed, unfit) ↦ inl (ground (arith, literal, same, missed), λ f. unfit f.1)
      | inr (ps, hit, fit, found) ↦ inr (
        ps,
        ground (arith, literal, same, hit),
        (inr ((eq_iff pp part).0 same), fit),
        λ name. ground (arith, literal, found name),
      )
    ]
    | inr other ↦ inl (
      ground (arith, literal, other),
      λ f. elim f.0 [
        | inl named ↦ named literal
        | inr same ↦ ground (arith, eq_iff pp part, same, other)
      ],
    )
  ]
  | inr (n, named) ↦ elim (match_parts-Matched patterns parts (insert n part params)) [
    | inl (missed, unfit) ↦ inl (ground (arith, named, missed), λ f. unfit f.1)
    | inr (ps, hit, fit, found) ↦ inr (
      ps,
      ground (arith, named, hit),
      (inl (λ e. cc (sym named ∙ e)), fit),
      λ name. ground (arith, named, found name, lookup-insert n name part params),
    )
  ]
]

Fits-length : (patterns parts : List String) → Fits patterns parts → length patterns ≡ length parts
Fits-length [] [] f = refl
Fits-length [] (part ∷ parts) f = absurd f
Fits-length (pp ∷ patterns) [] f = absurd f
Fits-length (pp ∷ patterns) (part ∷ parts) f = ap suc (Fits-length patterns parts f.1)

-- A pattern matches a path exactly when they have as many segments, and each segment of the
-- pattern is a placeholder or equal to the path's; each parameter is then the (last) segment at
-- its place, and there are no others.
pub match_path_pattern_cases :
    (pattern path : String)
    → let patterns = split_path pattern in
      let parts = split_path path in
      ((match_path_pattern pattern path ≡ none) × ¬ Fits patterns parts)
      ⊎ ((ps : Table String String) × (match_path_pattern pattern path ≡ some ps)
          × Fits patterns parts
          × ((name : String) → lookup name ps ≡ captured name patterns parts none))
unfolding match_path_pattern lookup
match_path_pattern_cases pattern path =
    elim (Bool-cases (eqb (length (split_path pattern)) (length (split_path path)))) [
      | inl same ↦ rw same (match_parts-Matched (split_path pattern) (split_path path) [])
      | inr other ↦
          inl (rw other, λ f. ground (arith, Fits-length (split_path pattern) (split_path path) f))
    ]
