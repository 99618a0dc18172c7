-- ===== src/Auth/Base64.antt =====
-- base64urlDecode, base64urlEncode and constantTimeEqual of
-- src/service_broker/Auth/AuthMiddleware.cpp, over lists of bytes.
use Prim.Native.Nat.{bit_or, bit_xor}
use rdws_us.Prelude.{
  ℕ, zero, suc, ◌+◌, ◌-◌, ◌*◌, ◌/◌, ◌%◌, ◌^◌, Bool, true, false, Option, none, some, List, [], ◌∷◌,
  ◌++◌, map, if◌then◌else◌, eqb, leb, length, get_or,
}
use rdws_us.Prelude.Text.{codes}

abbrev pub alphabet : List ℕ
alphabet = codes "ABCDEFGHIJKLMNOPQRSTUVWXYZabcdefghijklmnopqrstuvwxyz0123456789+/"

-- chars.find(c)
unfoldable pub position : ℕ → List ℕ → Option ℕ
position c [] = none
position c (x ∷ xs) =
    let later : Option ℕ = elim (position c xs) [ none ↦ none | some i ↦ some (suc i) ] in
    if eqb c x then some zero else later

-- The two characters by which base64url differs, both ways.
unfoldable pub to_standard : ℕ → ℕ
to_standard c = if eqb c b'-' then b'+' else if eqb c b'_' then b'/' else c

unfoldable pub to_url : ℕ → ℕ
to_url c = if eqb c b'+' then b'-' else if eqb c b'/' then b'_' else c

-- '=' up to a multiple of four.
unfoldable pub padding : ℕ → List ℕ
padding n =
    let r = n % 4 in
    if eqb r 0
    then []
    else if eqb r 3
    then b'=' ∷ []
    else if eqb r 2
    then b'=' ∷ b'=' ∷ []
    else b'=' ∷ b'=' ∷ b'=' ∷ []

-- `val` is an int, whose shift drops what is above 32 bits; `have` is `bits` + 8.
unfoldable pub decode_loop : ℕ → ℕ → List ℕ → List ℕ
unfolding position
decode_loop val have [] = []
decode_loop val have (c ∷ cs) = elim (eqb c b'=') [
  | true ↦ []
  | false ↦ elim (position c alphabet) [
    | none ↦ decode_loop val have cs
    | some pos ↦
        let val' = (val * 64 + pos) % 2 ^ 32 in
        elim (leb 8 (have + 6)) [
          | true ↦ val' / 2 ^ (have + 6 - 8) % 256 ∷ decode_loop val' (have + 6 - 8) cs
          | false ↦ decode_loop val' (have + 6) cs
        ]
  ]
]

unfoldable pub base64url_decode : List ℕ → List ℕ
unfolding decode_loop to_standard padding
base64url_decode input =
    let b64 = map to_standard input in decode_loop 0 0 (b64 ++ padding (length b64))

abbrev pub letter : ℕ → ℕ
letter i = get_or alphabet i 0

-- The masks and shifts of disjoint bits, as sums.
unfoldable pub encode_groups : List ℕ → List ℕ
encode_groups [] = []
encode_groups (b0 ∷ []) = letter (b0 / 4 % 64) ∷ letter (b0 % 4 * 16) ∷ []
encode_groups (b0 ∷ b1 ∷ []) =
    letter (b0 / 4 % 64) ∷ letter (b0 % 4 * 16 + b1 / 16 % 16) ∷ letter (b1 % 16 * 4) ∷ []
encode_groups (b0 ∷ b1 ∷ b2 ∷ rest) =
    letter (b0 / 4 % 64)
    ∷ letter (b0 % 4 * 16 + b1 / 16 % 16)
    ∷ letter (b1 % 16 * 4 + b2 / 64 % 4)
    ∷ letter (b2 % 64)
    ∷ encode_groups rest

unfoldable pub base64url_encode : List ℕ → List ℕ
unfolding encode_groups to_url
base64url_encode bytes = map to_url (encode_groups bytes)

unfoldable pub difference : ℕ → List ℕ → List ℕ → ℕ
difference diff (a ∷ as') (b ∷ bs) = difference (bit_or diff (bit_xor a b)) as' bs
difference diff _ _ = diff

unfoldable pub constant_time_equal : List ℕ → List ℕ → Bool
unfolding difference
constant_time_equal a b = if eqb (length a) (length b) then eqb (difference 0 a b) 0 else false
