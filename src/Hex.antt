-- ===== src/Hex.antt =====
-- toHex and fromHex of src/shared/crypto/credential_cipher.cpp, over lists of bytes.
use rdws_us.Prelude.{
  ℕ, ◌+◌, ◌-◌, ◌*◌, ◌/◌, ◌%◌, ◌<◌, Bool, true, false, ◌&&◌, Option, none, some, List, [], ◌∷◌,
  if◌then◌else◌, leb, eqb, get_or, ◌≡◌, refl, arith, All,
}
use rdws_us.Prelude.Text.{codes, all_below, all_below_sound}

abbrev hex_digit : ℕ → ℕ
hex_digit n = get_or (codes "0123456789abcdef") n 0

unfoldable pub to_hex : List ℕ → List ℕ
to_hex [] = []
to_hex (b ∷ bytes) = hex_digit (b / 16) ∷ hex_digit (b % 16) ∷ to_hex bytes

abbrev tolower : ℕ → ℕ
tolower c = if leb b'A' c && leb c b'Z' then c + 32 else c

unfoldable pub nibble : ℕ → Option ℕ
nibble c =
    if leb b'0' c && leb c b'9'
    then some (c - b'0')
    else if leb b'a' (tolower c) && leb (tolower c) b'f'
    then some (tolower c - b'a' + 10)
    else none

-- `none` where it throws: a character that is no digit, or an odd length.
unfoldable pub from_hex : List ℕ → Option (List ℕ)
unfolding nibble
from_hex [] = some []
from_hex (c ∷ []) = none
from_hex (c ∷ d ∷ cs) =
    let rest = from_hex cs in
    elim (nibble c) [
      | none ↦ none
      | some high ↦ elim (nibble d) [
        | none ↦ none
        | some low ↦ elim rest [ none ↦ none | some bytes ↦ some ((high * 16 + low) ∷ bytes) ]
      ]
    ]

is_nibble : ℕ → Option ℕ → Bool
is_nibble n none = false
is_nibble n (some m) = eqb m n

nibble_test : ℕ → Bool
nibble_test n = is_nibble n (nibble (hex_digit n))

nibble_table : all_below 16 nibble_test ≡ true
unfolding all_below nibble_test is_nibble nibble
nibble_table = refl

nibble-hex_digit : (n : ℕ) → n < 16 → nibble (hex_digit n) ≡ some n
unfolding nibble_test is_nibble
nibble-hex_digit n h = ground (arith, all_below_sound 16 nibble_test n nibble_table h)

-- Bytes that are written in hexadecimal are read as the same bytes.
pub from_hex-to_hex :
    (bytes : List ℕ) → All (λ b. b < 256) bytes → from_hex (to_hex bytes) ≡ some bytes
unfolding from_hex to_hex
from_hex-to_hex [] h = refl
from_hex-to_hex (b ∷ bytes) h = ground (
  arith,
  nibble-hex_digit (b / 16) (omega arith),
  nibble-hex_digit (b % 16) (omega arith),
  from_hex-to_hex bytes h.1,
)
