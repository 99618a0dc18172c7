-- ===== src/Auth/RoundTrip.antt =====
-- What is encoded is decoded again, and equality in constant time is equality.
use rdws_us.Prelude.{
  ℕ, ◌+◌, ◌*◌, ◌/◌, ◌%◌, ◌^◌, ◌<◌, Bool, true, false, ◌&&◌, not, Option, none, some, List, [], ◌∷◌,
  ◌++◌, map, eqb, length, ◌≡◌, refl, ap, ◌∙◌, arith, All,
}
use rdws_us.Prelude.Text.{all_below, all_below_sound}
use rdws_us.Auth.Base64.{
  alphabet, position, to_standard, to_url, padding, decode_loop, base64url_decode, letter,
  encode_groups, base64url_encode,
}

abbrev pub IsByte : ℕ → Type 0
IsByte b = b < 256

-- The character of an index, as the decoder reads it.
symbol : ℕ → ℕ
symbol i = to_standard (to_url (letter i))

is_index : ℕ → Option ℕ → Bool
is_index i none = false
is_index i (some j) = eqb j i

is_read : ℕ → Bool
is_read i = not (eqb (symbol i) b'=') && is_index i (position (symbol i) alphabet)

symbol_table : all_below 64 is_read ≡ true
unfolding all_below is_read symbol to_standard to_url position is_index
symbol_table = refl

symbol_lem :
    (i : ℕ) → i < 64 → (eqb (symbol i) b'=' ≡ false) × (position (symbol i) alphabet ≡ some i)
unfolding is_read is_index
symbol_lem i h = ground (arith, all_below_sound 64 is_read i symbol_table h)

read_0 :
    (val i : ℕ) (cs : List ℕ)
    → i < 64
    → decode_loop val 0 (symbol i ∷ cs) ≡ decode_loop ((val * 64 + i) % 2 ^ 32) 6 cs
unfolding decode_loop
read_0 val i cs h = ground (arith, symbol_lem i h)

read_6 :
    (val i : ℕ) (cs : List ℕ)
    → i < 64
    → decode_loop val 6 (symbol i ∷ cs)
      ≡ (val * 64 + i) % 2 ^ 32 / 16 % 256 ∷ decode_loop ((val * 64 + i) % 2 ^ 32) 4 cs
unfolding decode_loop
read_6 val i cs h = ground (arith, symbol_lem i h)

read_4 :
    (val i : ℕ) (cs : List ℕ)
    → i < 64
    → decode_loop val 4 (symbol i ∷ cs)
      ≡ (val * 64 + i) % 2 ^ 32 / 4 % 256 ∷ decode_loop ((val * 64 + i) % 2 ^ 32) 2 cs
unfolding decode_loop
read_4 val i cs h = ground (arith, symbol_lem i h)

read_2 :
    (val i : ℕ) (cs : List ℕ)
    → i < 64
    → decode_loop val 2 (symbol i ∷ cs)
      ≡ (val * 64 + i) % 2 ^ 32 % 256 ∷ decode_loop ((val * 64 + i) % 2 ^ 32) 0 cs
unfolding decode_loop
read_2 val i cs h = ground (arith, symbol_lem i h)

first_byte :
    (val b i : ℕ)
    → IsByte b
    → i < 16
    → ((val * 64 + b / 4 % 64) % 2 ^ 32 * 64 + (b % 4 * 16 + i)) % 2 ^ 32 / 16 % 256 ≡ b
first_byte val b i h k = omega arith

second_byte :
    (val b i j : ℕ)
    → IsByte b
    → j < 4
    → ((val * 64 + (i * 16 + b / 16 % 16)) % 2 ^ 32 * 64 + (b % 16 * 4 + j)) % 2 ^ 32 / 4 % 256 ≡ b
second_byte val b i j h k = omega arith

third_byte :
    (val b i : ℕ)
    → IsByte b
    → ((val * 64 + (i * 4 + b / 64 % 4)) % 2 ^ 32 * 64 + b % 64) % 2 ^ 32 % 256 ≡ b
third_byte val b i h = omega arith

-- What the decoder reads of an encoded list.
shown : List ℕ → List ℕ
shown [] = []
shown (a ∷ []) = symbol (a / 4 % 64) ∷ symbol (a % 4 * 16) ∷ []
shown (a ∷ b ∷ []) =
    symbol (a / 4 % 64) ∷ symbol (a % 4 * 16 + b / 16 % 16) ∷ symbol (b % 16 * 4) ∷ []
shown (a ∷ b ∷ c ∷ rest) =
    symbol (a / 4 % 64)
    ∷ symbol (a % 4 * 16 + b / 16 % 16)
    ∷ symbol (b % 16 * 4 + c / 64 % 4)
    ∷ symbol (c % 64)
    ∷ shown rest

shown-encode : (xs : List ℕ) → map to_standard (base64url_encode xs) ≡ shown xs
unfolding base64url_encode encode_groups shown symbol
shown-encode [] = refl
shown-encode (a ∷ []) = refl
shown-encode (a ∷ b ∷ []) = refl
shown-encode (a ∷ b ∷ c ∷ rest) = rw (shown-encode rest) refl

decode_loop-padding : (val have n : ℕ) → decode_loop val have (padding n) ≡ []
unfolding decode_loop padding
decode_loop-padding val have n = ground arith

one_byte :
    (val b : ℕ)
    → IsByte b
    → ((val * 64 + b / 4 % 64) % 2 ^ 32 * 64 + b % 4 * 16) % 2 ^ 32 / 16 % 256 ≡ b
one_byte val b h = omega arith

abbrev after_first : ℕ → ℕ → ℕ → ℕ
after_first val a i = ((val * 64 + a / 4 % 64) % 2 ^ 32 * 64 + (a % 4 * 16 + i)) % 2 ^ 32

last_byte :
    (val a b : ℕ)
    → IsByte b
    → (after_first val a (b / 16 % 16) * 64 + b % 16 * 4) % 2 ^ 32 / 4 % 256 ≡ b
last_byte val a b h = omega arith

first_read :
    (val a i : ℕ) (cs : List ℕ)
    → IsByte a
    → i < 16
    → decode_loop val 0 (symbol (a / 4 % 64) ∷ symbol (a % 4 * 16 + i) ∷ cs)
      ≡ a ∷ decode_loop (after_first val a i) 4 cs
first_read val a i cs h k =
    read_0 val (a / 4 % 64) (symbol (a % 4 * 16 + i) ∷ cs) (omega arith)
    ∙ read_6 ((val * 64 + a / 4 % 64) % 2 ^ 32) (a % 4 * 16 + i) cs (omega arith)
    ∙ ap (λ x. x ∷ decode_loop (after_first val a i) 4 cs) (first_byte val a i h k)

decode_loop-shown :
    (val n : ℕ) (xs : List ℕ) → All IsByte xs → decode_loop val 0 (shown xs ++ padding n) ≡ xs
unfolding shown
decode_loop-shown val n [] bytes = decode_loop-padding val 0 n
decode_loop-shown val n (a ∷ []) bytes =
    let val₁ = (val * 64 + a / 4 % 64) % 2 ^ 32 in
    let val₂ = (val₁ * 64 + a % 4 * 16) % 2 ^ 32 in
    read_0 val (a / 4 % 64) (symbol (a % 4 * 16) ∷ padding n) (omega arith)
    ∙ read_6 val₁ (a % 4 * 16) (padding n) (omega arith)
    ∙ ap (λ x. x ∷ decode_loop val₂ 4 (padding n)) (one_byte val a bytes.0)
    ∙ ap (λ xs. a ∷ xs) (decode_loop-padding val₂ 4 n)
decode_loop-shown val n (a ∷ b ∷ []) bytes =
    let val₂ = after_first val a (b / 16 % 16) in
    let val₃ = (val₂ * 64 + b % 16 * 4) % 2 ^ 32 in
    first_read val a (b / 16 % 16) (symbol (b % 16 * 4) ∷ padding n) bytes.0 (omega arith)
    ∙ ap (λ xs. a ∷ xs)
        (read_4 val₂ (b % 16 * 4) (padding n) (omega arith)
          ∙ ap (λ x. x ∷ decode_loop val₃ 2 (padding n)) (last_byte val a b bytes.1.0)
          ∙ ap (λ xs. b ∷ xs) (decode_loop-padding val₃ 2 n))
decode_loop-shown val n (a ∷ b ∷ c ∷ rest) bytes =
    let val₂ = after_first val a (b / 16 % 16) in
    let val₃ = (val₂ * 64 + (b % 16 * 4 + c / 64 % 4)) % 2 ^ 32 in
    let val₄ = (val₃ * 64 + c % 64) % 2 ^ 32 in
    let more = shown rest ++ padding n in
    first_read val a (b / 16 % 16) _ bytes.0 (omega arith)
    ∙ ap (λ xs. a ∷ xs)
        (read_4 val₂ (b % 16 * 4 + c / 64 % 4) (symbol (c % 64) ∷ more) (omega arith)
          ∙ ap (λ x. x ∷ decode_loop val₃ 2 (symbol (c % 64) ∷ more))
              (second_byte ((val * 64 + a / 4 % 64) % 2 ^ 32) b (a % 4) (c / 64 % 4) bytes.1.0
                (omega arith))
          ∙ ap (λ xs. b ∷ xs)
              (read_2 val₃ (c % 64) more (omega arith)
                ∙ ap (λ x. x ∷ decode_loop val₄ 0 more) (third_byte val₂ c (b % 16) bytes.1.1.0)
                ∙ ap (λ xs. c ∷ xs) (decode_loop-shown val₄ n rest bytes.1.1.1)))

-- Bytes that are encoded are decoded to the same bytes, whatever their number.
pub base64url_decode-base64url_encode :
    (bytes : List ℕ) → All IsByte bytes → base64url_decode (base64url_encode bytes) ≡ bytes
unfolding base64url_decode
base64url_decode-base64url_encode bytes h =
    ap (λ b64. decode_loop 0 0 (b64 ++ padding (length b64))) (shown-encode bytes)
    ∙ decode_loop-shown 0 (length (shown bytes)) bytes h
