-- ===== src/Auth/Issue.antt =====
-- buildJwt of src/services/auth_service/AppAuthService.cpp, and how the middleware of the broker
-- receives its tokens. The writer of documents is rapidjson's.
use rdws_us.Prelude.{
  ℕ, ◌*◌, ◌/◌, ◌%◌, ◌+◌, ◌^◌, ◌<◌, String, Bool, true, false, ◌&&◌, ◌||◌, not, Option, some, List,
  [], ◌∷◌, ◌++◌, if◌then◌else◌, eqb, ltb, ◌==◌, ◌≡◌, refl, arith, All,
}
use rdws_us.Prelude.Int.{pos}
use rdws_us.Prelude.Table.{text_key}
use rdws_us.Prelude.Floats.{Floats}
use rdws_us.Prelude.Checked.{refused, passed}
use rdws_us.Prelude.Text.{codes, all_below, all_below_sound}
use rdws_us.Json.{Json, int, str, object}
use rdws_us.Router.{to_string}
use rdws_us.Auth.Base64.{letter, to_url, encode_groups, base64url_encode, constant_time_equal}
use rdws_us.Auth.RoundTrip.{IsByte, base64url_decode-base64url_encode}
use rdws_us.Auth.Equality.{constant_time_equal_iff}
use rdws_us.Auth.Access.{
  AuthConfig, AuthIdentity, split_dot, split_token, c_str, hmac_sha256_base64url, read_object,
  check_claims, check_token,
}

abbrev pub header_json : List ℕ
header_json = codes "{\"alg\":\"HS256\",\"typ\":\"JWT\"}"

abbrev pub payload_members : {D : Type 0} → ℕ → String → String → String → List (String × Json D)
payload_members now user_id username role =
    ("sub", str user_id)
    ∷ ("username", str username)
    ∷ ("role", str role)
    ∷ ("iss", str "rdws")
    ∷ ("iat", int (pos now))
    ∷ ("exp", int (pos (now + 86400)))
    ∷ []

abbrev pub payload_of : {D : Type 0} → ℕ → String → String → String → Json D
payload_of now user_id username role = object (payload_members now user_id username role)

abbrev pub header_members : {D : Type 0} → List (String × Json D)
header_members = ("alg", str "HS256") ∷ ("typ", str "JWT") ∷ []

unfoldable pub build_jwt :
    {D : Type 0}
    → (List ℕ → List ℕ → List ℕ)
    → (Json D → List ℕ)
    → ℕ
    → String
    → String
    → String
    → String
    → List ℕ
unfolding hmac_sha256_base64url base64url_encode
build_jwt hmac print now user_id username role secret =
    let signing_input =
      base64url_encode header_json
      ++ b'.' ∷ base64url_encode (print (payload_of now user_id username role)) in
    signing_input ++ b'.' ∷ hmac_sha256_base64url hmac (codes secret) signing_input

-- A character of base64url: a byte, and no dot.
IsShown : ℕ → Type 0
IsShown c = IsByte c × (eqb c b'.' ≡ false)

shown_test : ℕ → Bool
shown_test i = ltb (to_url (letter i)) 256 && not (eqb (to_url (letter i)) b'.')

shown_table : all_below 64 shown_test ≡ true
unfolding all_below shown_test to_url
shown_table = refl

letter-IsShown : (i : ℕ) → i < 64 → IsShown (to_url (letter i))
unfolding shown_test IsShown
letter-IsShown i h = ground (arith, all_below_sound 64 shown_test i shown_table h)

base64url_encode-IsShown : (xs : List ℕ) → All IsShown (base64url_encode xs)
unfolding base64url_encode encode_groups
base64url_encode-IsShown [] = tt
base64url_encode-IsShown (a ∷ []) =
    (letter-IsShown (a / 4 % 64) (omega arith), (letter-IsShown (a % 4 * 16) (omega arith), tt))
base64url_encode-IsShown (a ∷ b ∷ []) = (
  letter-IsShown (a / 4 % 64) (omega arith),
  (
    letter-IsShown (a % 4 * 16 + b / 16 % 16) (omega arith),
    (letter-IsShown (b % 16 * 4) (omega arith), tt),
  ),
)
base64url_encode-IsShown (a ∷ b ∷ c ∷ rest) = (
  letter-IsShown (a / 4 % 64) (omega arith),
  (
    letter-IsShown (a % 4 * 16 + b / 16 % 16) (omega arith),
    (
      letter-IsShown (b % 16 * 4 + c / 64 % 4) (omega arith),
      (letter-IsShown (c % 64) (omega arith), base64url_encode-IsShown rest),
    ),
  ),
)

split_dot-shown : (xs ys : List ℕ) → All IsShown xs → split_dot (xs ++ b'.' ∷ ys) ≡ some (xs, ys)
unfolding split_dot IsShown
split_dot-shown [] ys h = refl
split_dot-shown (x ∷ xs) ys h = rw (h.0.1) (rw (split_dot-shown xs ys h.1) refl)

append-cons : (xs ys zs : List ℕ) (c : ℕ) → (xs ++ c ∷ ys) ++ zs ≡ xs ++ (c ∷ (ys ++ zs))
append-cons [] ys zs c = refl
append-cons (x ∷ xs) ys zs c = rw (append-cons xs ys zs c) refl

split_token-shown :
    (header payload signature : List ℕ)
    → All IsShown header
    → All IsShown payload
    → split_token ((header ++ b'.' ∷ payload) ++ b'.' ∷ signature)
      ≡ passed (header, payload, signature)
unfolding split_token
split_token-shown header payload signature hh hp = ground (
  arith,
  append-cons header payload (b'.' ∷ signature) b'.',
  split_dot-shown header (payload ++ b'.' ∷ signature) hh,
  split_dot-shown payload signature hp,
)

-- What rapidjson promises of a document that it writes: bytes without a NUL, which read back.
abbrev pub ReadsBack : {D : Type 0} → (List ℕ → Option (Json D)) → List ℕ → Json D → Type 0
ReadsBack parse text doc =
    All IsByte text × All (λ c. eqb c 0 ≡ false) text × (parse text ≡ some doc)

c_str-All : (text : List ℕ) → All (λ c. eqb c 0 ≡ false) text → c_str text ≡ text
unfolding c_str
c_str-All [] h = refl
c_str-All (c ∷ cs) h = rw h.0 (rw (c_str-All cs h.1) refl)

read_object-encode :
    (F : Floats) (hmac : List ℕ → List ℕ → List ℕ) (parse : List ℕ → Option (Json F.D))
    (text : List ℕ) (ms : List (String × Json F.D)) (m : String)
    → ReadsBack parse text (object ms)
    → read_object F hmac parse (base64url_encode text) m ≡ passed (object ms)
unfolding read_object
read_object-encode F hmac parse text ms m (bytes, nuls, reads) =
    ground (arith, base64url_decode-base64url_encode text bytes, c_str-All text nuls, reads)

IsShown-IsByte : (xs : List ℕ) → All IsShown xs → All IsByte xs
unfolding IsShown
IsShown-IsByte [] h = tt
IsShown-IsByte (x ∷ xs) h = (h.0.0, IsShown-IsByte xs h.1)

signature_lem :
    (signature : List ℕ)
    → constant_time_equal (base64url_encode signature) (base64url_encode signature) ≡ true
signature_lem signature =
    let bytes = IsShown-IsByte _ (base64url_encode-IsShown signature) in
    (constant_time_equal_iff _ _ bytes bytes).1 refl

abbrev pub issued_identity : ℕ → String → String → String → AuthIdentity
issued_identity now user_id username role = record {
  subject = user_id;
  issuer = "rdws";
  claims =
      ("exp", to_string (pos (now + 86400)))
      ∷ ("iat", to_string (pos now))
      ∷ ("iss", "rdws")
      ∷ ("role", role)
      ∷ ("sub", user_id)
      ∷ ("username", username)
      ∷ [];
}

check_claims-payload :
    (F : Floats) (config : AuthConfig) (now later : ℕ) (user_id username role : String)
    → now + 86400 < 2 ^ 63
    → (config.jwt_issuer == "" || "rdws" == config.jwt_issuer) ≡ true
    → (config.jwt_audience == "") ≡ true
    → check_claims F config later (payload_of now user_id username role) ≡ (
        if ltb (now + 86400) later
        then refused "JWT token has expired"
        else passed (issued_identity now user_id username role))
unfolding check_claims
check_claims-payload F config now later user_id username role fits issuer audience = ground arith

-- A token that auth.login issues passes the check of a broker with the same secret until it
-- expires a day later, as the user it was issued for; from then on it is refused as expired. The
-- broker asks for no audience, and for no issuer or "rdws".
pub check_token-build_jwt :
    (F : Floats) (hmac : List ℕ → List ℕ → List ℕ) (parse : List ℕ → Option (Json F.D))
    (print : Json F.D → List ℕ) (config : AuthConfig) (now later : ℕ)
    (user_id username role : String)
    → now + 86400 < 2 ^ 63
    → (config.jwt_issuer == "" || "rdws" == config.jwt_issuer) ≡ true
    → (config.jwt_audience == "") ≡ true
    → ReadsBack parse header_json (object header_members)
    → ReadsBack parse
        (print (payload_of now user_id username role))
        (payload_of now user_id username role)
    → check_token F hmac parse config later
        (build_jwt hmac print now user_id username role config.jwt_secret)
      ≡ (if ltb (now + 86400) later
          then refused "JWT token has expired"
          else passed (issued_identity now user_id username role))
unfolding check_token build_jwt
check_token-build_jwt F hmac parse print config now later user_id username role fits issuer audience
      reads_header reads_payload =
    let payload = print (payload_of now user_id username role) in
    let signing_input = base64url_encode header_json ++ b'.' ∷ base64url_encode payload in
    ground (
      arith,
      split_token-shown (base64url_encode header_json) (base64url_encode payload)
          (base64url_encode (hmac (codes config.jwt_secret) signing_input))
          (base64url_encode-IsShown header_json) (base64url_encode-IsShown payload),
      read_object-encode F hmac parse header_json header_members "Malformed JWT header"
          reads_header,
      read_object-encode F hmac parse payload (payload_members now user_id username role)
          "Malformed JWT payload" reads_payload,
      signature_lem (hmac (codes config.jwt_secret) signing_input),
      check_claims-payload F config now later user_id username role fits issuer audience,
    )

pub base64url_encode-IsByte : (xs : List ℕ) → All IsByte (base64url_encode xs)
base64url_encode-IsByte xs = IsShown-IsByte (base64url_encode xs) (base64url_encode-IsShown xs)
