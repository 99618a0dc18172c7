-- ===== src/Auth/Access.antt =====
-- AuthMiddleware of src/service_broker/Auth/AuthMiddleware.h and AuthMiddleware.cpp: API keys and
-- JWTs. A map of headers holds the first value of each name first.
use Prim.Native.String
use rdws_us.Prelude.{
  ℕ, String, Bool, true, false, ◌||◌, not, Option, none, some, List, [], ◌∷◌, ◌++◌, if◌then◌else◌,
  eqb, ltb, is_some, value_or, any_of, ◌==◌,
}
use rdws_us.Prelude.Int.{ℤ, pos, negsuc, ltb_ℤ}
use rdws_us.Prelude.Table.{Table, text_key, lookup, insert}
use rdws_us.Prelude.Floats.{Floats}
use rdws_us.Prelude.Checked.{Checked, refused, passed, require, ◌>>=◌, ◌>>◌}
use rdws_us.Prelude.Text.{codes, strip_prefix}
use rdws_us.Json.{Json, int, double, str, arr, obj, members, elems, find, fits_int64, get_string}
use rdws_us.Router.{to_string}
use rdws_us.Auth.Base64.{base64url_decode, base64url_encode, constant_time_equal}

pub data AuthMode : Type 0 where
  no_auth : AuthMode
  api_key : AuthMode
  jwt : AuthMode

pub record AuthConfig : Type 0 where
  pub mode : AuthMode
  pub api_keys : Table String String
  pub jwt_secret : String
  pub jwt_issuer : String
  pub jwt_audience : String
  pub public_paths : List String

pub record AuthHttpRequest : Type 0 where
  pub path : String
  pub headers : Table String String

pub record AuthIdentity : Type 0 where
  pub subject : String
  pub issuer : String
  pub claims : Table String String

pub record AuthResult : Type 0 where
  pub authorized : Bool
  pub status_code : ℕ
  pub message : String
  pub identity : Option AuthIdentity

abbrev pub accepted : Option AuthIdentity → AuthResult
accepted id = record { authorized = true; status_code = 200; message = "ok"; identity = id }

abbrev pub unauthorized : String → AuthResult
unauthorized m = record { authorized = false; status_code = 401; message = m; identity = none }

abbrev pub result_of : Checked AuthIdentity → AuthResult
result_of (refused m) = unauthorized m
result_of (passed id) = accepted (some id)

unfoldable pub get_header : String → AuthHttpRequest → String
unfolding lookup
get_header name req = value_or (lookup name req.headers) ""

unfoldable pub extract_bearer_token : AuthHttpRequest → String
unfolding strip_prefix get_header
extract_bearer_token req = value_or (strip_prefix "Bearer " (get_header "Authorization" req)) ""

unfoldable pub is_public_path : AuthConfig → String → Bool
unfolding strip_prefix any_of
is_public_path config path =
    any_of
      (λ public.
        path == public
        || is_some (strip_prefix (String.◌++◌ public "/") path)
        || is_some (strip_prefix (String.◌++◌ public "?") path))
      config.public_paths

unfoldable pub check_api_key : AuthConfig → AuthHttpRequest → AuthResult
unfolding lookup get_header extract_bearer_token
check_api_key config req =
    let key =
      if is_some (lookup "X-API-Key" req.headers)
      then get_header "X-API-Key" req
      else extract_bearer_token req in
    if key == ""
    then unauthorized "Missing API key (X-API-Key header or Authorization: Bearer)"
    else elim (lookup key config.api_keys) [
      | none ↦ unauthorized "Invalid API key"
      | some label ↦
          accepted (
            some
              (record { subject = if label == "" then key else label; issuer = ""; claims = [] }))
    ]

-- What stands before and behind the first dot.
unfoldable pub split_dot : List ℕ → Option (List ℕ × List ℕ)
split_dot [] = none
split_dot (c ∷ cs) =
    let later : Option (List ℕ × List ℕ) = elim (split_dot cs) [
      | none ↦ none
      | some (xs, ys) ↦ some (c ∷ xs, ys)
    ] in
    if eqb c b'.' then some ([], cs) else later

unfoldable pub split_token : List ℕ → Checked (List ℕ × List ℕ × List ℕ)
unfolding split_dot
split_token token = elim (split_dot token) [
  | none ↦ refused "Malformed JWT: missing first dot"
  | some (header, rest) ↦ elim (split_dot rest) [
    | none ↦ refused "Malformed JWT: missing second dot"
    | some (payload, signature) ↦ passed (header, payload, signature)
  ]
]

-- What Parse(text.c_str()) reads: up to the first NUL.
unfoldable pub c_str : List ℕ → List ℕ
c_str [] = []
c_str (c ∷ cs) = if eqb c 0 then [] else c ∷ c_str cs

unfoldable pub hmac_sha256_base64url : (List ℕ → List ℕ → List ℕ) → List ℕ → List ℕ → List ℕ
unfolding base64url_encode
hmac_sha256_base64url hmac secret message = base64url_encode (hmac secret message)

abbrev pub is_text : {D : Type 0} → String → Json D → Bool
is_text s (str t) = t == s
is_text s _ = false

unfoldable pub audience_ok : {D : Type 0} → String → Json D → Bool
unfolding find any_of
audience_ok audience doc = elim (find "aud" doc) [
  | some (str s) ↦ s == audience
  | some (arr vs) ↦ any_of (is_text audience) (elems vs)
  | _ ↦ false
]

module _ (F : Floats) where
  -- IsInt64, IsInt and IsDouble, the others as `other`.
  abbrev pub seconds_of : ℤ → Json F.D → ℤ
  seconds_of other (int n) = if fits_int64 n then n else other
  seconds_of other (double d) = F.trunc d
  seconds_of other _ = other

  unfoldable pub is_expired : ℕ → Json F.D → Bool
  unfolding find
  is_expired now doc = elim (find "exp" doc) [
    | none ↦ false
    | some v ↦ elim (seconds_of (negsuc 0) v) [ pos exp ↦ ltb exp now | negsuc n ↦ false ]
  ]

  unfoldable pub is_early : ℕ → Json F.D → Bool
  unfolding find
  is_early now doc = elim (find "nbf" doc) [
    | none ↦ false
    | some v ↦ ltb_ℤ (pos now) (seconds_of (pos 0) v)
  ]

  abbrev pub claim_text : Json F.D → Option String
  claim_text (str s) = some s
  claim_text (int n) = if fits_int64 n then some (to_string n) else none
  claim_text (double d) = some (to_string (F.trunc d))
  claim_text _ = none

  unfoldable pub collect_claims :
      List (String × Json F.D) → Table String String → Table String String
  unfolding insert
  collect_claims [] claims = claims
  collect_claims ((name, v) ∷ ms) claims =
      collect_claims ms (elim (claim_text v) [ none ↦ claims | some s ↦ insert name s claims ])

  abbrev pub members_of : Json F.D → List (String × Json F.D)
  members_of (obj ms) = members ms
  members_of _ = []

  unfoldable pub build_identity : Json F.D → AuthIdentity
  unfolding collect_claims get_string
  build_identity doc = record {
    subject = value_or (get_string doc "sub") "";
    issuer = value_or (get_string doc "iss") "";
    claims = collect_claims (members_of doc) [];
  }

  unfoldable pub check_claims : AuthConfig → ℕ → Json F.D → Checked AuthIdentity
  unfolding is_expired is_early get_string audience_ok build_identity
  check_claims config now doc = do
    require (not (is_expired now doc)) "JWT token has expired"
    require (not (is_early now doc)) "JWT not yet valid (nbf)"
    require (config.jwt_issuer == "" || value_or (get_string doc "iss") "" == config.jwt_issuer)
        "JWT issuer mismatch"
    require (config.jwt_audience == "" || audience_ok config.jwt_audience doc)
        "JWT audience mismatch"
    passed (build_identity doc)

  -- HMAC with SHA-256 is OpenSSL's, the parser of documents rapidjson's.
  module _ (hmac : List ℕ → List ℕ → List ℕ) (parse : List ℕ → Option (Json F.D)) where
    unfoldable pub read_object : List ℕ → String → Checked (Json F.D)
    unfolding base64url_decode c_str
    read_object b64 m = elim (parse (c_str (base64url_decode b64))) [
      | some (obj ms) ↦ passed (obj ms)
      | _ ↦ refused m
    ]

    unfoldable pub check_token : AuthConfig → ℕ → List ℕ → Checked AuthIdentity
    unfolding split_token read_object get_string constant_time_equal hmac_sha256_base64url
        check_claims
    check_token config now token = do
      (header, payload, signature) ← split_token token
      hdr ← read_object header "Malformed JWT header"
      require (value_or (get_string hdr "alg") "HS256" == "HS256")
          "Unsupported JWT algorithm (only HS256 accepted)"
      require
          (constant_time_equal
            (hmac_sha256_base64url hmac (codes config.jwt_secret) (header ++ b'.' ∷ payload))
            signature)
          "Invalid JWT signature"
      doc ← read_object payload "Malformed JWT payload"
      check_claims config now doc

    unfoldable pub check_jwt : AuthConfig → ℕ → AuthHttpRequest → AuthResult
    unfolding extract_bearer_token check_token
    check_jwt config now req =
        let token = extract_bearer_token req in
        if token == ""
        then unauthorized "Missing Authorization: Bearer token"
        else result_of (check_token config now (codes token))

    unfoldable pub authenticate : AuthConfig → ℕ → AuthHttpRequest → AuthResult
    unfolding is_public_path check_api_key check_jwt
    authenticate config now req =
        if is_public_path config req.path then accepted none else elim config.mode [
          | no_auth ↦ accepted none
          | api_key ↦ check_api_key config req
          | jwt ↦ check_jwt config now req
        ]

    abbrev pub admin_required : AuthResult → AuthResult
    admin_required result = record result {
      authorized = false;
      status_code = 403;
      message = "Admin role required";
    }

    abbrev pub has_subject : String → Option AuthIdentity → Bool
    has_subject s none = false
    has_subject s (some id) = id.subject == s

    abbrev pub has_role : String → Option AuthIdentity → Bool
    has_role r none = false
    has_role r (some id) = elim (lookup "role" id.claims) [ none ↦ false | some s ↦ s == r ]

    unfoldable pub admit : (Option AuthIdentity → Bool) → AuthResult → AuthResult
    admit is_admin result =
        if result.authorized
        then (if is_admin result.identity then result else admin_required result)
        else result

    unfoldable pub authorize_admin : AuthConfig → ℕ → AuthHttpRequest → AuthResult
    unfolding check_api_key check_jwt lookup admit
    authorize_admin config now req = elim config.mode [
      | no_auth ↦ accepted none
      | api_key ↦ admit (has_subject "admin") (check_api_key config req)
      | jwt ↦ admit (has_role "admin") (check_jwt config now req)
    ]
