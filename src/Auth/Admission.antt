-- ===== src/Auth/Admission.antt =====
-- Whom the middleware lets in: src/service_broker/Auth/AuthMiddleware.cpp.
use rdws_us.Prelude.{
  ℕ, ◌+◌, ◌^◌, ◌<◌, String, Bool, true, false, ◌&&◌, ◌||◌, not, Option, none, some, List, [], ◌∷◌,
  ◌++◌, if◌then◌else◌, ltb, value_or, is_some, ◌==◌, ◌≡◌, ◌⊎◌, refl, ap, ◌∙◌, sym, subst, arith,
  All, eq_iff, Bool-cases, Option-cases, inl, inr,
}
use rdws_us.Prelude.Table.{lookup, text_key}
use rdws_us.Prelude.Floats.{Floats}
use rdws_us.Prelude.Checked.{
  Checked, refused, passed, require, >>=-eq-passed, require-eq-passed, passed-injective,
}
use rdws_us.Prelude.Text.{codes}
use rdws_us.Json.{Json, object, get_string}
use rdws_us.Auth.Base64.{base64url_decode, constant_time_equal}
use rdws_us.Auth.RoundTrip.{IsByte}
use rdws_us.Auth.Equality.{constant_time_equal_iff}
use rdws_us.Auth.Issue.{
  header_json, header_members, payload_of, build_jwt, ReadsBack, check_token-build_jwt,
  base64url_encode-IsByte,
}
use rdws_us.Auth.Access.{
  AuthMode, no_auth, get_header, jwt, api_key, AuthConfig, AuthIdentity, AuthHttpRequest,
  AuthResult, split_dot, split_token, c_str, result_of, admit, hmac_sha256_base64url, read_object,
  is_expired, is_early, audience_ok, build_identity, check_claims, check_token,
  extract_bearer_token, check_jwt, check_api_key, authenticate, authorize_admin, is_public_path,
}

not-eq-true : (b : Bool) → not b ≡ true → b ≡ false
not-eq-true true h = cc
not-eq-true false h = refl

split_dot-eq-some :
    (token : List ℕ) (xs ys : List ℕ) → split_dot token ≡ some (xs, ys) → token ≡ xs ++ b'.' ∷ ys
unfolding split_dot
split_dot-eq-some [] xs ys h = cc
split_dot-eq-some (c ∷ cs) xs ys h = elim (Option-cases (split_dot cs)) [
  | inl missing ↦ ground (arith, missing, h)
  | inr ((u, v), found) ↦ ground (arith, found, h, split_dot-eq-some cs u v found)
]

split_token-eq-passed :
    (token header payload signature : List ℕ)
    → split_token token ≡ passed (header, payload, signature)
    → token ≡ header ++ (b'.' ∷ (payload ++ b'.' ∷ signature))
unfolding split_token
split_token-eq-passed token header payload signature h = elim (Option-cases (split_dot token)) [
  | inl missing ↦ ground (arith, missing, h)
  | inr ((x, rest), first) ↦ elim (Option-cases (split_dot rest)) [
    | inl missing ↦ ground (arith, first, missing, h)
    | inr ((y, z), second) ↦ ground (
      arith,
      first,
      second,
      h,
      split_dot-eq-some token x rest first,
      split_dot-eq-some rest y z second,
    )
  ]
]

All-suffix : (P : ℕ → Type 0) (xs ys : List ℕ) → All P (xs ++ ys) → All P ys
All-suffix P [] ys h = h
All-suffix P (x ∷ xs) ys h = All-suffix P xs ys h.1

All-signature :
    (header payload signature token : List ℕ)
    → token ≡ header ++ (b'.' ∷ (payload ++ b'.' ∷ signature))
    → All IsByte token
    → All IsByte signature
All-signature header payload signature token e h =
    (All-suffix IsByte payload (b'.' ∷ signature)
      (All-suffix IsByte header (b'.' ∷ (payload ++ b'.' ∷ signature))
        (subst (All IsByte) e h)).1).1

-- What a claim-by-claim check of a document comes to.
abbrev pub Valid : (F : Floats) → AuthConfig → ℕ → Json F.D → Type 0
Valid F config now doc =
    (is_expired F now doc ≡ false)
    × (is_early F now doc ≡ false)
    × ((config.jwt_issuer == "" || value_or (get_string doc "iss") "" == config.jwt_issuer) ≡ true)
    × ((config.jwt_audience == "" || audience_ok config.jwt_audience doc) ≡ true)

check_claims-eq-passed :
    (F : Floats) (config : AuthConfig) (now : ℕ) (doc : Json F.D) (id : AuthIdentity)
    → check_claims F config now doc ≡ passed id
    → Valid F config now doc × (id ≡ build_identity F doc)
unfolding check_claims
check_claims-eq-passed F config now doc id h =
    let (u, current, h₁) =
      >>=-eq-passed (require (not (is_expired F now doc)) "JWT token has expired") _ h in
    let (v, begun, h₂) =
      >>=-eq-passed (require (not (is_early F now doc)) "JWT not yet valid (nbf)") _ h₁ in
    let (w, by, h₃) =
      >>=-eq-passed
        (require
          (config.jwt_issuer == "" || value_or (get_string doc "iss") "" == config.jwt_issuer)
          "JWT issuer mismatch")
        _ h₂ in
    let (x, for, h₄) =
      >>=-eq-passed
        (require (config.jwt_audience == "" || audience_ok config.jwt_audience doc)
          "JWT audience mismatch")
        _ h₃ in
    (
      (
        not-eq-true _ (require-eq-passed _ _ u current),
        not-eq-true _ (require-eq-passed _ _ v begun),
        require-eq-passed _ _ w by,
        require-eq-passed _ _ x for,
      ),
      passed-injective id (build_identity F doc) (sym h₄),
    )

nonempty_token :
    {D : Type 0} (hmac : List ℕ → List ℕ → List ℕ) (print : Json D → List ℕ) (now : ℕ)
    (user_id username role secret token : String)
    → codes token ≡ build_jwt hmac print now user_id username role secret
    → (token == "") ≡ false
unfolding build_jwt
nonempty_token hmac print now user_id username role secret token issued =
    elim (Bool-cases (token == "")) [
      | inl empty ↦ ground (arith, issued, ap codes ((eq_iff token "").0 empty))
      | inr nonempty ↦ nonempty
    ]

mode-cases : (m : AuthMode) → (m ≡ no_auth) ⊎ ((m ≡ api_key) ⊎ (m ≡ jwt))
mode-cases no_auth = inl refl
mode-cases api_key = inr (inl refl)
mode-cases jwt = inr (inr refl)

empty_label : (label : String) → label == "" ≡ true → label == "admin" ≡ false
empty_label label empty = ap (λ l. l == "admin") ((eq_iff label "").0 empty)

-- A result as a check by key or by token gives it.
abbrev IsSettled : AuthResult → Type 0
IsSettled r =
    (r.status_code ≡ (if r.authorized then 200 else 401)) × (is_some r.identity ≡ r.authorized)

result_of-IsSettled : (c : Checked AuthIdentity) → IsSettled (result_of c)
result_of-IsSettled (refused m) = (refl, refl)
result_of-IsSettled (passed id) = (refl, refl)

module _ (F : Floats) (hmac : List ℕ → List ℕ → List ℕ) (parse : List ℕ → Option (Json F.D)) where
  read_object-eq-passed :
      (b64 : List ℕ) (m : String) (doc : Json F.D)
      → read_object F hmac parse b64 m ≡ passed doc
      → parse (c_str (base64url_decode b64)) ≡ some doc
  unfolding read_object
  read_object-eq-passed b64 m doc h = ground (arith, h)

  -- A token passes only if it is header, payload and signature with dots between them, where the
  -- signature is the one that the secret gives the two others, the payload is an object whose claims are
  -- valid now, and the identity is the one that it names.
  pub check_token-eq-passed :
      (config : AuthConfig) (now : ℕ) (token : List ℕ) (id : AuthIdentity)
      → All IsByte token
      → check_token F hmac parse config now token ≡ passed id
      → (header : List ℕ) × (payload : List ℕ) × (doc : Json F.D) × (token
          ≡ header
            ++ (b'.'
                ∷ (payload
                    ++ (b'.'
                        ∷ hmac_sha256_base64url hmac
                            (codes config.jwt_secret)
                            (header ++ b'.' ∷ payload)))))
        × (parse (c_str (base64url_decode payload)) ≡ some doc)
        × Valid F config now doc
        × (id ≡ build_identity F doc)
  unfolding check_token hmac_sha256_base64url
  check_token-eq-passed config now token id bytes h =
      let ((header, payload, signature), split, h₁) = >>=-eq-passed (split_token token) _ h in
      let (hdr, read_hdr, h₂) =
        >>=-eq-passed (read_object F hmac parse header "Malformed JWT header") _ h₁ in
      let (u, alg, h₃) =
        >>=-eq-passed
          (require (value_or (get_string hdr "alg") "HS256" == "HS256")
            "Unsupported JWT algorithm (only HS256 accepted)")
          _ h₂ in
      let expected =
        hmac_sha256_base64url hmac (codes config.jwt_secret) (header ++ b'.' ∷ payload) in
      let (v, signed, h₄) =
        >>=-eq-passed (require (constant_time_equal expected signature) "Invalid JWT signature") _
          h₃ in
      let (doc, read_doc, h₅) =
        >>=-eq-passed (read_object F hmac parse payload "Malformed JWT payload") _ h₄ in
      let (valid, named) = check_claims-eq-passed F config now doc id h₅ in
      let parts = split_token-eq-passed token header payload signature split in
      let same =
        (constant_time_equal_iff expected signature
            (base64url_encode-IsByte (hmac (codes config.jwt_secret) (header ++ b'.' ∷ payload)))
            (All-signature header payload signature token parts bytes)).0
          (require-eq-passed _ _ v signed) in
      (
        header,
        payload,
        doc,
        parts ∙ ap (λ s. header ++ (b'.' ∷ (payload ++ b'.' ∷ s))) (sym same),
        read_object-eq-passed payload "Malformed JWT payload" doc read_doc,
        valid,
        named,
      )

  check_api_key-IsSettled :
      (config : AuthConfig) (req : AuthHttpRequest) → IsSettled (check_api_key config req)
  unfolding check_api_key
  check_api_key-IsSettled config req = ground arith

  check_jwt-IsSettled :
      (config : AuthConfig) (now : ℕ) (req : AuthHttpRequest)
      → IsSettled (check_jwt F hmac parse config now req)
  unfolding check_jwt
  check_jwt-IsSettled config now req = elim (Bool-cases (extract_bearer_token req == "")) [
    | inl missing ↦ rw missing (refl, refl)
    | inr sent ↦ rw sent (
        result_of-IsSettled
          (check_token F hmac parse config now (codes (extract_bearer_token req))))
  ]

  -- Whoever the admin endpoints let in, the other endpoints let in too, as the same user where the
  -- path is not public; no other outcome of a check than 200, 401 and 403 exists, and 200 is the one of
  -- those that are let in.
  pub authorize_admin-Authorized :
      (config : AuthConfig) (now : ℕ) (req : AuthHttpRequest)
      → ((authorize_admin F hmac parse config now req).authorized ≡ true
          → ((authenticate F hmac parse config now req).authorized ≡ true)
            × (is_public_path config req.path ≡ false
                → authenticate F hmac parse config now req
                  ≡ authorize_admin F hmac parse config now req))
        × ((authorize_admin F hmac parse config now req).status_code ≡ (
            if (authorize_admin F hmac parse config now req).authorized
            then 200
            else if is_some (authorize_admin F hmac parse config now req).identity
            then 403
            else 401))
  unfolding authorize_admin authenticate admit
  authorize_admin-Authorized config now req = elim (mode-cases config.mode) [
    | inl off ↦ ground (arith, off)
    | inr (inl key) ↦ ground (arith, key, check_api_key-IsSettled config req)
    | inr (inr token) ↦ ground (arith, token, check_jwt-IsSettled config now req)
  ]

  -- With API keys, the admin endpoints let in exactly the keys that are labelled "admin", and the key
  -- "admin" where its label is empty.
  pub authorize_admin-api_key :
      (config : AuthConfig) (now : ℕ) (req : AuthHttpRequest) (key : String)
      → config.mode ≡ api_key
      → lookup "X-API-Key" req.headers ≡ some key
      → (key == "") ≡ false
      → (authorize_admin F hmac parse config now req).authorized
        ≡ elim (lookup key config.api_keys) [
          | none ↦ false
          | some label ↦ label == "admin" || label == "" && key == "admin"
        ]
  unfolding authorize_admin check_api_key get_header admit
  authorize_admin-api_key config now req key mode sent nonempty =
      elim (Option-cases (lookup key config.api_keys)) [
        | inl unknown ↦ ground (arith, mode, sent, nonempty, unknown)
        | inr (label, known) ↦ ground (arith, mode, sent, nonempty, known, empty_label label)
      ]

  -- The admin endpoints let the bearer of a token of auth.login in exactly while the token has not
  -- expired and where the role it was issued for is "admin".
  pub authorize_admin-build_jwt :
      (print : Json F.D → List ℕ) (config : AuthConfig) (req : AuthHttpRequest) (token : String)
      (now later : ℕ) (user_id username role : String)
      → config.mode ≡ jwt
      → extract_bearer_token req ≡ token
      → codes token ≡ build_jwt hmac print now user_id username role config.jwt_secret
      → now + 86400 < 2 ^ 63
      → (config.jwt_issuer == "" || "rdws" == config.jwt_issuer) ≡ true
      → (config.jwt_audience == "") ≡ true
      → ReadsBack parse header_json (object header_members)
      → ReadsBack parse
          (print (payload_of now user_id username role))
          (payload_of now user_id username role)
      → (authorize_admin F hmac parse config later req).authorized
        ≡ (not (ltb (now + 86400) later) && role == "admin")
  unfolding authorize_admin check_jwt admit
  authorize_admin-build_jwt print config req token now later user_id username role mode sent issued
        fits issuer audience reads_header reads_payload =
      ground (
        arith,
        mode,
        sent,
        issued,
        nonempty_token hmac print now user_id username role config.jwt_secret token issued,
        check_token-build_jwt F hmac parse print config now later user_id username role fits issuer
            audience reads_header reads_payload,
      )
