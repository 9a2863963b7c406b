-- ===== src/Identity/Verify.antt =====
-- Verified tokens (`jwks`, `verify` and `tokens` in identity-on-start.js). Keys are objects, as the
-- provider's documents describe them.
use facis_zero_trust_demonst.Base.{
  ℕ, ◌⊎◌, String, Bool, true, false, ◌&&◌, ◌||◌, not, Option, none, some, ◌+◌, ◌-◌, ◌/◌,
  if◌then◌else◌, ◌==◌, Value, Fields, Items, nil, cons, str, num, null, bool, obj, arr, get,
  property, is_text, is_given, leb, ltb, is_empty, suc, inl, inr,
}
use facis_zero_trust_demonst.Identity.Preview.{has_text}
use facis_zero_trust_demonst.Identity.Token.{Parts, parts_of}
use facis_zero_trust_demonst.Identity.State.{
  Auth, Provider, Received, unreachable, too_long, response, Outcome, ok, err, Action, pure, raise,
  ◌>>=◌, truthy, same,
}

abbrev pub client_id : String
client_id = "ztd-ui"

-- The code for a text in `body.error`; a body that is null fails in the reading of it.
abbrev rejection : Value → String
rejection null = "IDENTITY_UNAVAILABLE"
rejection body =
    let error = property "error" body in
    if is_text error "unauthorized_client" || is_text error "invalid_client"
    then "CLIENT_NOT_ALLOWED"
    else if is_text error "invalid_scope"
    then "LOGIN_SCOPE_REJECTED"
    else "LOGIN_REJECTED"

-- What `request` makes of it; only a request for tokens reads the errors.
unfoldable pub content_of : (token_errors : Bool) → Received → String ⊎ Value
content_of token_errors unreachable = inl "IDENTITY_PROVIDER_UNAVAILABLE"
content_of token_errors too_long = inl "INVALID_IDENTITY_RESPONSE"
content_of token_errors (response status content) =
    if leb 200 status && ltb status 300
    then elim content [ none ↦ inl "INVALID_IDENTITY_RESPONSE" | some v ↦ inr v ]
    else if not token_errors
    then inl "IDENTITY_PROVIDER_UNAVAILABLE"
    else elim content [
      | none ↦ inl "INVALID_IDENTITY_RESPONSE"
      | some body ↦ inl (if leb 500 status then "IDENTITY_PROVIDER_UNAVAILABLE" else rejection body)
    ]

abbrev items_length : Items → ℕ
items_length nil = 0
items_length (cons v vs) = suc (items_length vs)

abbrev pub as_items : Value → Option Items
as_items (arr vs) = some vs
as_items _ = none

-- The keys that a response of the provider brings.
abbrev pub keys_in : Value → Option Items
keys_in answer = elim (as_items (property "keys" answer)) [
  | none ↦ none
  | some vs ↦ if leb (items_length vs) 32 then some vs else none
]

abbrev pub is_usable : String → Value → Bool
is_usable kid key =
    is_text (property "kid" key) kid
    && is_text (property "kty" key) "RSA"
    && (not (truthy (property "alg" key)) || is_text (property "alg" key) "RS256")
    && (not (truthy (property "use" key)) || is_text (property "use" key) "sig")

abbrev pub find_key : String → Items → Option Value
find_key kid nil = none
find_key kid (cons key vs) =
    let rest = find_key kid vs in if is_usable kid key then some key else rest

-- `typeof v === 'number'`, and then a comparison with it.
abbrev pub number_is : (ℕ → Bool) → Value → Bool
number_is test (num n) = test n
number_is test _ = false

-- `v && v > limit`, where texts are no numbers.
abbrev pub exceeds : Value → ℕ → Bool
exceeds (num n) limit = ltb limit n
exceeds _ limit = false

abbrev pub audience_has : Value → String → Bool
audience_has (str s) name = s == name
audience_has (arr vs) name = has_text name vs
audience_has _ name = false

-- Issuer, audience, party and times of the claims.
unfoldable pub claims_fit : String → ℕ → Fields → Bool
claims_fit issuer now c =
    is_text (get "iss" c) issuer
    && audience_has (get "aud" c) client_id
    && (not (truthy (get "azp" c)) || is_text (get "azp" c) client_id)
    && number_is (λ iat. leb iat (now + 30)) (get "iat" c)
    && not (exceeds (get "nbf" c) (now + 30))

-- A text that is not empty.
abbrev pub is_filled : Value → Bool
is_filled (str s) = not (is_empty s)
is_filled _ = false

-- The checks of a token that is no logout token; a fresh one has no error.
unfoldable pub freshness : ℕ → Fields → Option String
freshness now c =
    if not (number_is (λ n. true) (get "exp" c))
    then some "TOKEN_EXP_MISSING"
    else if not (is_filled (get "sub" c))
    then some "TOKEN_SUB_MISSING"
    else if number_is (λ n. leb n now) (get "exp" c)
    then some "EXPIRED"
    else none

abbrev pub logout_event : String
logout_event = "http://schemas.openid.net/event/backchannel-logout"

-- `events` names the logout by an object, and neither it nor `events` is a text or a number.
abbrev names_logout : Value → Bool
names_logout (obj fs) = is_object (get logout_event fs)
  where
    is_object : Value → Bool
    is_object (obj gs) = true
    is_object _ = false
names_logout _ = false

-- `v !== undefined && v <= now`, where texts name no numbers.
abbrev is_over : ℕ → Value → Bool
is_over now (num n) = leb n now
is_over now null = true
is_over now (bool b) = not b || leb 1 now
is_over now _ = false

unfoldable pub is_logout : ℕ → Fields → Bool
is_logout now c =
    number_is (λ iat. leb (now - iat) 300) (get "iat" c)
    && not (is_over now (get "exp" c))
    && has_jti (get "jti" c)
    && not (is_given (get "nonce" c))
    && names_logout (get "events" c)
    && (truthy (get "sid" c) || truthy (get "sub" c))
  where
    has_jti : Value → Bool
    has_jti (str s) = not (is_empty s)
    has_jti _ = false

-- What `verify` is asked to check.
pub record Check : Type 0 where
  pub nonce : Option String
  pub logout : Bool

-- The known keys, for a minute.
abbrev pub cached_keys : (force : Bool) (age : ℕ) → Option Items → Option Items
cached_keys force age none = none
cached_keys force age (some vs) = if not force && ltb age 60000 then some vs else none

abbrev pub cached_or : {A : Type 0} → Option A → Action A → Action A
cached_or none other = other
cached_or (some a) other = pure a

abbrev pub received : ℕ → Auth → Option Items → Outcome Items × Auth
received now s none = (err "INVALID_JWKS", s)
received now s (some vs) = (ok vs, record s { known_keys = some vs; key_at = now })

abbrev pub fetched : ℕ → Auth → String ⊎ Value → Outcome Items × Auth
fetched now s (inl code) = (err code, s)
fetched now s (inr answer) = received now s (keys_in answer)

abbrev pub raised_or : {A : Type 0} → Option String → A → Action A
raised_or none a = pure a
raised_or (some code) a = raise code

module _ (p : Provider) where
  unfoldable pub jwks : Bool → ℕ → Action Items
  jwks force now s =
      cached_or (cached_keys force (now - s.key_at) s.known_keys)
        (λ t. fetched now (record t { asked = suc t.asked }) (content_of false (p.certs t.asked))) s

  -- A key, after another fetch where the known ones lack it.
  unfoldable pub key_for : String → ℕ → Action Value
  key_for kid now = jwks false now >>= λ vs.
      cached_or (find_key kid vs)
        (jwks true now >>= λ fresh. cached_or (find_key kid fresh) (raise "INVALID_TOKEN"))

  -- The checks of the claims, in their order.
  unfoldable pub claims_error : Check → ℕ → Fields → Option String
  claims_error check now c =
      if not (claims_fit p.issuer now c)
      then some "INVALID_TOKEN"
      else elim (if check.logout then none else freshness now c) [
        | some code ↦ some code
        | none ↦
            if not (nonce_fits check.nonce)
            then some "INVALID_NONCE"
            else if check.logout && not (is_logout now c)
            then some "INVALID_LOGOUT_TOKEN"
            else none
      ]
    where
      nonce_fits : Option String → Bool
      nonce_fits none = true
      nonce_fits (some nonce) = same nonce (get "nonce" c)

  -- Times of the clock are milliseconds, those of the claims seconds.
  unfoldable pub verify_parts : Check → ℕ → Option Parts → Action Fields
  verify_parts check now none = raise "INVALID_TOKEN"
  verify_parts check now (some parts) = key_for parts.kid now >>= λ key.
      if leb 256 (p.key_bytes key) && p.signed parts.header parts.body parts.signature key
      then raised_or (claims_error check (now / 1000) parts.claims) parts.claims
      else raise "INVALID_TOKEN"

  unfoldable pub verify : Check → ℕ → Value → Action Fields
  verify check now tok = verify_parts check now (parts_of p tok)
