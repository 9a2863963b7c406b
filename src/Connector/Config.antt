-- ===== src/Connector/Config.antt =====
-- The configuration of the adapter (`createConnectorAdapter`, its checks). `new URL` is a parameter.
use facis_zero_trust_demonst.Base.{
  ◌>>=◌, ◌>>◌, ℕ, String, Bool, true, false, ◌&&◌, ◌||◌, not, Option, none, some, List, [], ◌∷◌,
  if◌then◌else◌, ◌==◌, Value, as_string, is_given, num, includes, all, trim, is_empty, words,
  text_length, leb, nat_eq, every_char,
}

pub record Url : Type 0 where
  pub href : String
  pub protocol : String
  pub hostname : String
  pub username : String
  pub password : String
  pub hash : String

-- The argument of `createConnectorAdapter`.
pub record Settings : Type 0 where
  pub token_url : Value
  pub registration_url : Value
  pub protected_url : Value
  pub registrar_client_id : Value
  pub registrar_client_secret : Value
  pub scope : Value
  pub audience : Value
  pub mode : Value
  pub method : Value
  pub timeout_ms : Value

pub record Adapter : Type 0 where
  pub token_endpoint : String
  pub register_endpoint : String
  pub resource_endpoint : String
  pub registrar_id : String
  pub registrar_secret : String
  pub scopes : List String
  pub audience : Option String
  pub mode : String
  pub method : String

abbrev pub registration_scope : String
registration_scope = "connector:client_registration"

-- A field with its default, where it is one of a few texts.
abbrev pub choice : Value → String → List String → Option String
choice v fallback allowed =
    if is_given v
    then elim (as_string v) [ none ↦ none | some s ↦ if includes allowed s then some s else none ]
    else some fallback

-- `Number.isInteger(timeoutMs)` between 1 and 60000, with the default 7000.
abbrev pub valid_timeout : Value → Bool
valid_timeout v = if is_given v then in_range v else true
  where
    in_range : Value → Bool
    in_range (num n) = leb 1 n && leb n 60000
    in_range _ = false

abbrev pub is_local : Url → Bool
is_local url = includes ("127.0.0.1" ∷ "[::1]" ∷ []) url.hostname

unfoldable pub acceptable_url : String → Url → Bool
acceptable_url mode url =
    is_empty url.username
    && is_empty url.password
    && is_empty url.hash
    && (url.protocol == "https:"
        || (mode == "local-contract" && is_local url && url.protocol == "http:"))

abbrev pub endpoint : (Value → Option Url) → String → Value → Option String
endpoint parse_url mode value = elim (parse_url value) [
  | none ↦ none
  | some url ↦ if acceptable_url mode url then some url.href else none
]

-- A text that is not blank and not too long.
abbrev pub filled : ℕ → Value → Option String
filled limit v = elim (as_string v) [
  | none ↦ none
  | some s ↦ if not (is_empty (trim s)) && leb (text_length s) limit then some s else none
]

-- `/^[\x21\x23-\x5b\x5d-\x7e]+$/`
abbrev is_scope_char : ℕ → Bool
is_scope_char c = nat_eq c 0x21 || (leb 0x23 c && leb c 0x5b) || (leb 0x5d c && leb c 0x7e)

abbrev pub is_scope : String → Bool
is_scope s = not (is_empty s) && every_char is_scope_char s

unfoldable pub valid_scopes : List String → Bool
valid_scopes scopes = not (includes scopes registration_scope) && all is_scope scopes

abbrev pub valid_audience : Value → Option (Option String)
valid_audience v =
    if is_given v then elim (filled 2048 v) [ none ↦ none | some s ↦ some (some s) ] else some none

-- Three endpoints that differ from each other.
abbrev pub distinct : String → String → String → Bool
distinct a b c = not (a == b) && not (a == c) && not (b == c)

-- The adapter, or `CONNECTOR_CONFIG_INVALID`.
unfoldable pub create_adapter : (Value → Option Url) → Settings → Option Adapter
create_adapter parse_url config = do
  mode ← choice config.mode "live" ("live" ∷ "local-contract" ∷ [])
  method ← choice config.method "GET" ("GET" ∷ "POST" ∷ [])
  valid_timeout config.timeout_ms
  token_endpoint ← endpoint parse_url mode config.token_url
  register_endpoint ← endpoint parse_url mode config.registration_url
  resource_endpoint ← endpoint parse_url mode config.protected_url
  distinct token_endpoint register_endpoint resource_endpoint
  registrar_id ← filled 4096 config.registrar_client_id
  registrar_secret ← filled 4096 config.registrar_client_secret
  scope ← filled 4096 config.scope
  valid_scopes (words (trim scope))
  audience ← valid_audience config.audience
  some (record {
    token_endpoint = token_endpoint;
    register_endpoint = register_endpoint;
    resource_endpoint = resource_endpoint;
    registrar_id = registrar_id;
    registrar_secret = registrar_secret;
    scopes = words (trim scope);
    audience = audience;
    mode = mode;
    method = method;
  })
