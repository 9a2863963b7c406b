-- ===== src/Connector/Tokens.antt =====
-- The token responses and the registration of the client (`tokenValue` and `register` in
-- connector-adapter.mjs). A number that is no natural number does not occur as `expires_in`.
use facis_zero_trust_demonst.Base.{
  String, Bool, true, false, ◌&&◌, ◌||◌, not, Option, none, some, List, [], ◌∷◌, if◌then◌else◌,
  ◌==◌, Value, Fields, Items, cons, nil, arr, as_string, is_given, num, str, bool, object, get,
  includes, all, text_length, leb, nat_eq, every_char, words, join,
}
use facis_zero_trust_demonst.Connector.Protocol.{
  form, json, basic, token, Network, Action, Client, pure, raise, raise_if, ◌>>=◌, ◌>>◌,
}
use facis_zero_trust_demonst.Connector.Config.{Adapter, registration_scope}
use facis_zero_trust_demonst.Connector.Request.{Options, Reply, request}

pub record Token : Type 0 where
  pub kind : String
  pub value : String

-- `/^[\x21-\x7e]{1,16384}$/`
abbrev pub is_token_text : String → Bool
is_token_text s =
    leb 1 (text_length s)
    && leb (text_length s) 16384
    && every_char (λ c. leb 0x21 c && leb c 0x7e) s

abbrev is_positive : Value → Bool
is_positive (num n) = leb 1 n
is_positive _ = false

unfoldable pub token_of : Bool → Fields → Option Token
token_of require_dpop fs = elim (as_string (get "access_token" fs)) [
  | none ↦ none
  | some value ↦ elim (as_string (get "token_type" fs)) [
    | none ↦ none
    | some kind ↦
        if is_token_text value
          && (kind == "DPoP" || (kind == "Bearer" && not require_dpop))
          && is_positive (get "expires_in" fs)
        then some (record { kind = kind; value = value })
        else none
  ]
]

-- The response names no scope, or all that were asked for.
unfoldable pub scopes_granted : List String → Value → Bool
scopes_granted scopes v =
    if is_given v
    then elim (as_string v) [ none ↦ false | some granted ↦ all (includes (words granted)) scopes ]
    else true

unfoldable pub token_value : List String → String → Bool → Fields → Action Token
token_value scopes stage require_dpop fs = elim (token_of require_dpop fs) [
  | none ↦ raise "CONNECTOR_INVALID_TOKEN_RESPONSE" stage none
  | some t ↦
      raise_if (not (scopes_granted scopes (get "scope" fs))) "insufficient_scope" stage none
      >> pure t
]

abbrev texts : List String → Items
texts [] = nil
texts (s ∷ ss) = cons (str s) (texts ss)

unfoldable pub bootstrap_options : Adapter → Options
bootstrap_options a = record {
  stage = "registration-token";
  endpoint = a.token_endpoint;
  method = "POST";
  body = some (
      form (
        ("grant_type", "client_credentials")
        ∷ ("scope", join " " (registration_scope ∷ a.scopes))
        ∷ ("audience", a.register_endpoint)
        ∷ []));
  authorization = basic a.registrar_id a.registrar_secret;
  access_token = none;
  dpop = true;
}

abbrev metadata : Adapter → Value
metadata a = object (
    ("client_name", str "participant backend")
    ∷ ("grant_types", arr (texts ("client_credentials" ∷ [])))
    ∷ ("token_endpoint_auth_method", str "client_secret_basic")
    ∷ ("scope", str (join " " a.scopes))
    ∷ ("dpop_bound_access_tokens", bool true)
    ∷ [])

unfoldable pub registration_options : Adapter → Token → Options
registration_options a t = record {
  stage = "registration";
  endpoint = a.register_endpoint;
  method = "POST";
  body = some (json (metadata a));
  authorization = token t.kind t.value;
  access_token = some t.value;
  dpop = t.kind == "DPoP";
}

abbrev credential : Value → Option String
credential v = elim (as_string v) [
  | none ↦ none
  | some s ↦ if leb 1 (text_length s) && leb (text_length s) 4096 then some s else none
]

abbrev is_true : Value → Bool
is_true (bool b) = b
is_true _ = false

abbrev both : Option String → Option String → Option Client
both (some id) (some secret) = some (record { id = id; secret = secret })
both _ _ = none

unfoldable pub client_of : Reply → Option Client
client_of reply =
    let fs = reply.content in
    if nat_eq reply.status 201 && is_true (get "dpop_bound_access_tokens" fs)
    then both (credential (get "client_id" fs)) (credential (get "client_secret" fs))
    else none

abbrev pub registered_client : Reply → Action Client
registered_client reply = elim (client_of reply) [
  | none ↦ raise "CONNECTOR_INVALID_REGISTRATION_RESPONSE" "registration" (some reply.status)
  | some client ↦ pure client
]

unfoldable pub register : Network → Adapter → Action Client
register net a = do
  first ← request net (bootstrap_options a)
  bootstrap ← token_value a.scopes "registration-token" false first.content
  reply ← request net (registration_options a bootstrap)
  registered_client reply
