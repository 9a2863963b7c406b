-- ===== src/Connector/Run.antt =====
-- A run of the adapter (`run` in connector-adapter.mjs). `JSON.stringify` of the payload is a
-- parameter.
use facis_zero_trust_demonst.Base.{
  ℕ, String, Bool, true, false, ◌&&◌, not, Option, none, some, List, [], ◌∷◌, ◌++◌, if◌then◌else◌,
  ◌==◌, Value, Fields, as_object, is_given, is_identifier, as_string, join, byte_length, leb,
}
use facis_zero_trust_demonst.Connector.Protocol.{
  Body, form, json, basic, token, Network, Action, Client, Session, Event, Failure, Result, ok, err,
  pure, emit, plain_event, continue, ◌>>=◌, ◌>>◌,
}
use facis_zero_trust_demonst.Connector.Config.{Adapter}
use facis_zero_trust_demonst.Connector.Request.{Options, Reply, request}
use facis_zero_trust_demonst.Connector.Tokens.{Token, token_value, register}

pub record Input : Type 0 where
  pub request_id : Value
  pub correlation_id : Value
  pub payload : Value

pub record Outcome : Type 0 where
  pub ok : Bool
  pub status : Option ℕ
  pub content : Option Fields
  pub reason_code : Option String
  pub failed_stage : Option String
  pub events : List Event

-- `registered || await register(...)`, with what it assigns.
unfoldable pub cached_client : Network → Adapter → Action Client
cached_client net a s = elim s.registered [
  | some client ↦ (ok client, s)
  | none ↦
      continue (register net a s) (λ client t. (ok client, record t { registered = some client }))
]

abbrev audience_field : Option String → List (String × String)
audience_field none = []
audience_field (some audience) = ("audience", audience) ∷ []

unfoldable pub token_options : Adapter → Client → Options
token_options a client = record {
  stage = "token";
  endpoint = a.token_endpoint;
  method = "POST";
  body = some (
      form (
        ("grant_type", "client_credentials")
        ∷ ("scope", join " " a.scopes)
        ∷ audience_field a.audience));
  authorization = basic client.id client.secret;
  access_token = none;
  dpop = true;
}

unfoldable pub protected_options : Adapter → Option Body → Token → Options
protected_options a body t = record {
  stage = "protected-call";
  endpoint = a.resource_endpoint;
  method = a.method;
  body = body;
  authorization = token "DPoP" t.value;
  access_token = some t.value;
  dpop = true;
}

abbrev pub responded : ℕ → Event
responded status = record {
  event = "protected.responded";
  stage = "protected-call";
  status = some status;
  reason_code = none;
}

-- The body of the `try`.
unfoldable pub protocol : Network → Adapter → Option Body → Action Reply
protocol net a body = do
  emit (plain_event "registration.requested" "registration")
  client ← cached_client net a
  emit (plain_event "registration.ready" "registration")
  reply ← request net (token_options a client)
  t ← token_value a.scopes "token" true reply.content
  emit (plain_event "token.acquired" "token")
  emit (plain_event "protected.requested" "protected-call")
  response ← request net (protected_options a body t)
  emit (responded response.status)
  pure response

abbrev pub refused_event : Failure → Event
refused_event e = record {
  event = "request.refused";
  stage = e.stage;
  status = e.status;
  reason_code = some e.code;
}

-- The `try` with its `catch`.
abbrev pub settle : Result Reply × Session → Outcome × Session
settle (ok reply, s) = (
  record {
    ok = true;
    status = some reply.status;
    content = some reply.content;
    reason_code = none;
    failed_stage = none;
    events = s.events;
  },
  s,
)
settle (err e, s) =
    let t : Session = record s { events = s.events ++ refused_event e ∷ [] } in
    (
      record {
        ok = false;
        status = e.status;
        content = none;
        reason_code = some e.code;
        failed_stage = some e.stage;
        events = t.events;
      },
      t,
    )

abbrev pub valid_id : Value → Bool
valid_id v = elim (as_string v) [ none ↦ false | some s ↦ is_identifier s ]

-- The body that is sent, where the payload fits the method.
abbrev pub body_of : (Value → String) → Adapter → Value → Option (Option Body)
body_of stringify a payload =
    if a.method == "POST"
    then elim (as_object payload) [
      | none ↦ none
      | some fs ↦
          if leb (byte_length (stringify payload)) 65536 then some (some (json payload)) else none
    ]
    else if is_given payload
    then none
    else some none

-- A run, or the code that it throws; each run has events of its own.
unfoldable pub run :
    Network
    → (Value → String)
    → Adapter
    → Input
    → Session
    → (Option Outcome × Option String) × Session
run net stringify a input s =
    if not (valid_id input.request_id && valid_id input.correlation_id)
    then ((none, some "CONNECTOR_IDENTIFIER_INVALID"), s)
    else elim (body_of stringify a input.payload) [
      | none ↦ ((none, some "CONNECTOR_PAYLOAD_INVALID"), s)
      | some body ↦
          let next = settle (protocol net a body (record s { events = [] })) in
          ((some next.0, none), next.1)
    ]
