-- ===== src/Connector/Tests.antt =====
-- The adapter on a concrete network (connector-adapter.mjs and connector-flow-run.js).
use facis_zero_trust_demonst.Base.{
  ℕ, String, true, ◌≡◌, ◌≢◌, ◌⊎◌, refl, Option, none, some, List, [], ◌∷◌, Value, undefined, null,
  str, num, bool, object, if◌then◌else◌, ◌==◌, ◌&&◌, not, words, trim, is_identifier, map, includes,
}
use facis_zero_trust_demonst.Participant.Config.{Environment, read}
use facis_zero_trust_demonst.Connector.Protocol.{
  Network, Call, Session, Fetched, answered, Response, send, emit,
}
use facis_zero_trust_demonst.Connector.Config.{
  Url, Adapter, create_adapter, acceptable_url, valid_scopes,
}
use facis_zero_trust_demonst.Connector.Request.{
  Options, request, call_of, proof, too_large, asks_nonce, challenge, next_nonce, refusal, conclude,
  receive, attempts,
}
use facis_zero_trust_demonst.Connector.Tokens.{
  token_of, scopes_granted, token_value, bootstrap_options, registration_options, client_of,
  register,
}
use facis_zero_trust_demonst.Connector.Run.{
  Input, Outcome, cached_client, token_options, protected_options, protocol, run,
}
use facis_zero_trust_demonst.Connector.Calls.{Adds}
use facis_zero_trust_demonst.Connector.Attempts.{attempts_enough}
use facis_zero_trust_demonst.Connector.Bound.{IsBound}
use facis_zero_trust_demonst.Connector.Credentials.{run-IsBound}
use facis_zero_trust_demonst.Connector.Phases.{run-IsTrace, IsTrace}
use facis_zero_trust_demonst.Connector.Configured.{create_adapter-IsSound, IsSound}
use facis_zero_trust_demonst.Connector.Flow.{settings, on_message}
use facis_zero_trust_demonst.Connector.Secure.{on_message-IsSecure, IsSecure}

abbrev reply : ℕ → String → Response
reply status text = record {
  status = status;
  authenticate = "";
  nonce = some "n-1";
  chunks = text ∷ [];
  broken = none;
}

-- Each stage is answered by its own text; the first call of the stage `token` is answered by a
-- challenge.
abbrev stage_of : Call → String
stage_of call = call.stage

abbrev fetch : List Call → Call → Fetched
fetch before call =
    if call.stage == "registration"
    then answered (reply 201 "client")
    else if call.stage == "protected-call"
    then answered (reply 200 "answer")
    else if call.stage == "token" && not (includes (map stage_of before) "token")
    then answered (reply 400 "challenge")
    else answered (reply 200 "token")

abbrev parse_json : String → Option Value
parse_json text =
    if text == "client"
    then some (
        object (
          ("client_id", str "c-1")
          ∷ ("client_secret", str "s-1")
          ∷ ("dpop_bound_access_tokens", bool true)
          ∷ []))
    else if text == "token"
    then some (
        object (
          ("access_token", str "t-1")
          ∷ ("token_type", str "DPoP")
          ∷ ("expires_in", num 300)
          ∷ ("scope", str "read write")
          ∷ []))
    else if text == "challenge"
    then some (object (("error", str "use_dpop_nonce") ∷ []))
    else if text == "answer"
    then some (object (("value", num 1) ∷ []))
    else none

abbrev net : Network
net = record { fetch = fetch; parse_json = parse_json; bare_url = λ s. s }

abbrev parse_url : Value → Option Url
parse_url (str s) = some (record {
  href = s;
  protocol = "https:";
  hostname = "connector.example";
  username = "";
  password = "";
  hash = "";
})
parse_url _ = none

abbrev variable_of : String → Value
variable_of name =
    if name == "CONNECTOR_ADAPTER_ENABLED"
    then str "true"
    else if name == "CONNECTOR_TOKEN_URL"
    then str "https://connector.example/token"
    else if name == "CONNECTOR_REGISTRATION_URL"
    then str "https://connector.example/register"
    else if name == "CONNECTOR_PROTECTED_URL"
    then str "https://connector.example/resource"
    else if name == "CONNECTOR_REGISTRAR_CLIENT_ID"
    then str "registrar"
    else if name == "CONNECTOR_REGISTRAR_CLIENT_SECRET"
    then str "secret"
    else if name == "CONNECTOR_SCOPE"
    then str " read  write "
    else undefined

abbrev env : Environment
env = record { variable = variable_of; number = λ s. none }

abbrev adapter : Adapter
adapter = record {
  token_endpoint = "https://connector.example/token";
  register_endpoint = "https://connector.example/register";
  resource_endpoint = "https://connector.example/resource";
  registrar_id = "registrar";
  registrar_secret = "secret";
  scopes = "read" ∷ "write" ∷ [];
  audience = none;
  mode = "live";
  method = "GET";
}

created : create_adapter parse_url (settings env) ≡ some adapter
unfolding create_adapter acceptable_url valid_scopes settings read words trim
created = refl

abbrev idle_session : Session
idle_session = record { calls = []; events = []; registered = none }

abbrev input : Input
input = record { request_id = str "r-1"; correlation_id = str "c-1"; payload = undefined }

abbrev stringify : Value → String
stringify v = "{}"

-- The second token request follows a challenge.
stages_of_run :
    map stage_of (run net stringify adapter input idle_session).1.calls
    ≡ "registration-token" ∷ "registration" ∷ "token" ∷ "token" ∷ "protected-call" ∷ []
unfolding run protocol cached_client register request attempts receive send emit too_large
    asks_nonce challenge next_nonce refusal conclude token_of scopes_granted token_value client_of
    words bootstrap_options registration_options token_options protected_options call_of proof
    is_identifier
stages_of_run = refl

abbrev token_request : Options
token_request = token_options adapter (record { id = "c-1"; secret = "s-1" })

abbrev first_call : Call
first_call = call_of net token_request none

attempts_enough_example :
    attempts net token_request 5 0 none idle_session ≡ request net token_request idle_session
attempts_enough_example = attempts_enough net token_request 3 idle_session

run-IsBound_example :
    Adds (IsBound net adapter undefined) 8 [] (run net stringify adapter input idle_session).1.calls
run-IsBound_example = run-IsBound net adapter stringify input idle_session

run-IsTrace_example :
    (((run net stringify adapter input idle_session).0.0 ≡ none)
      × ((run net stringify adapter input idle_session).1 ≡ idle_session))
    ⊎ ((o : Outcome) × ((run net stringify adapter input idle_session).0 ≡ (some o, none))
        × IsTrace o)
run-IsTrace_example = run-IsTrace net stringify adapter input idle_session

create_adapter-IsSound_example : IsSound parse_url (settings env) adapter
create_adapter-IsSound_example = create_adapter-IsSound parse_url (settings env) adapter created

on_message-IsSecure_example :
    Adds
      (IsSecure parse_url (settings env))
      8
      []
      (on_message net parse_url stringify env "r-1" "c-1" null []).calls
    × (((read env "CONNECTOR_ADAPTER_ENABLED" ≢ "true")
          ⊎ (create_adapter parse_url (settings env) ≡ none))
        → (on_message net parse_url stringify env "r-1" "c-1" null []).calls ≡ [])
on_message-IsSecure_example = on_message-IsSecure net parse_url stringify env "r-1" "c-1" null []
