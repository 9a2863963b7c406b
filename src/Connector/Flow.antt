-- ===== src/Connector/Flow.antt =====
-- flows/demonstrator/connector-flow-run.js: the node that runs the adapter with the settings of the
-- environment. The identifiers of a request are random, and a new adapter is created for each message.
use facis_zero_trust_demonst.Base.{
  String, false, Option, none, some, List, [], if◌then◌else◌, ◌==◌, not, Value, undefined, null,
  str, num, is_empty,
}
use facis_zero_trust_demonst.Participant.Config.{Environment, read}
use facis_zero_trust_demonst.Connector.Protocol.{Network, Call, Event, Session}
use facis_zero_trust_demonst.Connector.Config.{Url, Settings, create_adapter}
use facis_zero_trust_demonst.Connector.Run.{Outcome, run}

abbrev pub text_or : String → Value → Value
text_or text fallback = if is_empty text then fallback else str text

-- `Number(read(...) || 7000)`
abbrev pub timeout : Environment → Value
timeout env =
    let text = read env "CONNECTOR_TIMEOUT_MS" in
    if is_empty text then num 7000 else elim (env.number text) [ none ↦ null | some ms ↦ num ms ]

abbrev pub method : Environment → String
method env = let text = read env "CONNECTOR_METHOD" in if is_empty text then "GET" else text

unfoldable pub settings : Environment → Settings
settings env = record {
  token_url = str (read env "CONNECTOR_TOKEN_URL");
  registration_url = str (read env "CONNECTOR_REGISTRATION_URL");
  protected_url = str (read env "CONNECTOR_PROTECTED_URL");
  registrar_client_id = str (read env "CONNECTOR_REGISTRAR_CLIENT_ID");
  registrar_client_secret = str (read env "CONNECTOR_REGISTRAR_CLIENT_SECRET");
  scope = str (read env "CONNECTOR_SCOPE");
  audience = text_or (read env "CONNECTOR_AUDIENCE") undefined;
  mode = str "live";
  method = str (method env);
  timeout_ms = timeout env;
}

-- The two outputs of the node, and the calls that it has sent.
pub record Sent : Type 0 where
  pub result : Outcome
  pub events : Option (List Event)
  pub calls : List Call

abbrev pub configuration_failure : String → Outcome
configuration_failure code = record {
  ok = false;
  status = none;
  content = none;
  reason_code = some code;
  failed_stage = some "configuration";
  events = [];
}

-- A message without events, where nothing has run.
abbrev pub stopped : String → List Call → Sent
stopped code calls = record { result = configuration_failure code; events = none; calls = calls }

abbrev pub delivered : (Option Outcome × Option String) × Session → Sent
delivered ((some outcome, _), s) = record {
  result = outcome;
  events = some outcome.events;
  calls = s.calls;
}
delivered ((none, some code), s) = stopped code s.calls
delivered ((none, none), s) = stopped "CONNECTOR_UNAVAILABLE" s.calls

module _ (net : Network) (parse_url : Value → Option Url) (stringify : Value → String) where
  unfoldable pub on_message : Environment → String → String → Value → List Call → Sent
  on_message env request_id correlation_id payload calls =
      if not (read env "CONNECTOR_ADAPTER_ENABLED" == "true")
      then stopped "CONNECTOR_NOT_ENABLED" calls
      else elim (create_adapter parse_url (settings env)) [
        | none ↦ stopped "CONNECTOR_CONFIG_INVALID" calls
        | some adapter ↦ delivered (
            run net stringify adapter
              (record {
                request_id = str request_id;
                correlation_id = str correlation_id;
                payload = if method env == "POST" then payload else undefined;
              })
              (record { calls = calls; events = []; registered = none }))
      ]
