-- ===== src/Participant/Tests.antt =====
-- The Participant's request on concrete data (journey-adapter-config.js, journey-validate-response.js
-- and journey-http-complete.js).
use facis_zero_trust_demonst.Base.{
  ◌⊎◌, ℕ, String, true, ◌≡◌, ◌≢◌, ◌↔◌, refl, Option, none, some, [], ◌∷◌, Value, undefined, str,
  lookup, insert, trim, if◌then◌else◌, ◌==◌, null, object,
}
use facis_zero_trust_demonst.Resource.{Report}
use facis_zero_trust_demonst.Journey.State.{Run, Flow, ServiceRequest}
use facis_zero_trust_demonst.Journey.Fixtures.{AdapterConfig}
use facis_zero_trust_demonst.Journey.Samples.{config, granted, env}
use facis_zero_trust_demonst.Journey.Record.{add_event, add_evidence}
use facis_zero_trust_demonst.Journey.Sample.{check_definitions, fresh_sample_run, new_sample_run}
use facis_zero_trust_demonst.Journey.Sections.{pending_policy_checks}
use facis_zero_trust_demonst.Journey.Request.{Pending, pend_run}
use facis_zero_trust_demonst.Journey.Handler.{store}
use facis_zero_trust_demonst.Journey.Engine.{operator}
use facis_zero_trust_demonst.Journey.Invariant.{
  IsSound, IsOpen, new_sample_run-IsSound, pend_run-IsSound,
}
use facis_zero_trust_demonst.Journey.Soundness.{FlowIsSound}
use facis_zero_trust_demonst.Participant.Config.{
  Environment, adapter_config, config_error, mode, read, duration, IsUsable, expected_url,
  adapter_config-IsUsable_iff,
}
use facis_zero_trust_demonst.Participant.Results.{Dates, read_result, safe_data_in, report_in}
use facis_zero_trust_demonst.Participant.Response.{
  answer, invalid, checked, checked_data, check_body, report_of, valid_identity, validate_response,
  connection_failure,
}
use facis_zero_trust_demonst.Participant.Completion.{
  Arrival, awaiting, awaited, complete, service_result, answered_run,
}
use facis_zero_trust_demonst.Participant.Completed.{complete-FlowIsSound, complete_once}
use facis_zero_trust_demonst.Participant.Delivered.{complete-IsDelivery, IsTimely}

nodes : Unit {0}
unfolding add_event add_evidence check_definitions fresh_sample_run new_sample_run
    pending_policy_checks pend_run store adapter_config config_error mode read duration read_result
    safe_data_in report_in answer invalid checked checked_data check_body report_of valid_identity
    validate_response connection_failure awaiting awaited complete service_result answered_run
    lookup insert trim
nodes = tt

abbrev variable_of : String → Value
variable_of name =
    if name == "JOURNEY_ADAPTER_MODE"
    then str "http-sample"
    else if name == "JOURNEY_PARTICIPANT_URL"
    then str expected_url
    else if name == "JOURNEY_PARTICIPANT_TLS_SKIP_VERIFY"
    then str "true"
    else undefined

abbrev environment : Environment
environment = record { variable = variable_of; number = λ s. none }

adapter_config-IsUsable_iff_example :
    ((adapter_config environment).error ≡ none) ↔ IsUsable (adapter_config environment)
adapter_config-IsUsable_iff_example = adapter_config-IsUsable_iff environment

-- A run of `ann` whose last request is under way.
abbrev http : AdapterConfig
http = record config { mode = "http-sample"; participant_url = expected_url }

abbrev fresh : Run
fresh = new_sample_run env http "ann" granted "successful-access" "success"

abbrev waiting : Run
waiting = pend_run env http 5 (some "run-1") fresh

abbrev flow : Flow
flow = record { journey_states = ("ann", waiting) ∷ []; journey_command_history = [] }

abbrev pending : Pending
pending = record {
  owner_id = "ann";
  run_id = "run-1";
  request_id = "run-1";
  correlation_id = some "run-1";
  command_id = "c7";
  requested_at = 5;
  deadline_at = 10005;
}

abbrev request : ServiceRequest
request = record {
  status = "pending";
  request_id = "run-1";
  correlation_id = some "run-1";
  requested_at = 5;
  responded_at = none;
  scenario = "success";
  deadline_at = 10005;
  tls_verification = "enabled";
  expired_at = none;
  provider_timestamp = none;
  http_status = none;
  outcome = none;
  reason_code = none;
  explanation = none;
  safe_data = none;
}

abbrev dates : Dates
dates = record { parse = λ s. some 7; iso = λ n. "2026-10-01T00:00:00.000Z" }

abbrev arrival : ℕ → Value → Arrival
arrival now result = record {
  viewer = some (record { user_id = some "ann"; role = operator; scope = "oidc-review" });
  pending = some pending;
  result = result;
  now = now;
}

abbrev delivery : Value
delivery = object (
    ("outcome", str "success")
    ∷ ("reasonCode", str "SAMPLE_RESOURCE_RETURNED")
    ∷ ("explanation", str "Returned.")
    ∷ ("timestamp", str "2026-10-01T00:00:00.000Z")
    ∷ (
      "safeData",
      object (
          ("resource", str "sample-report")
          ∷ ("action", str "read")
          ∷ ("report", object (("id", str "r") ∷ ("title", str "t") ∷ ("content", str "c") ∷ []))
          ∷ []),
    )
    ∷ [])

is_awaited : awaited (arrival 9 delivery) flow ≡ some ("ann", pending, waiting, request)
unfolding nodes
is_awaited = refl

is_some : awaited (arrival 9 delivery) flow ≢ none
unfolding nodes
is_some e = cc

abbrev end_of : Flow → Option String
end_of f = elim (lookup "ann" f.journey_states) [ none ↦ none | some run ↦ run.terminal_status ]

ends :
    (end_of (complete dates (arrival 9 delivery) flow) ≡ some "Delivered")
    × (end_of (complete dates (arrival 20000 delivery) flow) ≡ some "Unavailable")
    × (end_of (complete dates (arrival 9 null) flow) ≡ some "Error")
unfolding nodes
ends = (refl, refl, refl)

complete_once_example :
    complete dates (arrival 30 null) (complete dates (arrival 9 delivery) flow)
    ≡ complete dates (arrival 9 delivery) flow
complete_once_example = complete_once dates (arrival 9 delivery) (arrival 30 null) flow is_some refl

complete-IsDelivery_example :
    (next : Run) × (kept : ServiceRequest) × (lookup "ann"
        (complete dates (arrival 9 delivery) flow).journey_states
      ≡ some next)
    × (next.terminal ≡ true)
    × (next.service_request ≡ some kept)
    × (((report : Report) × IsTimely dates pending delivery 9 report
          × (next.terminal_status ≡ some "Delivered")
          × (kept.safe_data ≡ some report))
        ⊎ ((¬ ((report : Report) × IsTimely dates pending delivery 9 report))
            × (next.terminal_status ≢ some "Delivered")
            × (kept.safe_data ≡ none)))
complete-IsDelivery_example =
    complete-IsDelivery dates (arrival 9 delivery) flow "ann" pending waiting request is_awaited

fresh-IsSound : IsSound "ann" fresh
fresh-IsSound = new_sample_run-IsSound env http "ann" granted "successful-access" "success"

fresh-IsOpen : IsOpen fresh
unfolding nodes
fresh-IsOpen = record { unfinished = refl; idle = refl }

sound : FlowIsSound flow
sound = (pend_run-IsSound "ann" fresh fresh-IsSound env http 5 (some "run-1") fresh-IsOpen, tt)

complete-FlowIsSound_example : FlowIsSound (complete dates (arrival 9 delivery) flow)
complete-FlowIsSound_example = complete-FlowIsSound dates (arrival 9 delivery) flow sound
