-- ===== src/Journey/Sample.antt =====
-- A run of a sample scenario (journey-engine.js): its start and one evaluated step. The request that
-- the last step makes in HTTP mode is in `Request`.
use facis_zero_trust_demonst.Base.{
  ℕ, String, true, false, none, some, List, [], ◌∷◌, map, object, bool, modify, if◌then◌else◌, ◌==◌,
}
use facis_zero_trust_demonst.Journey.State.{Run, Check, Measurement}
use facis_zero_trust_demonst.Journey.Fixtures.{Scenario, AdapterConfig, Env}
use facis_zero_trust_demonst.Journey.Record.{add_event, add_evidence}
use facis_zero_trust_demonst.Journey.Sections.{not_evaluated, pending_policy_checks}

abbrev definition : String → String → String → Check
definition id name detail = record {
  id = id;
  name = name;
  detail = detail;
  source = none;
  kind = none;
  reason_code = none;
  rule_id = none;
  expected_state = none;
  status = not_evaluated;
  evaluated_at = none;
  number = none;
}

-- `CHECK_DEFINITIONS`, each with the status and time that `start` gives it.
unfoldable pub check_definitions : List Check
check_definitions =
    definition "request" "Resource request" "Participant requests the protected sample resource."
    ∷ definition "initial-refusal" "Initial refusal"
        "Request is refused until the required credential is present."
    ∷ definition "credential" "Credential issued and presented"
        "OCM W-Stack issues the credential; status and revocation are evaluated."
    ∷ definition "trust-checks" "Trust checks"
        "Trust-zone membership, attestation and the mission-data:read permission are evaluated."
    ∷ definition "measurements" "Measurements"
        "Local sample TEE and runtime values are compared with sample expected values."
    ∷ definition "final-policy" "Final policy decision"
        "The request is retried and the final result is recorded."
    ∷ []

abbrev pub mark : String → ℕ → Check → Check
mark status now check = record check { status = status; evaluated_at = some now }

abbrev pub transport_of : AdapterConfig → String
transport_of config = if config.mode == "http-sample" then "Participant sample HTTPS" else "fixture"

abbrev unmeasured : Measurement → Measurement
unmeasured m = record m { actual = not_evaluated; status = not_evaluated }

-- The object literal of `start`, before its first check passes.
unfoldable pub fresh_sample_run : Env → AdapterConfig → String → Scenario → String → String → Run
fresh_sample_run env config user_id fixture scenario_id service_scenario = record {
  atlas_plan = false;
  adapter_mode = config.mode;
  transport = transport_of config;
  security_source = none;
  service_scenario = service_scenario;
  service_request = none;
  owner_id = some user_id;
  run_id = env.first_uuid;
  correlation_id = none;
  started_at = env.now;
  updated_at = env.now;
  scenario = scenario_id;
  scenario_label = fixture.label;
  summary = fixture.summary;
  profile = none;
  variant = none;
  credential_to_revoke = none;
  source_sequences = [];
  fixture_events = [];
  tone = fixture.tone;
  active_step = 1;
  terminal = false;
  result = none;
  terminal_status = none;
  reason_code = none;
  failed_check = none;
  outcome = "Journey in progress";
  reason = "Flow-owned local sample checks are being evaluated.";
  checks = check_definitions;
  policy_checks = pending_policy_checks fixture;
  credential = record (fixture.credential) { status = not_evaluated };
  measurements = map unmeasured fixture.measurements;
  permission = record (fixture.permission) { detail = not_evaluated; status = not_evaluated };
  trust = record (fixture.trust) {
    confidence = not_evaluated;
    attestation = not_evaluated;
    status = not_evaluated;
    membership_status = not_evaluated;
  };
  attestation = record (fixture.attestation) {
    result = not_evaluated;
    signature_status = not_evaluated;
    measurement_status = not_evaluated;
    timestamp = not_evaluated;
  };
  connection = record (fixture.connection) { status = "Requested" };
  token = none;
  credential_unlock = record {
    initial_refusal = false;
    credential_issued = false;
    credential_presented = false;
    retry_success = false;
  };
  not_executed = [];
  rule_id = none;
  presentation_link = none;
  resource_fixture_result = none;
  fixture_resource = none;
  evidence = [];
  events = [];
}

unfoldable pub new_sample_run : Env → AdapterConfig → String → Scenario → String → String → Run
unfolding add_event add_evidence
new_sample_run env config user_id fixture scenario_id service_scenario =
    let run = fresh_sample_run env config user_id fixture scenario_id service_scenario in
    let passed = record run { checks = modify run.checks 0 (mark "Pass" env.now) } in
    add_evidence env.now "resource.requested" "Participant requested the protected sample resource."
      (object (("sent", bool true) ∷ ("blocked", bool false) ∷ []))
      (add_event env.now "step.completed" "Resource request formed and sent to policy enforcement."
        (add_event env.now "run.started" "Sample Journey run started." passed))

abbrev pub set_connection : String → Run → Run
set_connection status run = record run { connection = record (run.connection) { status = status } }
