-- ===== src/Journey/AtlasRun.antt =====
-- The state of a new Atlas run, and the end of one (journey-engine.js, `newAtlasState`,
-- `finishAtlas`).
use facis_zero_trust_demonst.Base.{
  ℕ, ◌-◌, String, Bool, true, false, Option, none, some, List, [], ◌∷◌, object, bool, str, num,
  modify, if◌then◌else◌, ◌==◌, suc, get_elem?, length, find, Value, Fields, end, field, is_none,
  not,
}
use Prim.Native.String
use facis_zero_trust_demonst.Resource.{
  Decision, Outcome, success, denied, unavailable, error, Report, evaluate_fixture_resource,
}
use facis_zero_trust_demonst.Journey.State.{Run, Check, PolicyCheck, whole}
use facis_zero_trust_demonst.Journey.Fixtures.{AtlasStep, AtlasSpec, AdapterConfig, Env}
use facis_zero_trust_demonst.Journey.Record.{add_event, add_evidence, text_or_null}
use facis_zero_trust_demonst.Journey.Sections.{not_evaluated}
use facis_zero_trust_demonst.Journey.Atlas.{
  or_nothing, is, mode_resource_step, presentation_required,
}

abbrev pub pending_check : AdapterConfig → String → ℕ → AtlasStep → Check
pending_check config id i original =
    let s = mode_resource_step config id original in
    record {
      id = s.id;
      name = s.name;
      detail = not_evaluated;
      source = some s.source;
      kind = some s.kind;
      reason_code = or_nothing s.reason_code;
      rule_id = or_nothing s.rule_id;
      expected_state = some s.state;
      status = not_evaluated;
      evaluated_at = none;
      number = some (suc i);
    }

-- `spec.steps.map((original, i) => …)`
unfoldable pub pending_checks : AdapterConfig → String → ℕ → List AtlasStep → List Check
pending_checks config id i [] = []
pending_checks config id i (s ∷ ss) =
    pending_check config id i s ∷ pending_checks config id (suc i) ss

abbrev pending_policy : String → PolicyCheck
pending_policy label = record {
  label = label;
  detail = not_evaluated;
  status = not_evaluated;
  step = none;
}

unfoldable pub new_atlas_run :
    Env → AdapterConfig → String → AtlasSpec → Option String → String → Run
new_atlas_run env config user_id spec variant service_scenario = record {
  atlas_plan = true;
  adapter_mode = if is_none (or_nothing spec.resource_fixture_case) then config.mode else "fixture";
  transport = "fixture";
  security_source = some "fixture-only";
  service_scenario = service_scenario;
  service_request = none;
  owner_id = some user_id;
  run_id = env.first_uuid;
  correlation_id = some env.second_uuid;
  started_at = env.now;
  updated_at = env.now;
  scenario = spec.id;
  scenario_label = spec.label;
  summary = spec.summary;
  profile = some spec.profile;
  variant = variant;
  credential_to_revoke = if spec.id == "atlas-revoked-credential" then spec.credential.id else none;
  source_sequences = [];
  fixture_events = [];
  tone = "neutral";
  active_step = 0;
  terminal = false;
  result = none;
  terminal_status = none;
  reason_code = none;
  failed_check = none;
  outcome = "Fixture journey in progress";
  reason = "Only synthetic fixture results are evaluated.";
  checks = pending_checks config spec.id 0 spec.steps;
  policy_checks =
      pending_policy "Credential verification"
      ∷ pending_policy "Attested channel"
      ∷ pending_policy "Guard decision"
      ∷ [];
  credential = record (spec.credential) {
    status = if is variant presentation_required then "Not presented (fixture)" else not_evaluated;
  };
  measurements = [];
  permission = record { name = "read"; detail = not_evaluated; status = not_evaluated };
  trust = record {
    zone = "Zone A → Zone B";
    confidence = not_evaluated;
    attestation = not_evaluated;
    status = not_evaluated;
    membership_status = not_evaluated;
  };
  attestation = record {
    method = "Fixture channel state";
    result = not_evaluated;
    signature_status = not_evaluated;
    measurement_status = not_evaluated;
    timestamp = not_evaluated;
  };
  connection = record {
    protocol = "Fixture channel";
    encryption = "Not observed";
    endpoint = "zone-b.example/resource (fixture)";
    status = "Not opened";
  };
  token = some (record { state = "Not issued"; scope = none; key_bound = false });
  credential_unlock = record {
    initial_refusal = false;
    credential_issued = false;
    credential_presented = false;
    retry_success = false;
  };
  not_executed =
      if spec.id == "atlas-revoked-credential"
      then "Channel not opened" ∷ "Guard not called" ∷ "Resource not called" ∷ []
      else [];
  rule_id = none;
  presentation_link = none;
  resource_fixture_result = none;
  fixture_resource = none;
  evidence = [];
  events = [];
}

-- The three texts of an outcome: `a` on success, `b` when unavailable, `c` otherwise.
abbrev pub by_outcome : Outcome → String → String → String → String
by_outcome success a b c = a
by_outcome unavailable a b c = b
by_outcome denied a b c = c
by_outcome error a b c = c

abbrev pub is_success : Outcome → Bool
is_success success = true
is_success _ = false

abbrev fixture_input : String → Run → Fields
fixture_input case_id run = field "caseId" (str case_id) (
    field "requestId" (str (String.◌++◌ "resource-" run.run_id))
      (field "correlationId" (text_or_null run.correlation_id) end))

abbrev credential_text : String → String
credential_text case_id =
    if case_id == "revoked"
    then "Revoked (fixture)"
    else if case_id == "invalid"
    then "Invalid (fixture)"
    else if case_id == "expired"
    then "Expired (fixture)"
    else if case_id == "missing-context"
    then "Missing (fixture)"
    else "Synthetic case only"

abbrev decision_facts : Decision → Value
decision_facts d = object (
    ("reasonCode", str d.reason_code)
    ∷ ("status", num d.status)
    ∷ ("explanation", str d.explanation)
    ∷ ("fixture", bool true)
    ∷ ("blocked", bool (not (is_success d.outcome)))
    ∷ [])

abbrev end_check : Decision → Check → Check
end_check d check = record check {
  status = by_outcome d.outcome "Pass" "Unavailable" "Fail";
  reason_code = some d.reason_code;
}

abbrev pub last_index : Run → ℕ
last_index run = length run.checks - 1

-- The branch of `finishAtlas` for a Protected Resource case, with its decision.
unfoldable pub finish_resource : ℕ → String → Decision → Run → Run
unfolding add_event add_evidence
finish_resource now case_id d run =
    let status = by_outcome d.outcome "Pass" "Unavailable" "Fail" in
    let checks = modify run.checks (last_index run) (end_check d) in
    let ended = record run {
      resource_fixture_result = some d;
      adapter_mode = "fixture";
      transport = "fixture";
      security_source = some "fixture-only";
      terminal = true;
      result = some (by_outcome d.outcome "success" "unavailable" "failure");
      terminal_status = some (by_outcome d.outcome "Granted" "Unavailable" "Refused");
      outcome =
          by_outcome d.outcome "Fixture resource returned" "Fixture security dependency unavailable"
            "Fixture resource refused";
      reason_code = some d.reason_code;
      reason = d.explanation;
      tone = by_outcome d.outcome "success" "warning" "danger";
      credential = record (run.credential) { status = credential_text case_id };
      connection = record (run.connection) { status = "Local fixture only" };
      permission = record {
        name = "Synthetic service rights";
        status = status;
        detail = d.explanation;
      };
      policy_checks =
          record {
            label = "Protected Resource fixture";
            status = status;
            detail = d.explanation;
            step = none;
          }
          ∷ [];
      checks = checks;
      failed_check =
          if is_success d.outcome
          then none
          else elim (get_elem? checks (last_index run)) [ none ↦ none | some c ↦ some (whole c) ];
      fixture_resource = if is_success d.outcome then d.safe_data else none;
    } in
    add_event now "run.completed" ended.outcome
      (add_evidence now "fixture.resource.decision" d.explanation (decision_facts d) ended)

abbrev first_rule : List AtlasStep → Option String
first_rule [] = none
first_rule (s ∷ ss) =
    let rest = first_rule ss in elim (or_nothing s.rule_id) [ none ↦ rest | some r ↦ some r ]

abbrev pub fixture_report : Report
fixture_report = record {
  resource = "sample-report";
  action = "read";
  id = "FACIS-P1-FIXTURE-REPORT";
  title = "FACIS fixture report";
  content = "Synthetic resource payload for the Successful call review journey.";
}

-- The other branch of `finishAtlas`. (Where no check has failed, `clone` of a missing check throws in the
-- source; here there is then no failed check.)
unfoldable pub finish_spec : ℕ → AtlasSpec → Run → Run
unfolding add_event
finish_spec now spec run =
    let granted = spec.result == "success" in
    let outcome = if granted then "Fixture resource returned" else "Fixture request refused" in
    add_event now "run.completed" outcome (record run {
      terminal = true;
      result = some spec.result;
      terminal_status = some (if granted then "Granted" else "Refused");
      tone = if granted then "success" else "danger";
      outcome = outcome;
      reason_code = or_nothing spec.reason_code;
      reason = spec.reason;
      failed_check =
          if granted then none else elim (find (λ (c : Check). c.status == "Fail") run.checks) [
            | none ↦ none
            | some c ↦ some (whole c)
          ];
      rule_id = first_rule spec.steps;
      presentation_link = or_nothing spec.presentation_link;
      fixture_resource = if granted then some fixture_report else run.fixture_resource;
    })

unfoldable pub finish_atlas : ℕ → AtlasSpec → Run → Run
finish_atlas now spec run = elim (or_nothing spec.resource_fixture_case) [
  | none ↦ finish_spec now spec run
  | some case_id ↦
      finish_resource now case_id (evaluate_fixture_resource now (fixture_input case_id run)) run
]
