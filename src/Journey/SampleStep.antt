-- ===== src/Journey/SampleStep.antt =====
-- The command `next` on a sample run (journey-engine.js): what step 2, 3, 4 or 5 reveals, the end of
-- a run at a failed step, and the granted end in fixture mode.
use facis_zero_trust_demonst.Base.{
  ℕ, Bool, true, false, ◌&&◌, Option, none, some, List, [], ◌∷◌, nat_eq, Value, object, bool, str,
  find, if◌then◌else◌, ◌==◌, ◌++◌,
}
use Prim.Native.String
use facis_zero_trust_demonst.Journey.State.{Run, Check, FailedCheck, brief}
use facis_zero_trust_demonst.Journey.Fixtures.{Scenario}
use facis_zero_trust_demonst.Journey.Record.{
  add_event, add_evidence, trust_value, attestation_value, permission_value, measurements_value,
  failed_value, text_or_null,
}
use facis_zero_trust_demonst.Journey.Sections.{
  skipped, at_step, reveal_policy_checks, skip_later_sections,
}
use facis_zero_trust_demonst.Journey.Sample.{set_connection}
use facis_zero_trust_demonst.Journey.Slug.{slug}

module _ (now : ℕ) (fixture : Scenario) (failed : Bool) where
  -- `if (step === 2) { … }`
  unfoldable pub initial_refusal_step : Run → Run
  unfolding add_evidence
  initial_refusal_step run =
      let closed = set_connection (if failed then "Unavailable" else "Refused") run in
      if failed
      then add_evidence now "connection.unavailable" fixture.reason
          (object (("sent", bool true) ∷ ("blocked", bool true) ∷ ("unavailable", bool true) ∷ []))
          closed
      else add_evidence now "access.initially-refused"
          "Initial request refused because the required credential is missing."
          (object
            (("sent", bool true) ∷ ("blocked", bool true) ∷ ("initialRefusal", bool true) ∷ []))
          (record closed {
            credential_unlock = record (closed.credential_unlock) { initial_refusal = true };
          })

  -- `if (step === 3) { … }`
  unfoldable pub credential_step : Run → Run
  unfolding add_evidence reveal_policy_checks
  credential_step run =
      let shown = reveal_policy_checks fixture 3 (record run { credential = fixture.credential }) in
      let unlocked = record shown {
        credential_unlock = record (shown.credential_unlock) {
          credential_issued = true;
          credential_presented = true;
        };
      } in
      add_evidence now "credential.presented"
        "The sample credential was presented with the retried request."
        (object (("sample", bool true) ∷ ("credentialStatus", str fixture.credential.status) ∷ []))
        (add_evidence now "credential.issued"
          "OCM W-Stack issued the sample participant credential."
          (object (("sample", bool true) ∷ []))
          (set_connection (if failed then "Blocked" else "Verifying") unlocked))

  -- `if (step === 4) { … }`
  unfoldable pub trust_step : Run → Run
  unfolding add_evidence reveal_policy_checks
  trust_step run =
      let shown = reveal_policy_checks fixture 4 (record run {
        trust = fixture.trust;
        attestation = fixture.attestation;
        permission = fixture.permission;
      }) in
      let evaluated =
        add_evidence now "trust.evaluated"
          "Sample trust-zone, attestation and permission checks were evaluated."
          (object (
            ("trust", trust_value fixture.trust)
            ∷ ("attestation", attestation_value fixture.attestation)
            ∷ ("permission", permission_value fixture.permission)
            ∷ []))
          shown in
      if failed then evaluated else set_connection "Verifying" evaluated

  -- `if (step === 5) { … }`
  unfoldable pub measurements_step : Run → Run
  unfolding add_evidence reveal_policy_checks
  measurements_step run =
      let measured = record run {
        measurements = fixture.measurements;
        attestation = record (run.attestation) {
          measurement_status = if failed then "Fail" else "Pass";
          result = if failed then "Measurement failed" else "Verified";
        };
      } in
      let shown = reveal_policy_checks fixture 5 measured in
      let evaluated =
        add_evidence now "measurements.evaluated"
          "Local sample TEE and runtime values were compared with sample expected values."
          (object (
            ("measurements", measurements_value fixture.measurements)
            ∷ ("signatureStatus", str shown.attestation.signature_status)
            ∷ ("measurementStatus", str shown.attestation.measurement_status)
            ∷ []))
          shown in
      if failed then evaluated else set_connection "Verifying" evaluated

  unfoldable pub apply_step : ℕ → Run → Run
  apply_step step run =
      if nat_eq step 2
      then initial_refusal_step run
      else if nat_eq step 3
      then credential_step run
      else if nat_eq step 4
      then trust_step run
      else if nat_eq step 5
      then measurements_step run
      else run

-- The loop `for (index = step; …)` that skips the checks after the failed one.
unfoldable pub skip_from : ℕ → Option ℕ → List Check → List Check
skip_from step at [] = []
skip_from ℕ.zero at (c ∷ cs) = record c { status = skipped; evaluated_at = at } ∷ skip_from 0 at cs
skip_from (ℕ.suc n) at (c ∷ cs) = c ∷ skip_from n at cs

-- `failedCheck`: the first policy check of the step with the failing status, else the check itself.
abbrev pub failed_check_of : Scenario → ℕ → Check → FailedCheck
failed_check_of fixture step check =
    elim (find (λ item. at_step step item && item.status == fixture.fail_status)
      fixture.policy_checks) [
        | none ↦ brief check.id check.name check.status
        | some item ↦ brief (slug item.label) item.label item.status
      ]

abbrev failure_facts : Scenario → Run → Value
failure_facts fixture run = object (
    ("sent", bool false)
    ∷ ("blocked", bool true)
    ∷ ("failedCheck", failed_value run.failed_check)
    ∷ ("reasonCode", text_or_null run.reason_code)
    ∷ ("terminalStatus", text_or_null run.terminal_status)
    ∷ ((if fixture.id == "measurement-mismatch"
          then ("measurements", measurements_value fixture.measurements) ∷ []
          else [])
        ++ (if fixture.id == "service-unavailable" then ("unavailable", bool true) ∷ [] else [])))

-- `if (failed) { … }`, where `check` is the check of this step as it was marked.
unfoldable pub fail_run : ℕ → Scenario → ℕ → Check → Run → Run
unfolding skip_later_sections add_event add_evidence
fail_run now fixture step check run =
    let skipping =
      skip_later_sections step
        (record run { checks = skip_from step check.evaluated_at run.checks }) in
    let ended = record skipping {
      result = some fixture.result;
      terminal = true;
      terminal_status = some fixture.terminal_status;
      reason_code = some fixture.reason_code;
      failed_check = some (failed_check_of fixture step check);
      outcome = fixture.outcome;
      reason = fixture.reason;
      connection = record (skipping.connection) {
        status = if fixture.id == "service-unavailable" then "Unavailable" else "Blocked";
      };
    } in
    add_evidence now
      (if fixture.id == "service-unavailable" then "decision.unavailable" else "access.refused")
      fixture.reason (failure_facts fixture ended)
      (add_event now "run.completed" fixture.outcome (
        add_event now "check.failed" (String.◌++◌ check.name (String.◌++◌ ": " fixture.reason))
          ended))

-- The end of a run whose last check passed, in fixture mode.
unfoldable pub grant_run : ℕ → Scenario → Run → Run
unfolding add_event add_evidence
grant_run now fixture run =
    let ended = record run {
      result = some fixture.result;
      terminal = true;
      terminal_status = some fixture.terminal_status;
      reason_code = some fixture.reason_code;
      failed_check = none;
      outcome = fixture.outcome;
      reason = fixture.reason;
      connection = record (run.connection) { status = "Fixture result" };
      credential_unlock = record (run.credential_unlock) { retry_success = true };
    } in
    add_event now "run.completed" fixture.outcome (
      add_evidence now "access.granted" fixture.reason
        (object (
          ("sent", bool true)
          ∷ ("blocked", bool false)
          ∷ ("initialRefusalPreserved", bool ended.credential_unlock.initial_refusal)
          ∷ ("reasonCode", text_or_null ended.reason_code)
          ∷ ("terminalStatus", text_or_null ended.terminal_status)
          ∷ ("transport", str "fixture")
          ∷ []))
        (add_evidence now "request.retried"
          "The fixture request was retried after credential presentation."
          (object
            (("sent", bool true) ∷ ("blocked", bool false) ∷ ("transport", str "fixture") ∷ []))
          ended))
