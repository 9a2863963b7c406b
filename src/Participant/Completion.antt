-- ===== src/Participant/Completion.antt =====
-- flows/demonstrator/journey-http-complete.js: the run that awaits a service result is ended with it.
-- Dates are kept as numbers in the run.
use facis_zero_trust_demonst.Base.{
  ◌>>=◌, ◌>>◌, ℕ, String, Bool, true, false, ◌&&◌, not, Option, none, some, [], ◌∷◌, ◌-◌,
  if◌then◌else◌, ◌==◌, Value, str, num, bool, object, or_null, modify, length, ltb, lookup, obj,
  end,
}
use facis_zero_trust_demonst.Resource.{Outcome, Report, success, denied, unavailable, error}
use facis_zero_trust_demonst.Journey.State.{Run, Check, Flow, ServiceRequest, brief}
use facis_zero_trust_demonst.Journey.Fixtures.{Viewer}
use facis_zero_trust_demonst.Journey.Record.{add_event, add_evidence, text_or_null}
use facis_zero_trust_demonst.Journey.Request.{Pending}
use facis_zero_trust_demonst.Journey.Handler.{store}
use facis_zero_trust_demonst.Journey.Engine.{user_of}
use facis_zero_trust_demonst.Participant.Results.{Dates, ServiceResult, read_result}
use facis_zero_trust_demonst.Participant.Response.{outcome_text}

pub record Arrival : Type 0 where
  pub viewer : Option Viewer
  pub pending : Option Pending
  pub result : Value
  pub now : ℕ

-- The run that awaits the pending request: it is the viewer's and this very request.
unfoldable pub awaiting : String → Pending → Run → Option ServiceRequest
awaiting user pending run = do
  owner ← run.owner_id
  request ← run.service_request
  owner == user
      && run.run_id == pending.run_id
      && run.adapter_mode == "http-sample"
      && request.status == "pending"
      && request.request_id == pending.request_id
  some request

abbrev pub invalid_result : ℕ → ServiceResult
invalid_result now = record {
  outcome = error;
  reason_code = "SAMPLE_INVALID_RESPONSE";
  explanation = "The Participant sample service result was missing or invalid.";
  timestamp = now;
  safe_data = none;
  transport_status = none;
}

abbrev pub late_result : ℕ → ServiceResult
late_result now = record {
  outcome = unavailable;
  reason_code = "SAMPLE_FLOW_DEADLINE_EXCEEDED";
  explanation =
      "The Participant sample HTTPS response did not arrive before the Journey flow deadline.";
  timestamp = now;
  safe_data = none;
  transport_status = none;
}

unfoldable pub service_result : Dates → Pending → Value → ℕ → ServiceResult
service_result dates pending value now =
    if ltb pending.deadline_at now
    then late_result now
    else elim (read_result dates value) [ none ↦ invalid_result now | some result ↦ result ]

abbrev pub is_success : Outcome → Bool
is_success success = true
is_success _ = false

abbrev pub is_unavailable : Outcome → Bool
is_unavailable unavailable = true
is_unavailable _ = false

abbrev pub status_by_outcome : Outcome → String
status_by_outcome success = "Pass"
status_by_outcome denied = "Fail"
status_by_outcome unavailable = "Unavailable"
status_by_outcome error = "Error"

abbrev pub terminal_by_outcome : Outcome → String
terminal_by_outcome success = "Delivered"
terminal_by_outcome denied = "Refused"
terminal_by_outcome unavailable = "Unavailable"
terminal_by_outcome error = "Error"

abbrev pub shown_outcome : Outcome → String
shown_outcome success = "Sample resource delivered"
shown_outcome denied = "Explicit simulated refusal"
shown_outcome unavailable = "Sample service unavailable"
shown_outcome error = "Invalid sample service response"

abbrev pub answered_check : ServiceResult → ℕ → Check → Check
answered_check r now check = record check {
  status = status_by_outcome r.outcome;
  evaluated_at = some now;
  detail = r.explanation;
  source = some "participant-sample";
  kind = some "application_response";
}

abbrev pub answered_request : ServiceResult → ℕ → ServiceRequest → ServiceRequest
answered_request r now request = record request {
  status = "completed";
  responded_at = some now;
  provider_timestamp = some r.timestamp;
  http_status = r.transport_status;
  outcome = some r.outcome;
  reason_code = some r.reason_code;
  explanation = some r.explanation;
  safe_data = r.safe_data;
}

abbrev report_value : Option Report → Value
report_value none = obj end
report_value (some r) = object (
    ("resource", str r.resource)
    ∷ ("action", str r.action)
    ∷ (
      "report",
      object (("id", str r.id) ∷ ("title", str r.title) ∷ ("content", str r.content) ∷ []),
    )
    ∷ [])

abbrev pub answer_evidence : ServiceResult → Pending → ServiceRequest → ℕ → Value
answer_evidence r pending request now = object (
    ("sent", bool true)
    ∷ ("blocked", bool (not (is_success r.outcome)))
    ∷ ("unavailable", bool (is_unavailable r.outcome))
    ∷ ("requestId", str pending.request_id)
    ∷ ("correlationId", text_or_null pending.correlation_id)
    ∷ ("requestedAt", num pending.requested_at)
    ∷ ("respondedAt", num now)
    ∷ ("providerTimestamp", num r.timestamp)
    ∷ ("httpStatus", or_null num r.transport_status)
    ∷ ("transport", str "Participant sample HTTPS")
    ∷ ("source", str "sample")
    ∷ ("mode", str "sample")
    ∷ ("securitySource", str "fixture-only")
    ∷ ("tlsVerification", str request.tls_verification)
    ∷ ("outcome", str (outcome_text r.outcome))
    ∷ ("reasonCode", str r.reason_code)
    ∷ ("safeData", report_value r.safe_data)
    ∷ [])

-- The assignments to `current`.
unfoldable pub answered_run : ServiceResult → Pending → ServiceRequest → ℕ → Run → Run
answered_run r pending request now run =
    let delivered = is_success r.outcome in
    let ended = record run {
      checks = modify run.checks (length run.checks - 1) (answered_check r now);
      result = some (outcome_text r.outcome);
      terminal = true;
      terminal_status = some (terminal_by_outcome r.outcome);
      reason_code = some r.reason_code;
      outcome = shown_outcome r.outcome;
      reason = r.explanation;
      connection = record (run.connection) {
        status =
            if delivered
            then "Participant sample HTTPS delivered"
            else terminal_by_outcome r.outcome;
      };
      failed_check =
          if delivered
          then none
          else some (
              brief "final-service-request" "Final Participant sample HTTPS request"
                (status_by_outcome r.outcome));
      service_request = some (answered_request r now request);
      credential_unlock = record (run.credential_unlock) {
        retry_success = if delivered then true else run.credential_unlock.retry_success;
      };
    } in
    add_event now "run.completed" (shown_outcome r.outcome) (
      add_evidence now "service.response.validated" r.explanation
        (answer_evidence r pending request now) ended)

-- The run in the flow context that awaits the request of a message.
unfoldable pub awaited : Arrival → Flow → Option (String × Pending × Run × ServiceRequest)
awaited arrival flow = do
  user ← user_of arrival.viewer
  pending ← arrival.pending
  pending.owner_id == user
  run ← lookup user flow.journey_states
  request ← awaiting user pending run
  some (user, pending, run, request)

unfoldable pub complete : Dates → Arrival → Flow → Flow
complete dates arrival flow = elim (awaited arrival flow) [
  | none ↦ flow
  | some (user, pending, run, request) ↦
      store user
        (answered_run (service_result dates pending arrival.result arrival.now) pending request
          arrival.now run)
        flow
]
