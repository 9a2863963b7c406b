-- ===== src/Journey/Request.antt =====
-- The HTTP request of the last step, and the expiry of its deadline (journey-engine.js). The source
-- writes the request twice, once for each kind of run; the index of the last check and the
-- correlation identifier are what differs.
use facis_zero_trust_demonst.Base.{
  ℕ, ◌+◌, ◌-◌, String, Bool, true, false, not, Option, none, some, [], ◌∷◌, object, bool, str, num,
  modify, if◌then◌else◌, ◌==◌, length, ltb,
}
use Prim.Native.Char.{code}
use Prim.Native.String
use facis_zero_trust_demonst.Base.{nat_eq}
use facis_zero_trust_demonst.Resource.{unavailable}
use facis_zero_trust_demonst.Journey.State.{Run, Check, ServiceRequest, brief}
use facis_zero_trust_demonst.Journey.Fixtures.{AdapterConfig, Env}
use facis_zero_trust_demonst.Journey.Record.{add_event, add_evidence, text_or_null}
use facis_zero_trust_demonst.Journey.Sample.{mark}

-- `msg.journeyPending`
pub record Pending : Type 0 where
  pub owner_id : String
  pub run_id : String
  pub request_id : String
  pub correlation_id : Option String
  pub command_id : String
  pub requested_at : ℕ
  pub deadline_at : ℕ

-- What the HTTP request node is given. Its body and headers repeat the identifiers of `pending`.
pub record Outgoing : Type 0 where
  pub pending : Pending
  pub method : String
  pub url : String
  pub request_timeout : ℕ
  pub follow_redirects : Bool
  pub reject_unauthorized : Bool
  pub resource : String
  pub action : String
  pub scenario : String

-- `url.replace(/\/$/, '')`
unfoldable pub strip_slash : String → String
strip_slash String.[] = ""
strip_slash (String.◌∷◌ c String.[]) = if nat_eq (code c) b'/' then "" else String.◌∷◌ c ""
strip_slash (String.◌∷◌ c (String.◌∷◌ d s)) = String.◌∷◌ c (strip_slash (String.◌∷◌ d s))

abbrev pub is_pending : Option ServiceRequest → Bool
is_pending none = false
is_pending (some request) = request.status == "pending"

abbrev pub set_status : String → Check → Check
set_status status check = record check { status = status }

-- The run while its request is under way; `index` is that of the last check.
unfoldable pub pend_run : Env → AdapterConfig → ℕ → Option String → Run → Run
unfolding add_evidence
pend_run env config index correlation_id run =
    let waiting = record run {
      checks = modify run.checks index (set_status "Pending");
      connection = record (run.connection) { status = "Pending Participant sample HTTPS" };
      outcome = "Local sample HTTP request pending";
      reason = "Waiting for a validated response from the configured Participant sample service.";
      transport = "Participant sample HTTPS";
      service_request = some (record {
        status = "pending";
        request_id = env.first_uuid;
        correlation_id = correlation_id;
        requested_at = env.now;
        responded_at = none;
        scenario = run.service_scenario;
        deadline_at = env.now + config.flow_deadline_ms;
        tls_verification =
            if config.skip_tls_verification then "skipped for sample endpoint" else "enabled";
        expired_at = none;
        provider_timestamp = none;
        http_status = none;
        outcome = none;
        reason_code = none;
        explanation = none;
        safe_data = none;
      });
    } in
    add_evidence env.now "service.requested"
      "Final sample-report request sent through Participant sample HTTPS."
      (object (
        ("sent", bool true)
        ∷ ("blocked", bool false)
        ∷ ("requestId", str env.first_uuid)
        ∷ ("correlationId", text_or_null correlation_id)
        ∷ ("requestedAt", num env.now)
        ∷ ("transport", str "Participant sample HTTPS")
        ∷ []))
      waiting

unfoldable pub outgoing : Env → AdapterConfig → String → Option String → String → Run → Outgoing
outgoing env config user_id correlation_id command_id run = record {
  pending = record {
    owner_id = user_id;
    run_id = run.run_id;
    request_id = env.first_uuid;
    correlation_id = correlation_id;
    command_id = command_id;
    requested_at = env.now;
    deadline_at = env.now + config.flow_deadline_ms;
  };
  method = "POST";
  url = String.◌++◌ (strip_slash config.participant_url) "/demo";
  request_timeout = config.participant_timeout_ms;
  follow_redirects = false;
  reject_unauthorized = not config.skip_tls_verification;
  resource = "sample-report";
  action = "read";
  scenario = run.service_scenario;
}

-- `Date.now() > current.serviceRequest.deadlineAt` for a pending request.
abbrev pub is_overdue : ℕ → Run → Bool
is_overdue now run = elim run.service_request [
  | none ↦ false
  | some request ↦ if request.status == "pending" then ltb request.deadline_at now else false
]

abbrev pub deadline_reason : String
deadline_reason = "No Participant sample HTTPS response arrived before the Journey flow deadline."

abbrev close_request : ℕ → ServiceRequest → ServiceRequest
close_request now request = record request {
  status = "completed";
  responded_at = none;
  expired_at = some now;
  http_status = none;
  outcome = some unavailable;
  reason_code = some "SAMPLE_FLOW_DEADLINE_EXCEEDED";
  explanation = some deadline_reason;
  safe_data = none;
}

-- The body of the deadline's `if`, for the pending request that it names.
unfoldable pub expire_run : ℕ → ServiceRequest → Run → Run
unfolding add_event add_evidence
expire_run now request run =
    let expired = record run {
      checks = modify run.checks (length run.checks - 1) (mark "Unavailable" now);
      result = some "unavailable";
      terminal = true;
      terminal_status = some "Unavailable";
      reason_code = some "SAMPLE_FLOW_DEADLINE_EXCEEDED";
      outcome = "Sample service unavailable";
      reason = deadline_reason;
      connection = record (run.connection) { status = "Unavailable" };
      failed_check =
          some
            (brief "final-service-request" "Final Participant sample HTTPS request" "Unavailable");
      service_request = some (close_request now request);
    } in
    add_event now "run.completed" "Sample service unavailable" (
      add_evidence now "service.deadline.expired" deadline_reason
        (object (
          ("sent", bool true)
          ∷ ("blocked", bool true)
          ∷ ("unavailable", bool true)
          ∷ ("requestId", str request.request_id)
          ∷ ("correlationId", text_or_null request.correlation_id)
          ∷ ("requestedAt", num request.requested_at)
          ∷ ("expiredAt", num now)
          ∷ ("transport", str "Participant sample HTTPS")
          ∷ ("outcome", str "unavailable")
          ∷ ("reasonCode", str "SAMPLE_FLOW_DEADLINE_EXCEEDED")
          ∷ []))
        expired)

-- The deadline's `if` as a whole.
abbrev pub expire_for : ℕ → Run → Option ServiceRequest → Run
expire_for now run none = run
expire_for now run (some request) =
    if request.status == "pending"
    then if ltb request.deadline_at now then expire_run now request run else run
    else run

unfoldable pub expire : ℕ → Run → Run
expire now run = expire_for now run run.service_request
