-- ===== src/Journey/Samples.antt =====
-- Data for tests: a configuration, a scenario of which every check passes, a clock.
use facis_zero_trust_demonst.Base.{false, none, []}
use facis_zero_trust_demonst.Journey.Fixtures.{Scenario, AdapterConfig, Env}

abbrev pub config : AdapterConfig
config = record {
  mode = "fixture";
  participant_url = "";
  participant_timeout_ms = 7000;
  flow_deadline_ms = 10000;
  skip_tls_verification = false;
  error = none;
}

-- A scenario that succeeds, and one that fails at its credential.
abbrev pub granted : Scenario
granted = record {
  id = "successful-access";
  label = "Full success";
  summary = "All sample controls pass.";
  tone = "success";
  stop_step = none;
  fail_status = "";
  result = "success";
  terminal_status = "Granted";
  reason_code = "SAMPLE_ACCESS_GRANTED";
  outcome = "Access granted";
  reason = "Every check passes.";
  credential = record {
    id = none;
    type_name = "FACIS Participant Credential";
    issuer = "Sample Issuer";
    validity = "2026";
    status = "Valid";
  };
  trust = record {
    zone = "Federated Research Zone";
    confidence = "94%";
    attestation = "38 seconds ago";
    status = "Trusted";
    membership_status = "Pass";
  };
  attestation = record {
    method = "Local";
    result = "Pending";
    signature_status = "Verified";
    measurement_status = "Not evaluated";
    timestamp = "13:41";
  };
  connection = record {
    protocol = "mTLS 1.3";
    encryption = "AES-256-GCM";
    endpoint = "mission-data";
    status = "";
  };
  permission = record { name = "mission-data:read"; detail = "present"; status = "Pass" };
  measurements = [];
  policy_checks = [];
}

abbrev pub env : Env
env = record { now = 5; first_uuid = "run-1"; second_uuid = "run-2" }
