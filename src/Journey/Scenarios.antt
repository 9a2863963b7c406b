-- ===== src/Journey/Scenarios.antt =====
-- The sample scenarios (flows/demonstrator/journey-sample-fixtures.js, `journeySampleScenarios`).
use facis_zero_trust_demonst.Base.{ℕ, String, none, some, [], ◌∷◌, Dict}
use facis_zero_trust_demonst.Journey.State.{Credential, Connection, Measurement, PolicyCheck}
use facis_zero_trust_demonst.Journey.Fixtures.{Scenario}

abbrev pub credential_with : String → Credential
credential_with status = record {
  id = none;
  type_name = "FACIS Participant Credential";
  issuer = "OCM W-Stack · Sample Issuer";
  validity = "2026-10-01 — 2026-10-02";
  status = status;
}

abbrev pub connection_to : String → Connection
connection_to endpoint = record {
  protocol = "mTLS 1.3";
  encryption = "AES-256-GCM";
  endpoint = endpoint;
  status = "";
}

abbrev measurement : String → String → String → String → Measurement
measurement label expected actual status = record {
  label = label;
  expected = expected;
  actual = actual;
  status = status;
}

abbrev policy_check : String → String → String → ℕ → PolicyCheck
policy_check label detail status step = record {
  label = label;
  detail = detail;
  status = status;
  step = some step;
}

abbrev pub successful_access : Scenario
successful_access = record {
  id = "successful-access";
  label = "Full success";
  summary = "All sample controls pass and the protected resource is released.";
  tone = "success";
  stop_step = none;
  fail_status = "";
  result = "success";
  terminal_status = "Granted";
  reason_code = "SAMPLE_ACCESS_GRANTED";
  outcome = "Access granted";
  reason =
      "The local sample credential, trust, evidence signature, measurement, permission and runtime checks satisfy the sample policy.";
  credential = credential_with "Valid";
  trust = record {
    zone = "Federated Research Zone";
    confidence = "94% · Sample value";
    attestation = "38 seconds ago · Sample value";
    status = "Trusted";
    membership_status = "Pass";
  };
  attestation = record {
    method = "Local sample evidence appraisal";
    result = "Pending measurement appraisal";
    signature_status = "Verified";
    measurement_status = "Not evaluated";
    timestamp = "13:41:42 UTC · Sample value";
  };
  connection = connection_to "mission-data.sample.facis";
  permission = record {
    name = "mission-data:read";
    detail = "mission-data:read present";
    status = "Pass";
  };
  measurements =
      measurement "TEE measurement · Sample value" "sample:tee:9d3…e12" "sample:tee:9d3…e12" "Pass"
      ∷ measurement "Policy bundle · Sample value" "facis-zt-1.7" "facis-zt-1.7" "Pass"
      ∷ measurement "Runtime posture · Sample value" "Hardened" "Hardened" "Pass"
      ∷ [];
  policy_checks =
      policy_check "Credential status" "Active and within validity window" "Pass" 3
      ∷ policy_check "Trust-zone membership" "Local sample membership check passed" "Pass" 4
      ∷ policy_check "Evidence signature" "Evidence signature and nonce verified" "Pass" 4
      ∷ policy_check "Permission" "mission-data:read present" "Pass" 4
      ∷ [];
}

abbrev pub revoked_credential : Scenario
revoked_credential = record {
  id = "revoked-credential";
  label = "Revoked credential";
  summary = "The presented credential is found on the local sample revocation list.";
  tone = "danger";
  stop_step = some 3;
  fail_status = "Fail";
  result = "failure";
  terminal_status = "Refused";
  reason_code = "SAMPLE_CREDENTIAL_REVOKED";
  outcome = "Access refused";
  reason = "Credential FACIS-PC-2048 is revoked in the local sample result.";
  credential = credential_with "Revoked";
  trust = record {
    zone = "Federated Research Zone";
    confidence = "Not evaluated";
    attestation = "Not evaluated";
    status = "Not evaluated";
    membership_status = "Not evaluated";
  };
  attestation = record {
    method = "Local sample evidence appraisal";
    result = "Not evaluated";
    signature_status = "Not evaluated";
    measurement_status = "Not evaluated";
    timestamp = "Not evaluated";
  };
  connection = connection_to "mission-data.sample.facis";
  permission = record {
    name = "mission-data:read";
    detail = "Skipped after credential failure";
    status = "Skipped";
  };
  measurements = measurement "Runtime measurements" "Required" "Not evaluated" "Skipped" ∷ [];
  policy_checks =
      policy_check "Credential status" "Revocation entry RVK-118 matched" "Fail" 3
      ∷ policy_check "Trust-zone membership" "Skipped after credential failure" "Skipped" 4
      ∷ policy_check "Attestation" "Skipped after credential failure" "Skipped" 4
      ∷ policy_check "Permission" "Skipped after credential failure" "Skipped" 4
      ∷ [];
}

abbrev pub missing_permission : Scenario
missing_permission = record {
  id = "missing-permission";
  label = "Missing permission";
  summary = "Identity is trusted, but mission-data:read is not in the local sample grant.";
  tone = "danger";
  stop_step = some 4;
  fail_status = "Fail";
  result = "failure";
  terminal_status = "Refused";
  reason_code = "SAMPLE_PERMISSION_MISSING";
  outcome = "Access refused";
  reason = "The local sample credential does not grant the mission-data:read permission.";
  credential = credential_with "Valid";
  trust = record {
    zone = "Federated Research Zone";
    confidence = "91% · Sample value";
    attestation = "52 seconds ago · Sample value";
    status = "Trusted";
    membership_status = "Pass";
  };
  attestation = record {
    method = "Local sample evidence appraisal";
    result = "Signature verified; measurement not evaluated";
    signature_status = "Verified";
    measurement_status = "Not evaluated";
    timestamp = "13:41:42 UTC · Sample value";
  };
  connection = connection_to "mission-data.sample.facis";
  permission = record {
    name = "mission-data:read";
    detail = "Only profile:read is present";
    status = "Fail";
  };
  measurements = measurement "Runtime posture" "Hardened" "Not evaluated" "Skipped" ∷ [];
  policy_checks =
      policy_check "Credential status" "Active and within validity window" "Pass" 3
      ∷ policy_check "Trust-zone membership" "Local sample membership check passed" "Pass" 4
      ∷ policy_check "Evidence signature" "Evidence signature and nonce verified" "Pass" 4
      ∷ policy_check "Permission" "Only profile:read is present" "Fail" 4
      ∷ [];
}

abbrev pub measurement_mismatch : Scenario
measurement_mismatch = record {
  id = "measurement-mismatch";
  label = "Measurement mismatch";
  summary = "The local sample TEE measurement differs from the sample expected value.";
  tone = "danger";
  stop_step = some 5;
  fail_status = "Fail";
  result = "failure";
  terminal_status = "Refused";
  reason_code = "SAMPLE_MEASUREMENT_MISMATCH";
  outcome = "Access refused";
  reason =
      "The observed local sample TEE measurement does not match the sample expected measurement.";
  credential = credential_with "Valid";
  trust = record {
    zone = "Federated Research Zone";
    confidence = "88% · Sample value";
    attestation = "11 seconds ago · Sample value";
    status = "Trusted";
    membership_status = "Pass";
  };
  attestation = record {
    method = "Local sample evidence appraisal";
    result = "Pending measurement appraisal";
    signature_status = "Verified";
    measurement_status = "Not evaluated";
    timestamp = "13:41:42 UTC · Sample value";
  };
  connection = connection_to "mission-data.sample.facis";
  permission = record {
    name = "mission-data:read";
    detail = "mission-data:read present";
    status = "Pass";
  };
  measurements =
      measurement "TEE measurement · Sample value" "sample:tee:9d3…e12" "sample:tee:4fa…791" "Fail"
      ∷ measurement "Policy bundle · Sample value" "facis-zt-1.7" "facis-zt-1.7" "Pass"
      ∷ [];
  policy_checks =
      policy_check "Credential status" "Active and within validity window" "Pass" 3
      ∷ policy_check "Trust-zone membership" "Local sample membership check passed" "Pass" 4
      ∷ policy_check "Evidence signature" "Evidence signature and nonce verified" "Pass" 4
      ∷ policy_check "Permission" "mission-data:read present" "Pass" 4
      ∷ policy_check "TEE measurement"
          "Observed sample:tee:4fa…791 differs from sample expected sample:tee:9d3…e12" "Fail" 5
      ∷ [];
}

abbrev pub service_unavailable : Scenario
service_unavailable = record {
  id = "service-unavailable";
  label = "Attestation service unavailable";
  summary = "The local sample appraisal service cannot return a trustworthy result.";
  tone = "warning";
  stop_step = some 4;
  fail_status = "Unavailable";
  result = "unavailable";
  terminal_status = "Unavailable";
  reason_code = "SAMPLE_ATTESTATION_SERVICE_UNAVAILABLE";
  outcome = "Decision unavailable";
  reason =
      "The local sample attestation appraisal service did not respond; no allow or deny decision is available.";
  credential = credential_with "Valid";
  trust = record {
    zone = "Federated Research Zone";
    confidence = "Not evaluated";
    attestation = "Unavailable";
    status = "Unavailable";
    membership_status = "Not evaluated";
  };
  attestation = record {
    method = "Local sample evidence appraisal";
    result = "Unavailable";
    signature_status = "Unavailable";
    measurement_status = "Not evaluated";
    timestamp = "Unavailable";
  };
  connection = connection_to "appraisal.sample.facis";
  permission = record {
    name = "mission-data:read";
    detail = "Skipped because no attestation result is available";
    status = "Skipped";
  };
  measurements =
      measurement "Runtime measurements" "Verified result" "Not evaluated" "Skipped" ∷ [];
  policy_checks =
      policy_check "Credential status" "Active and within validity window" "Pass" 3
      ∷ policy_check "Trust-zone membership"
          "Not evaluated because the sample appraisal dependency was unavailable" "Not evaluated" 4
      ∷ policy_check "Evidence signature" "Sample appraisal service did not respond" "Unavailable" 4
      ∷ policy_check "Permission" "Skipped because no attestation result is available" "Skipped" 4
      ∷ [];
}

abbrev pub sample_scenarios : Dict Scenario
sample_scenarios =
    ("successful-access", successful_access)
    ∷ ("revoked-credential", revoked_credential)
    ∷ ("missing-permission", missing_permission)
    ∷ ("measurement-mismatch", measurement_mismatch)
    ∷ ("service-unavailable", service_unavailable)
    ∷ []

abbrev pub scenario_aliases : Dict String
scenario_aliases = ("success", "successful-access") ∷ ("revoked", "revoked-credential") ∷ []
