-- ===== src/Journey/State.antt =====
-- The state of a run (journey-engine.js, `newAtlasState` and the sample `start`), and the flow context
-- that keeps it. A field that one kind of run leaves out is an `Option`. Times are milliseconds, where
-- the source writes them as ISO texts. Left out are the constants that are only shown: `sample`,
-- `fixtureOnly`, `fixtureSource`, `seed`, `fixtureRefs` and `fixtureArtifacts`.
use facis_zero_trust_demonst.Base.{ℕ, String, Bool, Option, List, Dict, Value}
use facis_zero_trust_demonst.Resource.{Outcome, Report, Decision}

pub record Check : Type 0 where
  pub id : String
  pub name : String
  pub detail : String
  pub source : Option String
  pub kind : Option String
  pub reason_code : Option String
  pub rule_id : Option String
  pub expected_state : Option String
  pub status : String
  pub evaluated_at : Option ℕ
  pub number : Option ℕ

pub record PolicyCheck : Type 0 where
  pub label : String
  pub detail : String
  pub status : String
  pub step : Option ℕ

pub record Credential : Type 0 where
  pub id : Option String
  pub type_name : String
  pub issuer : String
  pub validity : String
  pub status : String

pub record Measurement : Type 0 where
  pub label : String
  pub expected : String
  pub actual : String
  pub status : String

pub record Permission : Type 0 where
  pub name : String
  pub detail : String
  pub status : String

pub record Trust : Type 0 where
  pub zone : String
  pub confidence : String
  pub attestation : String
  pub status : String
  pub membership_status : String

pub record Attestation : Type 0 where
  pub method : String
  pub result : String
  pub signature_status : String
  pub measurement_status : String
  pub timestamp : String

pub record Connection : Type 0 where
  pub protocol : String
  pub encryption : String
  pub endpoint : String
  pub status : String

pub record Token : Type 0 where
  pub state : String
  pub scope : Option String
  pub key_bound : Bool

pub record CredentialUnlock : Type 0 where
  pub initial_refusal : Bool
  pub credential_issued : Bool
  pub credential_presented : Bool
  pub retry_success : Bool

-- `failedCheck` is a copy of a check, or three fields.
pub data FailedCheck : Type 0 where
  whole : Check → FailedCheck
  brief : (id name status : String) → FailedCheck

pub record Event : Type 0 where
  pub event : String
  pub timestamp : ℕ
  pub detail : String

pub record Evidence : Type 0 where
  pub event : String
  pub timestamp : ℕ
  pub detail : String
  pub content : Value

-- `contractEvent`, the IF-01 event of an executed step.
pub record FeedEvent : Type 0 where
  pub run_id : String
  pub correlation_id : Option String
  pub seq : ℕ
  pub ts : ℕ
  pub source : String
  pub kind : String
  pub state : String
  pub detail : String
  pub reason_code : Option String
  pub rule_id : Option String

pub record ServiceRequest : Type 0 where
  pub status : String
  pub request_id : String
  pub correlation_id : Option String
  pub requested_at : ℕ
  pub responded_at : Option ℕ
  pub scenario : String
  pub deadline_at : ℕ
  pub tls_verification : String
  pub expired_at : Option ℕ
  pub provider_timestamp : Option ℕ
  pub http_status : Option ℕ
  pub outcome : Option Outcome
  pub reason_code : Option String
  pub explanation : Option String
  pub safe_data : Option Report

pub record Run : Type 0 where
  pub atlas_plan : Bool
  pub adapter_mode : String
  pub transport : String
  pub security_source : Option String
  pub service_scenario : String
  pub service_request : Option ServiceRequest
  pub owner_id : Option String
  pub run_id : String
  pub correlation_id : Option String
  pub started_at : ℕ
  pub updated_at : ℕ
  pub scenario : String
  pub scenario_label : String
  pub summary : String
  pub profile : Option String
  pub variant : Option String
  pub credential_to_revoke : Option String
  pub source_sequences : Dict ℕ
  pub fixture_events : List FeedEvent
  pub tone : String
  pub active_step : ℕ
  pub terminal : Bool
  pub result : Option String
  pub terminal_status : Option String
  pub reason_code : Option String
  pub failed_check : Option FailedCheck
  pub outcome : String
  pub reason : String
  pub checks : List Check
  pub policy_checks : List PolicyCheck
  pub credential : Credential
  pub measurements : List Measurement
  pub permission : Permission
  pub trust : Trust
  pub attestation : Attestation
  pub connection : Connection
  pub token : Option Token
  pub credential_unlock : CredentialUnlock
  pub not_executed : List String
  pub rule_id : Option String
  pub presentation_link : Option String
  pub resource_fixture_result : Option Decision
  pub fixture_resource : Option Report
  pub evidence : List Evidence
  pub events : List Event

-- The flow context: the run of each user, and the last command identifiers of each user.
pub record Flow : Type 0 where
  pub journey_states : Dict Run
  pub journey_command_history : Dict (List String)
