-- ===== src/Journey/Fixtures.antt =====
-- What the message brings to the engine: the sample scenarios, the Atlas fixtures, the adapter's
-- configuration, the viewer, and the environment's clock and random identifiers.
use facis_zero_trust_demonst.Base.{ℕ, String, Bool, Option, List, Dict, Value}
use facis_zero_trust_demonst.Journey.State.{
  PolicyCheck, Credential, Measurement, Permission, Trust, Attestation, Connection,
}

-- A member of `journeySampleScenarios`. `stop_step` is null for the scenario that succeeds, which
-- has no `failStatus` either. The connection's `status` there is not set; it reads "".
pub record Scenario : Type 0 where
  pub id : String
  pub label : String
  pub summary : String
  pub tone : String
  pub stop_step : Option ℕ
  pub fail_status : String
  pub result : String
  pub terminal_status : String
  pub reason_code : String
  pub outcome : String
  pub reason : String
  pub credential : Credential
  pub trust : Trust
  pub attestation : Attestation
  pub connection : Connection
  pub permission : Permission
  pub measurements : List Measurement
  pub policy_checks : List PolicyCheck

pub record AtlasStep : Type 0 where
  pub id : String
  pub name : String
  pub source : String
  pub kind : String
  pub state : String
  pub states : Option (List String)
  pub detail : String
  pub reason_code : Option String
  pub rule_id : Option String
  pub skip : Bool

-- A member of `journeyAtlasFixtures`.
pub record AtlasSpec : Type 0 where
  pub id : String
  pub label : String
  pub summary : String
  pub profile : String
  pub variants : List String
  pub steps : List AtlasStep
  pub result : String
  pub reason_code : Option String
  pub reason : String
  pub credential : Credential
  pub resource_fixture_case : Option String
  pub presentation_link : Option String

pub record AdapterError : Type 0 where
  pub code : String
  pub detail : String

pub record AdapterConfig : Type 0 where
  pub mode : String
  pub participant_url : String
  pub participant_timeout_ms : ℕ
  pub flow_deadline_ms : ℕ
  pub skip_tls_verification : Bool
  pub error : Option AdapterError

-- `msg.req.facis`, which the identity boundary sets.
pub record Viewer : Type 0 where
  pub user_id : Option String
  pub role : String
  pub scope : String

pub record Message : Type 0 where
  pub type : Value
  pub content : Value
  pub viewer : Option Viewer
  pub scenarios : Dict Scenario
  pub aliases : Dict String
  pub atlas_fixtures : Dict AtlasSpec
  pub config : AdapterConfig

-- What one call of the handler reads of the world: the clock, read as one value, and the results
-- of `uuid()` in the order of its calls.
pub record Env : Type 0 where
  pub now : ℕ
  pub first_uuid : String
  pub second_uuid : String
