-- ===== src/Replacement/Tests.antt =====
-- The checks of the replacement adapters on concrete objects.
use facis_zero_trust_demonst.Base.{
  key_of, get, is_text, String, true, ◌≡◌, refl, some, Value, Fields, str, obj, end, field,
  as_object, is_identifier, trim,
}
use facis_zero_trust_demonst.Resource.{success, denied}
use facis_zero_trust_demonst.Replacement.{
  ◌>>=◌, Request, Url, Checked, fail, passed, Target, sample_http, resource_contract, configuration,
  sample_target, is_local, normalize_request, participant_result, sample_participant_response,
}
use facis_zero_trust_demonst.Replacement.{
  Answer, resource_result, answered, checked_safe_data, is_reason, is_report,
}
use facis_zero_trust_demonst.Replacement.Answers.{IsContained, resource_result-IsContained}
use facis_zero_trust_demonst.Replacement.Mocks.{
  IsRequest, participant_result-mock, configuration-IsLoopback, IsLoopback,
}

checks : Unit {0}
unfolding configuration sample_target is_local normalize_request participant_result
    sample_participant_response is_identifier resource_result answered checked_safe_data is_reason
    is_report trim key_of
checks = tt

abbrev request : Request
request = record { request_id = "r-1"; correlation_id = "c-1"; scenario = success }

request-IsRequest : IsRequest request
unfolding checks
request-IsRequest = record { request_id = refl; correlation_id = refl }

participant_result-mock_example :
    (sample_participant_response request >>= λ response. participant_result response request)
    ≡ passed request
participant_result-mock_example = participant_result-mock request request-IsRequest

abbrev url : Url
url = record {
  protocol = "http:";
  hostname = "127.0.0.1";
  username = "";
  password = "";
  search = "";
  hash = "";
  pathname = "/";
  origin = "http://127.0.0.1:9000";
}

abbrev target : String → Value
target kind = obj (
    field "kind" (str kind) (
      field "role" (str "protected-resource")
        (field "contract" (str resource_contract) (field "baseURL" (str url.origin) end))))

abbrev configure : Value → Checked Target
configure value = configuration (λ v. some url) value "protected-resource" resource_contract

configured : configure (target "sample-http") ≡ passed (sample_http "http://127.0.0.1:9000")
unfolding checks
configured = refl

real_refused :
    configure (target "real") ≡ fail "REPLACEMENT_TARGET_NOT_APPROVED" "protected-resource"
unfolding checks
real_refused = refl

configuration-IsLoopback_example :
    (fields : Fields) × (found : Url) × (as_object (target "sample-http") ≡ some fields)
    × ((is_text (get "kind" fields) "sample-http" ≡ true)
        × (is_text (get "role" fields) "protected-resource" ≡ true)
        × (is_text (get "contract" fields) resource_contract ≡ true))
    × (some url ≡ some found)
    × IsLoopback found
    × (found.origin ≡ "http://127.0.0.1:9000")
configuration-IsLoopback_example =
    configuration-IsLoopback (λ v. some url) (target "sample-http") "protected-resource"
      resource_contract "http://127.0.0.1:9000" configured

abbrev denial : Value
denial = obj (
    field "contract" (str resource_contract) (
      field "role" (str "protected-resource") (
        field "mode" (str "sample") (
          field "requestId" (str "r-1") (
            field "correlationId" (str "c-1") (
              field "outcome" (str "denied") (
                field "reasonCode" (str "FIXTURE_ROLE_DENIED")
                  (field "safeData" (obj end) end))))))))

abbrev denial_answer : Answer
denial_answer = record {
  outcome = denied;
  reason_code = str "FIXTURE_ROLE_DENIED";
  safe_data = end;
}

denial_passed : resource_result denial request 403 ≡ passed denial_answer
unfolding checks
denial_passed = refl

denial_mismatch :
    resource_result denial request 200 ≡ fail "REPLACEMENT_STATUS_MISMATCH" "protected-resource"
unfolding checks
denial_mismatch = refl

resource_result-IsContained_example : IsContained 403 denial_answer
resource_result-IsContained_example =
    resource_result-IsContained denial request 403 denial_answer denial_passed
