-- ===== src/Replacement.antt =====
-- The checks of flows/demonstrator/replacement-adapters.mjs: requests, configurations and the
-- responses of the two replaced services, with the mock responses. `new URL` is a parameter. An
-- object that a check passes on has the fields that were checked. The journey itself, with its HTTP
-- calls and its list of events, is left out.
pub mod Mocks
pub mod Answers
mod Tests
use facis_zero_trust_demonst.Base.{
  ℕ, String, Bool, true, false, ◌&&◌, ◌||◌, not, Option, none, some, List, [], ◌∷◌, if◌then◌else◌,
  ◌==◌, Value, Fields, keys, get, as_string, key_of, as_object, is_text, is_given, str, object,
  includes, all, is_identifier, is_empty, trim, text_length, leb, nat_eq, is_upper, is_digit,
  every_char, length,
}
use Prim.Native.Char.{code}
use Prim.Native.Char.{code}
use Prim.Native.String
use facis_zero_trust_demonst.Resource.{
  Outcome, Report, success, denied, unavailable, error, evaluate_fixture_resource,
}
use facis_zero_trust_demonst.Participant.Response.{outcome_text}
use facis_zero_trust_demonst.Participant.Results.{outcome_of, has_text}

-- A `ReplacementError` or what a check answers.
pub data Checked {ℓ} (A : Type ℓ) : Type ℓ where
  fail : (code stage : String) → Checked A
  passed : A → Checked A

infixl 5 ◌>>=◌
abbrev pub ◌>>=◌ {ℓ κ} : {A : Type ℓ} {B : Type κ} → Checked A → (A → Checked B) → Checked B
fail code stage >>= f = fail code stage
passed a >>= f = f a

abbrev pub check {ℓ} : {A : Type ℓ} → Option A → String → String → Checked A
check none code stage = fail code stage
check (some a) code stage = passed a

abbrev pub participant_contract : String
participant_contract = "facis.sample-participant/v1"

abbrev pub resource_contract : String
resource_contract = "facis.sample-resource/v1"

-- `keys(value, names)`, with the object.
abbrev pub object_of : Value → List String → Option Fields
object_of value names = elim (as_object value) [
  | none ↦ none
  | some fs ↦ if all (includes names) (keys fs) then some fs else none
]

abbrev pub identifier_of : Value → Option String
identifier_of v = elim (as_string v) [
  | none ↦ none
  | some s ↦ if is_identifier s then some s else none
]

-- A normalized request; its resource is `sample-report` and its action `read`.
pub record Request : Type 0 where
  pub request_id : String
  pub correlation_id : String
  pub scenario : Outcome

abbrev request_keys : List String
request_keys = "requestId" ∷ "correlationId" ∷ "resource" ∷ "action" ∷ "scenario" ∷ []

abbrev request_of : Value → Value → Value → Option Request
request_of request correlation scenario = elim (identifier_of request) [
  | none ↦ none
  | some request_id ↦ elim (identifier_of correlation) [
    | none ↦ none
    | some correlation_id ↦ elim (outcome_of scenario) [
      | none ↦ none
      | some outcome ↦
          some (record {
            request_id = request_id;
            correlation_id = correlation_id;
            scenario = outcome;
          })
    ]
  ]
]

unfoldable pub normalize_request : Value → Checked Request
normalize_request input = elim (object_of input request_keys) [
  | none ↦ fail "REPLACEMENT_REQUEST_INVALID" "request"
  | some fs ↦
      if is_text (get "resource" fs) "sample-report" && is_text (get "action" fs) "read"
      then check (request_of (get "requestId" fs) (get "correlationId" fs) (get "scenario" fs))
          "REPLACEMENT_REQUEST_INVALID" "request"
      else fail "REPLACEMENT_REQUEST_INVALID" "request"
]

-- The request as the object that is sent.
abbrev pub request_value : Request → Value
request_value r = object (
    ("requestId", str r.request_id)
    ∷ ("correlationId", str r.correlation_id)
    ∷ ("resource", str "sample-report")
    ∷ ("action", str "read")
    ∷ ("scenario", str (outcome_text r.scenario))
    ∷ [])

-- The parts of a URL that the configuration's check reads.
pub record Url : Type 0 where
  pub protocol : String
  pub hostname : String
  pub username : String
  pub password : String
  pub search : String
  pub hash : String
  pub pathname : String
  pub origin : String

pub data Target : Type 0 where
  mock : Target
  sample_http : (origin : String) → Target

unfoldable pub is_local : Url → Bool
is_local url =
    url.protocol == "http:"
    && includes ("127.0.0.1" ∷ "[::1]" ∷ []) url.hostname
    && is_empty url.username
    && is_empty url.password
    && is_empty url.search
    && is_empty url.hash
    && url.pathname == "/"

-- The address of a disposable local service, and no other.
unfoldable pub sample_target : String → Option Url → Checked Target
sample_target role none = fail "REPLACEMENT_CONFIG_INVALID" role
sample_target role (some url) =
    if is_local url
    then passed (sample_http url.origin)
    else fail "REPLACEMENT_SAMPLE_ENDPOINT_INVALID" role

unfoldable pub configuration : (Value → Option Url) → Value → String → String → Checked Target
configuration parse_url value role contract =
    elim (object_of value ("kind" ∷ "role" ∷ "contract" ∷ "baseURL" ∷ [])) [
      | none ↦ fail "REPLACEMENT_INTERFACE_INVALID" role
      | some fs ↦
          let kind = get "kind" fs in
          if not (is_text (get "role" fs) role && is_text (get "contract" fs) contract)
          then fail "REPLACEMENT_INTERFACE_INVALID" role
          else if is_text kind "real"
          then fail "REPLACEMENT_TARGET_NOT_APPROVED" role
          else if is_text kind "mock"
          then if is_given (get "baseURL" fs)
            then fail "REPLACEMENT_CONFIG_INVALID" role
            else passed mock
          else if is_text kind "sample-http"
          then sample_target role (parse_url (get "baseURL" fs))
          else fail "REPLACEMENT_KIND_UNSUPPORTED" role
    ]

abbrev same_request : Request → Request → Bool
same_request a b =
    a.request_id == b.request_id
    && a.correlation_id == b.correlation_id
    && outcome_text a.scenario == outcome_text b.scenario

unfoldable pub participant_result : Value → Request → Checked Request
participant_result value request =
    elim (object_of value
      ("contract" ∷ "role" ∷ "mode" ∷ "outcome" ∷ "reasonCode" ∷ "request" ∷ [])) [
        | none ↦ fail "REPLACEMENT_RESPONSE_INVALID" "participant-backend"
        | some fs ↦
            if not (
              is_text (get "contract" fs) participant_contract
              && is_text (get "role" fs) "participant-backend"
              && is_text (get "mode" fs) "sample")
            then fail "REPLACEMENT_RESPONSE_INVALID" "participant-backend"
            else if not (is_text (get "outcome" fs) "ready")
            then fail "REPLACEMENT_PARTICIPANT_REFUSED" "participant-backend"
            else normalize_request (get "request" fs) >>= λ next.
                if same_request next request
                then passed next
                else fail "REPLACEMENT_REQUEST_MISMATCH" "participant-backend"
      ]

-- The mock of the Participant, which checks the request again.
unfoldable pub sample_participant_response : Request → Checked Value
sample_participant_response request = normalize_request (request_value request) >>= λ next. passed (
    object (
      ("contract", str participant_contract)
      ∷ ("role", str "participant-backend")
      ∷ ("mode", str "sample")
      ∷ ("outcome", str "ready")
      ∷ ("request", request_value next)
      ∷ []))

-- `/^[A-Z][A-Z0-9_]{1,79}$/`
unfoldable pub is_reason : String → Bool
is_reason String.[] = false
is_reason (String.◌∷◌ c s) =
    is_upper (code c)
    && every_char (λ d. is_upper d || is_digit d || nat_eq d b'_') s
    && leb 1 (text_length s)
    && leb (text_length s) 79

abbrev pub expected_status : Outcome → ℕ
expected_status success = 200
expected_status denied = 403
expected_status unavailable = 503
expected_status error = 502

-- A response of the resource that passed: its outcome, its reason (a text, or an array that is read
-- as one) and its `safeData`.
pub record Answer : Type 0 where
  pub outcome : Outcome
  pub reason_code : Value
  pub safe_data : Fields

abbrev short_text : Value → Bool
short_text v = elim (as_string v) [
  | none ↦ false
  | some s ↦ not (is_empty (trim s)) && leb (text_length s) 500
]

-- The report of a success: `safeData` and its `report`.
unfoldable pub is_report : Value → Bool
is_report value = elim (object_of value ("resource" ∷ "action" ∷ "report" ∷ [])) [
  | none ↦ false
  | some safe ↦
      is_text (get "resource" safe) "sample-report"
      && is_text (get "action" safe) "read"
      && elim (object_of (get "report" safe) ("id" ∷ "title" ∷ "content" ∷ [])) [
        | none ↦ false
        | some report ↦ all (λ k. short_text (get k report)) ("id" ∷ "title" ∷ "content" ∷ [])
      ]
]

abbrev pub is_nothing : Value → Bool
is_nothing value = elim (as_object value) [ none ↦ false | some fs ↦ nat_eq (length (keys fs)) 0 ]

unfoldable pub checked_safe_data : Outcome → Value → Checked Fields
checked_safe_data success value =
    if is_report value
    then check (as_object value) "REPLACEMENT_RESPONSE_INVALID" "protected-resource"
    else fail "REPLACEMENT_RESPONSE_INVALID" "protected-resource"
checked_safe_data _ value =
    if is_nothing value
    then check (as_object value) "REPLACEMENT_REFUSAL_LEAK" "protected-resource"
    else fail "REPLACEMENT_REFUSAL_LEAK" "protected-resource"

unfoldable pub answered : Value → ℕ → Fields → Outcome → Checked Answer
answered reason status fs outcome =
    if nat_eq status (expected_status outcome)
    then (checked_safe_data outcome (get "safeData" fs) >>= λ safe_data.
        passed (record { outcome = outcome; reason_code = reason; safe_data = safe_data }))
    else fail "REPLACEMENT_STATUS_MISMATCH" "protected-resource"

abbrev response_keys : List String
response_keys =
    "contract" ∷ "role" ∷ "mode" ∷ "requestId" ∷ "correlationId" ∷ "outcome" ∷ "reasonCode"
    ∷ "safeData" ∷ []

abbrev is_response_to : Request → Fields → Bool
is_response_to request fs =
    is_text (get "contract" fs) resource_contract
    && is_text (get "role" fs) "protected-resource"
    && is_text (get "mode" fs) "sample"
    && is_text (get "requestId" fs) request.request_id
    && is_text (get "correlationId" fs) request.correlation_id

unfoldable pub resource_result : Value → Request → ℕ → Checked Answer
resource_result value request status =
    check (object_of value response_keys) "REPLACEMENT_RESPONSE_INVALID" "protected-resource"
    >>= λ fs.
        if not (is_response_to request fs)
        then fail "REPLACEMENT_RESPONSE_INVALID" "protected-resource"
        else check (outcome_of (get "outcome" fs)) "REPLACEMENT_RESPONSE_INVALID"
            "protected-resource"
          >>= λ outcome.
              check (key_of (get "reasonCode" fs)) "REPLACEMENT_RESPONSE_INVALID"
                "protected-resource"
              >>= λ reason.
                  if is_reason reason
                  then answered (get "reasonCode" fs) status fs outcome
                  else fail "REPLACEMENT_RESPONSE_INVALID" "protected-resource"
