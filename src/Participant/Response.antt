-- ===== src/Participant/Response.antt =====
-- flows/demonstrator/journey-validate-response.js and journey-http-failure.js: from the response of
-- the Participant, or its failure, to the result that the completion reads. `JSON.parse` and the
-- dates are parameters; `Number(msg.statusCode)` is given as the number it is, where it is one. An
-- outcome that names an inherited property of an object is left out.
use facis_zero_trust_demonst.Base.{
  ◌>>=◌, ◌>>◌, ℕ, String, Bool, true, false, ◌&&◌, ◌||◌, not, Option, none, some, List, [], ◌∷◌,
  if◌then◌else◌, Value, Fields, get, keys, as_string, as_object, is_text, str, num, null, obj, end,
  object, trim, is_empty, or_null, all, includes, length, leb, nat_eq, text_length, byte_length,
  opt_eq, any,
}
use facis_zero_trust_demonst.Resource.{Outcome, success, denied, unavailable, error}
use facis_zero_trust_demonst.Journey.Request.{Pending}
use facis_zero_trust_demonst.Participant.Results.{Dates, outcome_of, has_text}

-- What the node reads of the message and of the world.
pub record Response : Type 0 where
  pub pending : Option Pending
  pub status : Option ℕ
  pub body : Option String
  pub now : ℕ

pub record Library : Type 0 where
  pub dates : Dates
  pub parse_json : String → Option Value

abbrev pub outcome_text : Outcome → String
outcome_text success = "success"
outcome_text denied = "denied"
outcome_text unavailable = "unavailable"
outcome_text error = "error"

-- A `msg.journeyServiceResult`.
unfoldable pub answer : Outcome → String → String → String → Fields → Option ℕ → Value
answer outcome reason explanation timestamp safe_data status = object (
    ("outcome", str (outcome_text outcome))
    ∷ ("reasonCode", str reason)
    ∷ ("explanation", str explanation)
    ∷ ("timestamp", str timestamp)
    ∷ ("safeData", obj safe_data)
    ∷ ("transportStatus", or_null num status)
    ∷ [])

-- `Number(msg.statusCode) || null`
abbrev pub status_or_null : Option ℕ → Option ℕ
status_or_null none = none
status_or_null (some n) = if nat_eq n 0 then none else some n

unfoldable pub invalid : Dates → Response → String → Value
invalid dates response detail =
    answer error "SAMPLE_INVALID_RESPONSE" detail (dates.iso response.now) end
      (status_or_null response.status)

unfoldable pub connection_failure : Dates → ℕ → Value
connection_failure dates now =
    answer unavailable "SAMPLE_CONNECTION_FAILURE"
      "The configured Participant sample service was unavailable." (dates.iso now) end none

abbrev pub expected_status : Outcome → List ℕ
expected_status success = 200 ∷ []
expected_status denied = 403 ∷ []
expected_status unavailable = 503 ∷ 504 ∷ []
expected_status error = 400 ∷ 404 ∷ 405 ∷ 502 ∷ []

abbrev pub status_matches : Outcome → Option ℕ → Bool
status_matches outcome status = any (opt_eq status) (expected_status outcome)

abbrev pub reasons : Outcome → List String
reasons success =
    "SAMPLE_ACCESS_GRANTED" ∷ "SAMPLE_RESOURCE_RETURNED" ∷ "SAMPLE_SLOW_RESOURCE_RETURNED"
    ∷ "SAMPLE_ALTERNATIVE_RESOURCE_RETURNED" ∷ "SAMPLE_ALTERNATIVE_SLOW_RESOURCE_RETURNED" ∷ []
reasons denied = "SAMPLE_ACCESS_DENIED" ∷ []
reasons unavailable =
    "SAMPLE_DEPENDENCY_UNAVAILABLE" ∷ "SAMPLE_RESOURCE_UNAVAILABLE" ∷ "SAMPLE_REQUEST_TIMEOUT"
    ∷ "SAMPLE_CONNECTION_FAILURE" ∷ "SAMPLE_ADAPTER_NO_RESPONSE" ∷ "SAMPLE_REQUEST_CANCELLED" ∷ []
reasons error =
    "SAMPLE_INVALID_REQUEST" ∷ "SAMPLE_METHOD_NOT_ALLOWED" ∷ "SAMPLE_ADAPTER_ERROR"
    ∷ "SAMPLE_UNSUPPORTED_SCENARIO" ∷ "SAMPLE_RESOURCE_ERROR" ∷ "SAMPLE_UNKNOWN_SCENARIO"
    ∷ "SAMPLE_RESOURCE_NOT_FOUND" ∷ "SAMPLE_REQUEST_TOO_LARGE" ∷ "SAMPLE_ADAPTER_FAILURE" ∷ []

-- `x === y` for a text that may be null.
abbrev pub same_text : Option String → Value → Bool
same_text (some s) v = is_text v s
same_text none null = true
same_text none _ = false

unfoldable pub valid_identity : Option Pending → Fields → Bool
valid_identity none body = false
valid_identity (some pending) body =
    is_text (get "requestId" body) pending.request_id
    && same_text pending.correlation_id (get "correlationId" body)

abbrev pub short_text : Value → Bool
short_text v = elim (as_string v) [ none ↦ false | some s ↦ leb (text_length s) 500 ]

-- `data.report` of a success, where it is as documented: its texts.
unfoldable pub report_of : Fields → Option Fields
report_of contents = elim (as_object (get "report" contents)) [
  | none ↦ none
  | some report ↦
      if nat_eq (length (keys report)) 3
        && all (λ k. has_text (get k report) && short_text (get k report))
            ("id" ∷ "title" ∷ "content" ∷ [])
      then some report
      else none
]

abbrev pub fields_of : Value → Fields
fields_of v = elim (as_object v) [ none ↦ end | some fs ↦ fs ]

-- The `safeData` of a valid response, copied key by key.
unfoldable pub checked_data : Outcome → Fields → Option Fields
checked_data success contents = do
  report ← report_of contents
  nat_eq (length (keys contents)) 3
      && is_text (get "resource" contents) "sample-report"
      && is_text (get "action" contents) "read"
  some (
      fields_of (
        object (
          ("resource", get "resource" contents)
          ∷ ("action", get "action" contents)
          ∷ (
            "report",
            object (
                ("id", get "id" report)
                ∷ ("title", get "title" report)
                ∷ ("content", get "content" report)
                ∷ []),
          )
          ∷ [])))
checked_data _ contents = if nat_eq (length (keys contents)) 0 then some end else none

-- The result of a response that keeps its contract.
unfoldable pub checked : Dates → Response → Fields → Option Value
checked dates response body = do
  valid_identity response.pending body
  is_text (get "source" body) "sample" && is_text (get "mode" body) "sample"
  outcome ← outcome_of (get "outcome" body)
  reason ← as_string (get "reasonCode" body)
  includes (reasons outcome) reason && status_matches outcome response.status
  written ← as_string (get "timestamp" body)
  date ← dates.parse written
  explanation ← as_string (get "explanation" body)
  not (is_empty (trim explanation)) && leb (text_length explanation) 500
  contents ← as_object (get "safeData" body)
  safe_data ← checked_data outcome contents
  some (answer outcome reason (trim explanation) written safe_data response.status)

unfoldable pub check_body : Library → Response → String → Value
check_body lib response text = elim (lib.parse_json text) [
  | none ↦ invalid lib.dates response "The Participant sample service returned malformed JSON."
  | some value ↦ elim (as_object value) [
    | none ↦
        invalid lib.dates response "The Participant sample service response must be a JSON object."
    | some body ↦ elim (checked lib.dates response body) [
      | none ↦
          invalid lib.dates response
            "The Participant sample service response did not match the expected identifiers, safe contents, or documented sample contract."
      | some result ↦ result
    ]
  ]
]

unfoldable pub validate_response : Library → Response → Value
validate_response lib response =
    if opt_eq response.status 401
    then answer error "SAMPLE_PARTICIPANT_AUTH_REQUIRED"
        "Participant rejected the server-side Basic Auth credential." (lib.dates.iso response.now)
        end (some 401)
    else elim response.body [
      | none ↦
          invalid lib.dates response
            "The Participant sample service returned an empty or oversized response."
      | some text ↦
          if nat_eq (byte_length text) 0 || not (leb (byte_length text) 65536)
          then invalid lib.dates response
              "The Participant sample service returned an empty or oversized response."
          else check_body lib response text
    ]
