-- ===== src/Participant/Results.antt =====
-- The result of a service call (`msg.journeyServiceResult`), as the nodes pass it on and as the
-- completion reads it. Dates are parameters: `Date.parse` and `toISOString`.
use facis_zero_trust_demonst.Base.{
  ◌>>=◌, ℕ, String, Bool, true, false, ◌&&◌, not, Option, none, some, [], ◌∷◌, if◌then◌else◌, Value,
  Fields, get, as_string, as_object, is_text, num, end, trim, is_empty, all,
}
use facis_zero_trust_demonst.Resource.{Outcome, Report, success, denied, unavailable, error}

pub record Dates : Type 0 where
  pub parse : String → Option ℕ
  pub iso : ℕ → String

pub record ServiceResult : Type 0 where
  pub outcome : Outcome
  pub reason_code : String
  pub explanation : String
  pub timestamp : ℕ
  pub safe_data : Option Report
  pub transport_status : Option ℕ

abbrev pub outcome_of : Value → Option Outcome
outcome_of v =
    if is_text v "success"
    then some success
    else if is_text v "denied"
    then some denied
    else if is_text v "unavailable"
    then some unavailable
    else if is_text v "error"
    then some error
    else none

abbrev pub text_of : Value → Option String
text_of v = elim (as_string v) [ none ↦ none | some s ↦ if is_empty s then none else some s ]

abbrev pub number_of : Value → Option ℕ
number_of (num n) = some n
number_of _ = none

abbrev pub has_text : Value → Bool
has_text v = elim (as_string v) [ none ↦ false | some s ↦ not (is_empty (trim s)) ]

abbrev pub text_in : Value → String
text_in v = elim (as_string v) [ none ↦ "" | some s ↦ s ]

-- `safeData.report` of a success.
unfoldable pub report_in : Fields → Option Report
report_in contents =
    if is_text (get "resource" contents) "sample-report" && is_text (get "action" contents) "read"
    then elim (as_object (get "report" contents)) [
      | none ↦ none
      | some report ↦
          if all (λ k. has_text (get k report)) ("id" ∷ "title" ∷ "content" ∷ [])
          then some (record {
            resource = "sample-report";
            action = "read";
            id = text_in (get "id" report);
            title = text_in (get "title" report);
            content = text_in (get "content" report);
          })
          else none
    ]
    else none

abbrev pub is_empty_object : Fields → Bool
is_empty_object end = true
is_empty_object _ = false

-- `safeData` as the outcome asks for it; the inner `none` stands for the empty object.
unfoldable pub safe_data_in : Outcome → Fields → Option (Option Report)
safe_data_in success contents = elim (report_in contents) [ none ↦ none | some r ↦ some (some r) ]
safe_data_in _ contents = if is_empty_object contents then some none else none

-- `validResult ? result`, read field by field.
unfoldable pub read_result : Dates → Value → Option ServiceResult
read_result dates value = do
  result ← as_object value
  outcome ← outcome_of (get "outcome" result)
  reason_code ← text_of (get "reasonCode" result)
  explanation ← text_of (get "explanation" result)
  written ← as_string (get "timestamp" result)
  timestamp ← dates.parse written
  contents ← as_object (get "safeData" result)
  safe_data ← safe_data_in outcome contents
  some (record {
    outcome = outcome;
    reason_code = reason_code;
    explanation = explanation;
    timestamp = timestamp;
    safe_data = safe_data;
    transport_status = number_of (get "transportStatus" result);
  })
