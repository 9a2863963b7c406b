-- ===== src/Resource.antt =====
-- flows/demonstrator/protected-resource-fixture.mjs: the synthetic service contexts and the decision
-- about the protected sample report. The Journey engine embeds the same function.
pub mod Grants
pub mod Decisions
mod Tests
use facis_zero_trust_demonst.Base.{
  ℕ, String, Bool, true, false, ◌&&◌, ◌||◌, not, Option, none, some, List, [], ◌∷◌, ◌++◌, Dict,
  lookup, Value, Fields, keys, get, as_string, key_of, is_identifier, includes, any, join,
  if◌then◌else◌, ◌==◌, nat_eq,
}
use Prim.Native.String

-- A fixture; a field that the source leaves out is `none`, and `expired` is then false.
pub record Context : Type 0 where
  pub label : String
  pub roles : List String
  pub scopes : List String
  pub credential : Option String
  pub expired : Bool
  pub verified : Option Bool
  pub dependency : Option Bool

abbrev plain : String → List String → List String → Context
plain label roles scopes = record {
  label = label;
  roles = roles;
  scopes = scopes;
  credential = none;
  expired = false;
  verified = none;
  dependency = none;
}

unfoldable pub fixtures : Dict Context
fixtures =
    ("reader", plain "Reader" ("resource-reader" ∷ []) ("read" ∷ []))
    ∷ (
      "reader-detail",
      plain "Reader with detail" ("resource-reader" ∷ "resource-detail" ∷ [])
          ("read" ∷ "read:detail" ∷ []),
    )
    ∷ ("auditor", plain "Auditor" ("resource-auditor" ∷ []) ("audit" ∷ []))
    ∷ (
      "reader-auditor",
      plain "Reader and auditor" ("resource-reader" ∷ "resource-auditor" ∷ [])
          ("read" ∷ "audit" ∷ []),
    )
    ∷ ("missing-role", plain "Missing service role" [] ("read" ∷ []))
    ∷ ("unauthorized-role", plain "Unauthorized service role" ("ztd-operator" ∷ []) ("read" ∷ []))
    ∷ ("wrong-scope", plain "Wrong service scope" ("resource-reader" ∷ []) ("profile:read" ∷ []))
    ∷ (
      "detail-only",
      plain "Detail role without reader" ("resource-detail" ∷ []) ("read:detail" ∷ []),
    )
    ∷ (
      "revoked",
      record (plain "Revoked credential" ("resource-reader" ∷ []) ("read" ∷ [])) {
        credential = some "revoked";
      },
    )
    ∷ (
      "invalid",
      record (plain "Invalid credential" ("resource-reader" ∷ []) ("read" ∷ [])) {
        credential = some "invalid";
      },
    )
    ∷ (
      "expired",
      record (plain "Expired access context" ("resource-reader" ∷ []) ("read" ∷ [])) {
        expired = true;
      },
    )
    ∷ (
      "missing-context",
      record (plain "Missing verified context" ("resource-reader" ∷ []) ("read" ∷ [])) {
        verified = some false;
      },
    )
    ∷ (
      "dependency-unavailable",
      record (plain "Security dependency unavailable" ("resource-reader" ∷ []) ("read" ∷ [])) {
        dependency = some false;
      },
    )
    ∷ []

-- The outcomes that a service answer names.
pub data Outcome : Type 0 where
  success denied unavailable error : Outcome

pub record Report : Type 0 where
  pub resource : String
  pub action : String
  pub id : String
  pub title : String
  pub content : String

-- `safeData` is `none` where the source answers the empty object.
pub record Decision : Type 0 where
  pub case_id : Option String
  pub request_id : Value
  pub correlation_id : Value
  pub timestamp : ℕ
  pub outcome : Outcome
  pub status : ℕ
  pub reason_code : String
  pub explanation : String
  pub safe_data : Option Report

-- `x === 'text'` for a field that may be missing, and `x === false`.
abbrev pub opt_is : Option String → String → Bool
opt_is none s = false
opt_is (some t) s = t == s

abbrev pub is_false : Option Bool → Bool
is_false (some false) = true
is_false _ = false

abbrev is_valid_id : Value → Bool
is_valid_id v = elim (as_string v) [ none ↦ false | some s ↦ is_identifier s ]

-- What a context may read: the tests of the function's last part.
abbrev pub reads : Context → Bool
reads c = includes c.roles "resource-reader" && includes c.scopes "read"

abbrev pub audits : Context → Bool
audits c = includes c.roles "resource-auditor" && includes c.scopes "audit"

abbrev pub details : Context → Bool
details c = reads c && includes c.roles "resource-detail" && includes c.scopes "read:detail"

abbrev pub summary_text : String
summary_text = "Synthetic report summary."

abbrev pub detail_text : String
detail_text = "Synthetic detailed findings."

abbrev pub audit_text : String
audit_text = "Synthetic audit trail."

abbrev pub when : Bool → String → List String
when b s = if b then s ∷ [] else []

unfoldable pub parts : Context → List String
parts c = when (reads c) summary_text ++ when (details c) detail_text ++ when (audits c) audit_text

abbrev pub refuse : Decision → String → String → ℕ → Decision
refuse base reason_code explanation status = record base {
  outcome = if nat_eq status 503 then unavailable else denied;
  status = status;
  reason_code = reason_code;
  explanation = explanation;
}

abbrev pub report_of : String → Context → Report
report_of case_id c = record {
  resource = "sample-report";
  action = "read";
  id = String.◌++◌ "FIXTURE-REPORT-" case_id;
  title = String.◌++◌ "Protected Resource fixture: " c.label;
  content = join " " (parts c);
}

-- The tests on the context that was found, in their order.
unfoldable pub decide : Decision → String → Context → Decision
decide base case_id c =
    if is_false c.dependency
    then refuse base "FIXTURE_SECURITY_UNAVAILABLE"
        "The synthetic security dependency is unavailable; protected content is withheld." 503
    else if is_false c.verified
    then refuse base "FIXTURE_CONTEXT_REQUIRED" "A synthetic verified service context is required."
        401
    else if c.expired
    then refuse base "FIXTURE_CONTEXT_EXPIRED" "The synthetic service access context has expired."
        401
    else if opt_is c.credential "revoked"
    then refuse base "FIXTURE_CREDENTIAL_REVOKED" "The synthetic credential has been revoked." 403
    else if opt_is c.credential "invalid"
    then refuse base "FIXTURE_CREDENTIAL_INVALID" "The synthetic credential is invalid." 403
    else if not (includes c.roles "resource-reader") && not (includes c.roles "resource-auditor")
    then refuse base "FIXTURE_ROLE_DENIED" "No permitted synthetic service role is present." 403
    else if not (reads c) && not (audits c)
    then refuse base "FIXTURE_SCOPE_DENIED" "The synthetic role lacks the required resource scope."
        403
    else record base {
      outcome = success;
      status = 200;
      reason_code = "FIXTURE_RESOURCE_RETURNED";
      explanation =
          "Synthetic service rights permit this local fixture response; no live authorization was performed.";
      safe_data = some (report_of case_id c);
    }

abbrev is_known_key : String → Bool
is_known_key k = includes ("caseId" ∷ "requestId" ∷ "correlationId" ∷ []) k

abbrev named : String → Option Context → Option (String × Context)
named s none = none
named s (some c) = some (s, c)

abbrev pub case_of : Option String → Option (String × Context)
case_of none = none
case_of (some s) = named s (lookup s fixtures)

-- `Object.hasOwn(fixtures, caseId)` with the fixture, under the text that `caseId` is read as.
abbrev context_of : Value → Option (String × Context)
context_of v = case_of (key_of v)

abbrev base_of : ℕ → Fields → Decision
base_of now input = record {
  case_id = as_string (get "caseId" input);
  request_id = get "requestId" input;
  correlation_id = get "correlationId" input;
  timestamp = now;
  outcome = denied;
  status = 403;
  reason_code = "";
  explanation = "";
  safe_data = none;
}

abbrev is_well_formed : Fields → Bool
is_well_formed input =
    not (any (λ k. not (is_known_key k)) (keys input))
    && is_valid_id (get "requestId" input)
    && is_valid_id (get "correlationId" input)

abbrev decide_case : Decision → Option (String × Context) → Decision
decide_case base none =
    refuse base "FIXTURE_CASE_UNKNOWN" "Select a registered local fixture case." 400
decide_case base (some (case_id, c)) = decide base case_id c

-- `evaluateFixtureResource(input)` at the time `now`, for an object `input`.
unfoldable pub evaluate_fixture_resource : ℕ → Fields → Decision
unfolding decide
evaluate_fixture_resource now input =
    let base = base_of now input in
    if is_well_formed input
    then decide_case base (context_of (get "caseId" input))
    else refuse base "FIXTURE_INVALID_REQUEST"
        "Fixture input or correlation identifiers are invalid." 400
