-- ===== src/Journey/Atlas.antt =====
-- Atlas runs (journey-engine.js, lines 142 to 280): the fixture of a variant, the state of a new run,
-- and the evaluation of one step with its IF-01 events.
use facis_zero_trust_demonst.Base.{
  ℕ, String, Bool, true, false, ◌&&◌, ◌||◌, Option, none, some, List, [], ◌∷◌, ◌++◌, Dict, lookup,
  insert, object, bool, str, modify, if◌then◌else◌, ◌==◌, is_empty, suc,
}
use Prim.Native.String
use facis_zero_trust_demonst.Journey.State.{Run, Check, FeedEvent}
use facis_zero_trust_demonst.Journey.Fixtures.{AtlasStep, AtlasSpec, AdapterConfig}
use facis_zero_trust_demonst.Journey.Record.{add_event, add_evidence, text_or_null, feed_value}
use facis_zero_trust_demonst.Journey.Sections.{skipped}

-- `x || null` and the test `if (x)` for a text that may be null.
abbrev pub or_nothing : Option String → Option String
or_nothing none = none
or_nothing (some s) = if is_empty s then none else some s

abbrev pub is : Option String → String → Bool
is none s = false
is (some t) s = t == s

-- `modeResourceStep`
unfoldable pub mode_resource_step : AdapterConfig → String → AtlasStep → AtlasStep
mode_resource_step config id step =
    if config.mode == "http-sample" && id == "atlas-successful-call" && step.id == "resource"
    then record step {
      name = "Participant sample response";
      source = "participant-sample";
      kind = "application_response";
      detail = "Real sample application response; security steps remain fixtures.";
    }
    else step

abbrev pub presentation_required : String
presentation_required = "presentation-required"

abbrev presentation_reason : String
presentation_reason =
    "Fixture guard-b refuses an unpresented credential and supplies a synthetic OID4VP presentation link; no verification, token issuance or channel step occurs."

abbrev skip_step : AtlasStep → AtlasStep
skip_step step = record step { skip = true }

abbrev refuse_step : AtlasStep → AtlasStep
refuse_step step = record step {
  reason_code = some "POL-PRESENTATION-REQUIRED";
  rule_id = none;
  detail = presentation_reason;
}

-- The changes that `atlasSpecFor` makes to its copy for the variant without a presentation.
unfoldable pub without_presentation : AtlasSpec → AtlasSpec
without_presentation spec = record spec {
  profile = "participant-unpresented";
  reason_code = some "POL-PRESENTATION-REQUIRED";
  reason = presentation_reason;
  steps =
      modify (modify (modify (modify spec.steps 0 skip_step) 1 skip_step) 2 skip_step) 3
        refuse_step;
  presentation_link =
      some "openid4vp://?request_uri=https%3A%2F%2Fzone-b.example%2Ffixture%2Fpresentation-request";
}

unfoldable pub atlas_spec_for : Dict AtlasSpec → String → Option String → Option AtlasSpec
atlas_spec_for fixtures id variant = elim (lookup id fixtures) [
  | none ↦ none
  | some spec ↦ some (if is variant presentation_required then without_presentation spec else spec)
]

-- One IF-01 event of a step; its number is the count of the source's earlier events.
abbrev next_seq : String → Dict ℕ → ℕ
next_seq source sequences = elim (lookup source sequences) [ none ↦ 0 | some n ↦ n ]

unfoldable pub emit_feed : ℕ → AtlasStep → Bool → String → Run → Run
unfolding add_evidence
emit_feed at step blocked event_state run =
    let seq = next_seq step.source run.source_sequences in
    let feed_event : FeedEvent = record {
      run_id = run.run_id;
      correlation_id = run.correlation_id;
      seq = seq;
      ts = at;
      source = step.source;
      kind = step.kind;
      state = event_state;
      detail = step.detail;
      reason_code = or_nothing step.reason_code;
      rule_id = or_nothing step.rule_id;
    } in
    add_evidence at (String.◌++◌ "fixture." step.kind) step.detail
      (object (
        ("fixture", bool true)
        ∷ ("blocked", bool blocked)
        ∷ ("source", str step.source)
        ∷ ("kind", str step.kind)
        ∷ ("state", str event_state)
        ∷ ("reasonCode", text_or_null (or_nothing step.reason_code))
        ∷ ("ruleId", text_or_null (or_nothing step.rule_id))
        ∷ ("contractEvent", feed_value feed_event)
        ∷ []))
      (record run {
        source_sequences = insert step.source (suc seq) run.source_sequences;
        fixture_events = run.fixture_events ++ feed_event ∷ [];
      })

-- The loop over the states of a step.
unfoldable pub emit_all : ℕ → AtlasStep → Bool → List String → Run → Run
emit_all at step blocked [] run = run
emit_all at step blocked (s ∷ states) run =
    emit_all at step blocked states (emit_feed at step blocked s run)

unfoldable pub step_status : AtlasStep → String
step_status step =
    if step.state == "unavailable"
    then "Unavailable"
    else if step.state == "denied" || step.state == "revoked" || step.state == "refused"
    then "Fail"
    else "Pass"

abbrev pub states_of : AtlasStep → List String
states_of step = elim step.states [ none ↦ step.state ∷ [] | some states ↦ states ]

abbrev set_policy : ℕ → String → String → String → Run → Run
set_policy index label detail status run = record run {
  policy_checks =
      modify run.policy_checks index
        (λ _. record { label = label; detail = detail; status = status; step = none });
}

-- The sections that a step's kind and state update.
unfoldable pub show_credential : AtlasStep → String → Run → Run
show_credential step status run =
    if step.kind == "credential_event"
    then set_policy 0 "Credential verification" step.detail status (record run {
      credential = record (run.credential) {
        status = if step.state == "revoked" then "Revoked (fixture)" else "Verified (fixture)";
      };
    })
    else run

unfoldable pub show_token : AtlasStep → Run → Run
show_token step run =
    if step.state == "issued"
    then record run {
      token = some (record { state = "issued"; scope = some "read"; key_bound = true });
    }
    else run

unfoldable pub show_channel : AtlasStep → Run → Run
show_channel step run =
    if step.kind == "channel_state"
    then set_policy 1 "Attested channel" step.detail "Pass" (record run {
      connection = record (run.connection) { status = "Attested (fixture)" };
      trust = record (run.trust) { status = "Fixture channel attested" };
      attestation = record (run.attestation) { result = "Fixture channel attested" };
    })
    else run

unfoldable pub show_decision : AtlasStep → String → Run → Run
show_decision step status run =
    if step.kind == "decision"
    then set_policy 2 "Guard decision" step.detail status (record run {
      permission = record (run.permission) { status = status; detail = step.detail };
    })
    else run

abbrev skip_check : Check → Check
skip_check check = record check {
  status = skipped;
  detail = "Not executed in presentation-required variant.";
}

abbrev settle : String → ℕ → String → Check → Check
settle status at detail check = record check {
  status = status;
  evaluated_at = some at;
  detail = detail;
}

-- `['Fail', 'Unavailable'].includes(check.status)`
abbrev pub includes_blocked : String → Bool
includes_blocked status = "Fail" == status || "Unavailable" == status

-- The check of an executed step, settled.
abbrev pub settle_step : ℕ → AtlasStep → ℕ → Run → Run
settle_step now step index run = record run {
  active_step = suc index;
  checks = modify run.checks index (settle (step_status step) now step.detail);
}

-- A step that is executed.
unfoldable pub execute_step : ℕ → AtlasStep → ℕ → Run → Run
execute_step now step index run =
    let status = step_status step in
    let recorded =
      add_event now "step.completed"
        (String.◌++◌ step.name (String.◌++◌ ": " (String.◌++◌ step.state " (fixture-only).")))
        (emit_all now step (includes_blocked status) (states_of step)
          (settle_step now step index run)) in
    show_decision step status
      (show_channel step (show_token step (show_credential step status recorded)))

-- `evaluateAtlasStep`, for an index of the fixture's steps.
unfoldable pub evaluate_atlas_step : ℕ → AtlasStep → ℕ → Run → Run
evaluate_atlas_step now step index run =
    if step.skip
    then record run { checks = modify run.checks index skip_check }
    else execute_step now step index run
