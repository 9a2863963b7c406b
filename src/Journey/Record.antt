-- ===== src/Journey/Record.antt =====
-- Events, evidence and the public view of a run (journey-engine.js, lines 74 to 110).
use facis_zero_trust_demonst.Base.{
  ℕ, String, ◌&&◌, Option, none, some, List, [], ◌∷◌, ◌++◌, Value, object, null, num, str, or_null,
  if◌then◌else◌, ◌==◌, is_none, not, arr, Items, nil, cons,
}
use facis_zero_trust_demonst.Journey.State.{
  Run, Trust, Attestation, Permission, Measurement, FeedEvent, FailedCheck, whole, brief,
}

-- The source writes `detail || ''` and `dataValue || {}`; every caller passes both.
unfoldable pub add_event : ℕ → String → String → Run → Run
add_event now event detail run = record run {
  events = run.events ++ record { event = event; timestamp = now; detail = detail } ∷ [];
  updated_at = now;
}

unfoldable pub add_evidence : ℕ → String → String → Value → Run → Run
add_evidence now event detail content run = record run {
  evidence =
      run.evidence
      ++ record { event = event; timestamp = now; detail = detail; content = content } ∷ [];
  updated_at = now;
}

unfoldable pub public_state : Run → Run
public_state run = record run {
  transport =
      if run.adapter_mode == "http-sample" && not (is_none run.service_request)
      then "Participant sample HTTPS"
      else run.transport;
  owner_id = none;
}

-- Parts of a run as the values that evidence quotes.
abbrev pub text_or_null : Option String → Value
text_or_null = or_null str

abbrev pub trust_value : Trust → Value
trust_value t = object (
    ("zone", str t.zone)
    ∷ ("confidence", str t.confidence)
    ∷ ("attestation", str t.attestation)
    ∷ ("status", str t.status)
    ∷ ("membershipStatus", str t.membership_status)
    ∷ [])

abbrev pub attestation_value : Attestation → Value
attestation_value a = object (
    ("method", str a.method)
    ∷ ("result", str a.result)
    ∷ ("signatureStatus", str a.signature_status)
    ∷ ("measurementStatus", str a.measurement_status)
    ∷ ("timestamp", str a.timestamp)
    ∷ [])

abbrev pub permission_value : Permission → Value
permission_value p =
    object (("name", str p.name) ∷ ("status", str p.status) ∷ ("detail", str p.detail) ∷ [])

abbrev pub measurements_value : List Measurement → Value
measurements_value ms = arr (items ms)
  where
    items : List Measurement → Items
    items [] = nil
    items (m ∷ ms) =
        cons
          (object (
            ("label", str m.label)
            ∷ ("expected", str m.expected)
            ∷ ("actual", str m.actual)
            ∷ ("status", str m.status)
            ∷ []))
          (items ms)

abbrev pub feed_value : FeedEvent → Value
feed_value e = object (
    ("run_id", str e.run_id)
    ∷ ("correlation_id", text_or_null e.correlation_id)
    ∷ ("seq", num e.seq)
    ∷ ("ts", num e.ts)
    ∷ ("source", str e.source)
    ∷ ("kind", str e.kind)
    ∷ (
      "payload",
      object (
          ("state", str e.state)
          ∷ ("detail", str e.detail)
          ∷ ("reason_code", text_or_null e.reason_code)
          ∷ ("rule_id", text_or_null e.rule_id)
          ∷ []),
    )
    ∷ [])

abbrev pub failed_value : Option FailedCheck → Value
failed_value none = null
failed_value (some (brief id name status)) =
    object (("id", str id) ∷ ("name", str name) ∷ ("status", str status) ∷ [])
failed_value (some (whole c)) =
    object (("id", str c.id) ∷ ("name", str c.name) ∷ ("status", str c.status) ∷ [])
