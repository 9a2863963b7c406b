-- ===== src/Participant/Delivered.antt =====
-- What the completion of a request delivers (flows/demonstrator/journey-http-complete.js).
use facis_zero_trust_demonst.Base.{
  bind_some, some_injective, ℕ, String, Bool, true, false, ◌≡◌, ◌≢◌, refl, sym, ◌∙◌, ap, subst,
  Option, none, some, arith, Option-cases, Bool-cases, inl, inr, ◌⊎◌, lookup, ltb, ◌≤◌, Value,
  Fields, str, obj, get, as_object, as_string, is_text, is_text_iff, is_empty, trim, ◌&&◌, all, [],
  ◌∷◌,
}
use facis_zero_trust_demonst.Resource.{Outcome, Report, success, denied, unavailable, error}
use facis_zero_trust_demonst.Journey.State.{Run, Flow, ServiceRequest}
use facis_zero_trust_demonst.Journey.Record.{add_event, add_evidence}
use facis_zero_trust_demonst.Journey.Request.{Pending}
use facis_zero_trust_demonst.Participant.Results.{
  Dates, ServiceResult, read_result, report_in, text_in, safe_data_in, outcome_of, number_of,
  text_of, has_text,
}
use facis_zero_trust_demonst.Participant.Completion.{
  Arrival, awaited, complete, service_result, answered_run, answered_request, terminal_by_outcome,
}
use facis_zero_trust_demonst.Participant.Completed.{complete_stored}

abbrev IsFilled : Value → Type 0
IsFilled v = (s : String) × (v ≡ str s) × (is_empty s ≡ false)

-- A text of the report, which is not blank.
abbrev IsShown : Value → String → Type 0
IsShown v s = (v ≡ str s) × (is_empty (trim s) ≡ false)

-- The object that a service answers with this report, with a reason, an explanation and a date.
pub record IsDelivery (dates : Dates) (fs : Fields) (report : Report) : Type 0 where
  pub outcome : get "outcome" fs ≡ str "success"
  pub reason_code : IsFilled (get "reasonCode" fs)
  pub explanation : IsFilled (get "explanation" fs)
  pub timestamp : (s : String) × (n : ℕ) × (get "timestamp" fs ≡ str s) × (dates.parse s ≡ some n)
  pub safe_data :
      (ds : Fields) × (rs : Fields) × (get "safeData" fs ≡ obj ds)
      × (get "resource" ds ≡ str "sample-report")
      × (get "action" ds ≡ str "read")
      × (get "report" ds ≡ obj rs)
      × IsShown (get "id" rs) report.id
      × IsShown (get "title" rs) report.title
      × IsShown (get "content" rs) report.content
  pub resource : report.resource ≡ "sample-report"
  pub action : report.action ≡ "read"

as_object_obj : (v : Value) (fs : Fields) → as_object v ≡ some fs → v ≡ obj fs
as_object_obj (obj gs) fs e = ap obj (some_injective e)
as_object_obj _ fs e = cc

as_string_str : (v : Value) (s : String) → as_string v ≡ some s → v ≡ str s
as_string_str (str t) s e = ap str (some_injective e)
as_string_str _ s e = cc

text_of-IsFilled : (v : Value) (s : String) → text_of v ≡ some s → IsFilled v
text_of-IsFilled (str t) s e = (t, refl, ground arith)
text_of-IsFilled _ s e = cc

has_text-IsShown : (v : Value) → has_text v ≡ true → (s : String) × IsShown v s
has_text-IsShown (str t) e = (t, (refl, ground arith))
has_text-IsShown _ e = cc

outcome_success : (v : Value) → outcome_of v ≡ some success → v ≡ str "success"
outcome_success v e = elim (Bool-cases (is_text v "success")) [
  | inl same ↦ (is_text_iff v "success").0 same
  | inr other ↦ ground arith
]

-- What is read of a refusal, and of a success.
module _ (dates : Dates) (value : Value) (r : ServiceResult) where
  Parts : Type 0
  Parts =
      (fs : Fields) × (ds : Fields) × (value ≡ obj fs)
      × (outcome_of (get "outcome" fs) ≡ some r.outcome)
      × IsFilled (get "reasonCode" fs)
      × IsFilled (get "explanation" fs)
      × ((s : String) × (n : ℕ) × (get "timestamp" fs ≡ str s) × (dates.parse s ≡ some n))
      × (get "safeData" fs ≡ obj ds)
      × (safe_data_in r.outcome ds ≡ some r.safe_data)

  read_parts : read_result dates value ≡ some r → Parts
  unfolding read_result Parts
  read_parts e =
      let (fs, is_obj, e1) = bind_some (as_object value) _ e in
      let (o, is_outcome, e2) = bind_some (outcome_of (get "outcome" fs)) _ e1 in
      let (reason, is_reason, e3) = bind_some (text_of (get "reasonCode" fs)) _ e2 in
      let (text, explained, e4) = bind_some (text_of (get "explanation" fs)) _ e3 in
      let (written, dated, e5) = bind_some (as_string (get "timestamp" fs)) _ e4 in
      let (n, parsed, e6) = bind_some (dates.parse written) _ e5 in
      let (ds, contents, e7) = bind_some (as_object (get "safeData" fs)) _ e6 in
      let (safe, given, e8) = bind_some (safe_data_in o ds) _ e7 in
      let whole = some_injective e8 in
      let same : o ≡ r.outcome = ap (λ (r : ServiceResult). r.outcome) whole in
      let stored : safe ≡ r.safe_data = ap (λ (r : ServiceResult). r.safe_data) whole in
      (
        fs,
        ds,
        as_object_obj value fs is_obj,
        is_outcome ∙ ap some same,
        text_of-IsFilled _ reason is_reason,
        text_of-IsFilled _ text explained,
        (written, n, as_string_str _ written dated, parsed),
        as_object_obj _ ds contents,
        subst (λ o. safe_data_in o ds ≡ some r.safe_data) same (given ∙ ap some stored),
      )

text_in-IsShown : (v : Value) (s : String) → IsShown v s → IsShown v (text_in v)
text_in-IsShown v s (e, filled) = subst (λ t. IsShown v t) (sym (ap text_in e)) (e, filled)

three : (a b c : Bool) → (a && (b && (c && true))) ≡ true → (a ≡ true) × (b ≡ true) × (c ≡ true)
three a b c h = (ground arith, ground arith, ground arith)

report_in-IsShown :
    (ds : Fields) (report : Report)
    → report_in ds ≡ some report
    → (rs : Fields) × (get "resource" ds ≡ str "sample-report")
      × (get "action" ds ≡ str "read")
      × (get "report" ds ≡ obj rs)
      × IsShown (get "id" rs) report.id
      × IsShown (get "title" rs) report.title
      × IsShown (get "content" rs) report.content
      × (report.resource ≡ "sample-report")
      × (report.action ≡ "read")
unfolding report_in
report_in-IsShown ds report e =
    elim (Bool-cases
      (is_text (get "resource" ds) "sample-report" && is_text (get "action" ds) "read")) [
        | inr other ↦ cc (rw other at e)
        | inl named ↦ elim (Option-cases (as_object (get "report" ds))) [
          | inl missing ↦ cc (rw (named, missing) at e)
          | inr (rs, there) ↦
              let tests = all (λ k. has_text (get k rs)) ("id" ∷ "title" ∷ "content" ∷ []) in
              elim (Bool-cases tests) [
                | inr blank ↦ cc (rw (named, there, blank) at e)
                | inl full ↦
                    let same = some_injective (rw (named, there, full) at e) in
                    let (has_id, has_title, has_content) =
                      three (has_text (get "id" rs)) (has_text (get "title" rs))
                        (has_text (get "content" rs)) full in
                    let (i, id) = has_text-IsShown (get "id" rs) has_id in
                    let (t, title) = has_text-IsShown (get "title" rs) has_title in
                    let (c, content) = has_text-IsShown (get "content" rs) has_content in
                    (
                      rs,
                      (is_text_iff _ _).0 (ground (arith, named)),
                      (is_text_iff _ _).0 (ground (arith, named)),
                      as_object_obj _ rs there,
                      subst (λ (r : Report). IsShown (get "id" rs) r.id) same
                          (text_in-IsShown _ i id),
                      subst (λ (r : Report). IsShown (get "title" rs) r.title) same
                          (text_in-IsShown _ t title),
                      subst (λ (r : Report). IsShown (get "content" rs) r.content) same
                          (text_in-IsShown _ c content),
                      sym (ap (λ (r : Report). r.resource) same),
                      sym (ap (λ (r : Report). r.action) same),
                    )
              ]
        ]
      ]

-- A result that is a delivery, in time.
abbrev pub IsTimely : Dates → Pending → Value → ℕ → Report → Type 0
IsTimely dates pending value now report =
    (now ≤ pending.deadline_at) × ((fs : Fields) × (value ≡ obj fs) × IsDelivery dates fs report)

refusal_empty :
    (o : Outcome) (ds : Fields) (d : Option Report)
    → safe_data_in o ds ≡ some d
    → o ≢ success
    → d ≡ none
unfolding safe_data_in
refusal_empty success ds d e h = absurd (h refl)
refusal_empty denied ds d e h = ground arith
refusal_empty unavailable ds d e h = ground arith
refusal_empty error ds d e h = ground arith

success_report :
    (ds : Fields) (d : Option Report)
    → safe_data_in success ds ≡ some d
    → (report : Report) × (report_in ds ≡ some report) × (d ≡ some report)
unfolding safe_data_in
success_report ds d e = elim (Option-cases (report_in ds)) [
  | inl missing ↦ cc (rw (missing, safe_data_in) at e)
  | inr (report, there) ↦ (report, there, sym (some_injective (rw (there, safe_data_in) at e)))
]

read_result-IsDelivery :
    (dates : Dates) (value : Value) (r : ServiceResult)
    → read_result dates value ≡ some r
    → r.outcome ≡ success
    → (fs : Fields) × (report : Report) × (value ≡ obj fs)
      × IsDelivery dates fs report
      × (r.safe_data ≡ some report)
unfolding Parts
read_result-IsDelivery dates value r e succeeds =
    let (fs, ds, there, out, reason, explained, dated, contents, given) =
      read_parts dates value r e in
    let (report, found, stored) =
      success_report ds r.safe_data
        (subst (λ o. safe_data_in o ds ≡ some r.safe_data) succeeds given) in
    let (rs, resource, action, reported, id, title, content, kind, right) =
      report_in-IsShown ds report found in
    (
      fs,
      report,
      there,
      record {
        outcome = outcome_success _ (out ∙ ap some succeeds);
        reason_code = reason;
        explanation = explained;
        timestamp = dated;
        safe_data = (ds, rs, contents, resource, action, reported, id, title, content);
        resource = kind;
        action = right;
      },
      stored,
    )

abbrev same_texts : Report → Report
same_texts report = record {
  resource = "sample-report";
  action = "read";
  id = report.id;
  title = report.title;
  content = report.content;
}

report_read :
    (ds rs : Fields) (report : Report)
    → get "resource" ds ≡ str "sample-report"
    → get "action" ds ≡ str "read"
    → get "report" ds ≡ obj rs
    → IsShown (get "id" rs) report.id
    → IsShown (get "title" rs) report.title
    → IsShown (get "content" rs) report.content
    → safe_data_in success ds ≡ some (some (same_texts report))
unfolding safe_data_in report_in
report_read ds rs report resource action reported id title content =
    let there : report_in ds ≡ some (same_texts report) =
      rw (resource, action, reported, report_in, id.0, id.1, title.0, title.1, content.0, content.1)
        refl in
    rw (there, safe_data_in) refl

IsDelivery-read_result :
    (dates : Dates) (fs : Fields) (report : Report)
    → IsDelivery dates fs report
    → (r : ServiceResult) × (read_result dates (obj fs) ≡ some r) × (r.outcome ≡ success)
unfolding read_result
IsDelivery-read_result dates fs report d =
    let (reason, coded, long) = d.reason_code in
    let (text, explained, wide) = d.explanation in
    let (s, n, written, parsed) = d.timestamp in
    let (ds, rs, contents, resource, action, reported, id, title, content) = d.safe_data in
    (
      record {
        outcome = success;
        reason_code = reason;
        explanation = text;
        timestamp = n;
        safe_data = some (same_texts report);
        transport_status = number_of (get "transportStatus" fs);
      },
      rw
          (
            d.outcome,
            coded,
            long,
            explained,
            wide,
            written,
            parsed,
            contents,
            report_read ds rs report resource action reported id title content,
          )
          refl,
      refl,
    )

-- The result either is a delivery in time, and its report is kept, or no success, and none is.
abbrev Settles : Dates → Pending → Value → ℕ → ServiceResult → Type 0
Settles dates pending value now r =
    ((report : Report) × IsTimely dates pending value now report
      × (r.outcome ≡ success)
      × (r.safe_data ≡ some report))
    ⊎ ((¬ ((report : Report) × IsTimely dates pending value now report))
        × (r.outcome ≢ success)
        × (r.safe_data ≡ none))

success-cases : (o : Outcome) → (o ≡ success) ⊎ (o ≢ success)
success-cases success = inl refl
success-cases denied = inr (λ e. cc)
success-cases unavailable = inr (λ e. cc)
success-cases error = inr (λ e. cc)

no_delivery :
    (dates : Dates) (pending : Pending) (value : Value) (now : ℕ) (o : Option ServiceResult)
    → read_result dates value ≡ o
    → ((r : ServiceResult) → o ≡ some r → r.outcome ≢ success)
    → ¬ ((report : Report) × IsTimely dates pending value now report)
no_delivery dates pending value now o read fails (report, (_, (fs, there, d))) =
    let (r, given, succeeds) = IsDelivery-read_result dates fs report d in
    fails r (sym read ∙ ap (read_result dates) there ∙ given) succeeds

service_result-Settles :
    (dates : Dates) (pending : Pending) (value : Value) (now : ℕ)
    → Settles dates pending value now (service_result dates pending value now)
unfolding service_result Parts
service_result-Settles dates pending value now = elim (Bool-cases (ltb pending.deadline_at now)) [
  | inl late ↦ rw late (inr ((λ h. ground (arith, late, h.1.0)), (λ e. cc), refl))
  | inr timely ↦ elim (Option-cases (read_result dates value)) [
    | inl unread ↦
        rw (timely, unread)
          (inr (no_delivery dates pending value now none unread (λ r e. cc), (λ e. cc), refl))
    | inr (r, valid) ↦
        rw (timely, valid)
          (elim (success-cases r.outcome) [
            | inl succeeds ↦
                let (fs, report, there, d, stored) =
                  read_result-IsDelivery dates value r valid succeeds in
                inl (report, (ground (arith, timely), (fs, there, d)), succeeds, stored)
            | inr fails ↦
                let (fs, ds, _, _, _, _, _, _, given) = read_parts dates value r valid in
                inr (
                  no_delivery dates pending value now (some r) valid (λ s e.
                      subst (λ (s : ServiceResult). s.outcome ≢ success) (some_injective e) fails),
                  fails,
                  refusal_empty r.outcome ds r.safe_data given fails,
                )
          ])
  ]
]

delivered-success : (o : Outcome) → some (terminal_by_outcome o) ≡ some "Delivered" → o ≡ success
delivered-success success e = refl
delivered-success denied e = cc
delivered-success unavailable e = cc
delivered-success error e = cc

-- A request that is awaited ends its run. Either the result is an object in time that delivers a
-- report: a success with a reason, an explanation and a date, and with the sample report in three
-- texts that are not blank; then the run counts as delivered and keeps this report. Or it is none,
-- and then the run does not count as delivered and keeps no report.
pub complete-IsDelivery :
    (dates : Dates) (arrival : Arrival) (flow : Flow) (user : String) (pending : Pending)
    (run : Run) (request : ServiceRequest)
    → awaited arrival flow ≡ some (user, pending, run, request)
    → (next : Run) × (kept : ServiceRequest) × (lookup user
          (complete dates arrival flow).journey_states
        ≡ some next)
      × (next.terminal ≡ true)
      × (next.service_request ≡ some kept)
      × (((report : Report) × IsTimely dates pending arrival.result arrival.now report
            × (next.terminal_status ≡ some "Delivered")
            × (kept.safe_data ≡ some report))
          ⊎ ((¬ ((report : Report) × IsTimely dates pending arrival.result arrival.now report))
              × (next.terminal_status ≢ some "Delivered")
              × (kept.safe_data ≡ none)))
unfolding answered_run add_event add_evidence
complete-IsDelivery dates arrival flow user pending run request awaits =
    let r = service_result dates pending arrival.result arrival.now in
    (
      _,
      answered_request r arrival.now request,
      complete_stored dates arrival flow user pending run request awaits,
      refl,
      refl,
      elim (service_result-Settles dates pending arrival.result arrival.now) [
        | inl (report, timely, succeeds, stored) ↦
            inl (report, timely, ap (λ o. some (terminal_by_outcome o)) succeeds, stored)
        | inr (late, fails, empty) ↦ inr (late, (λ e. fails (delivered-success r.outcome e)), empty)
      ],
    )
