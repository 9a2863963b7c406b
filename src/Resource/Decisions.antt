-- ===== src/Resource/Decisions.antt =====
-- The decision on every request: when the report is released, and what a refusal carries.
use facis_zero_trust_demonst.Base.{
  ℕ, String, Bool, true, ◌≡◌, refl, sym, ◌∙◌, ap, subst, ◌≢◌, ◌⊎◌, ◌↔◌, some, none, Option, Memᴰ,
  List, [], ◌∷◌, ◌++◌, keys, get, Value, str, Fields, All, Entries, lookup-Entries, includes→mem,
  mem→includes, any, not, lookup, join, is_identifier, arith, key_of, Option-cases, Bool-cases, inl,
  inr, false,
}
use facis_zero_trust_demonst.Resource.{
  Context, Decision, success, denied, unavailable, error, Report, fixtures, parts, when,
  summary_text, detail_text, audit_text, reads, audits, details, decide, context_of, case_of, named,
  is_well_formed, is_valid_id, is_known_key, report_of, base_of, decide_case,
  evaluate_fixture_resource,
}
use facis_zero_trust_demonst.Resource.Grants.{
  IsUsable, MayRead, MayAudit, MayReadDetail, reads_iff, audits_iff, decide-success_iff,
}

abbrev pub known_keys : List String
known_keys = "caseId" ∷ "requestId" ∷ "correlationId" ∷ []

-- A text that the identifier pattern admits.
abbrev pub IsId : Value → Type 0
IsId v = (s : String) × (v ≡ str s) × (is_identifier s ≡ true)

pub record IsWellFormed (input : Fields) : Type 0 where
  pub only_known : All (λ k. Memᴰ k known_keys) (keys input)
  pub request_id : IsId (get "requestId" input)
  pub correlation_id : IsId (get "correlationId" input)

-- The case names a registered fixture that may be given the report: as a text, or as an array of one.
abbrev pub IsGranted : Value → Type 0
IsGranted v =
    (case_id : String) × (c : Context) × (key_of v ≡ some case_id)
    × (lookup case_id fixtures ≡ some c)
    × IsUsable c
    × (MayRead c ⊎ MayAudit c)

is_valid_id_iff : (v : Value) → (is_valid_id v ≡ true) ↔ IsId v
is_valid_id_iff (str s) = (λ h. (s, refl, h), λ i. ground (arith, i))
is_valid_id_iff _ = (λ h. cc, λ i. cc (i.1))

only_known_iff :
    (ks : List String)
    → (not (any (λ k. not (is_known_key k)) ks) ≡ true) ↔ All (λ k. Memᴰ k known_keys) ks
only_known_iff [] = (λ _. tt, λ _. refl)
only_known_iff (k ∷ ks) = (
  λ h. (includes→mem known_keys k (ground arith), (only_known_iff ks).0 (ground arith)),
  λ a. ground (arith, mem→includes a.0, (only_known_iff ks).1 a.1),
)

is_well_formed_iff : (input : Fields) → (is_well_formed input ≡ true) ↔ IsWellFormed input
is_well_formed_iff input = (
  λ h. record {
    only_known = (only_known_iff (keys input)).0 (ground arith);
    request_id = (is_valid_id_iff (get "requestId" input)).0 (ground arith);
    correlation_id = (is_valid_id_iff (get "correlationId" input)).0 (ground arith);
  },
  λ w. rw (
    (only_known_iff (keys input)).1 w.only_known,
    (is_valid_id_iff (get "requestId" input)).1 w.request_id,
    (is_valid_id_iff (get "correlationId" input)).1 w.correlation_id,
  ),
)

named-success_iff :
    (base : Decision) (v : Value) (s : String) (o : Option Context)
    → key_of v ≡ some s
    → lookup s fixtures ≡ o
    → ((decide_case base (named s o)).outcome ≡ success) ↔ IsGranted v
named-success_iff base v s none read missing = (λ h. cc, λ g. cc (g.2, g.3))
named-success_iff base v s (some c) read found =
    let rule = decide-success_iff base s c in
    (λ h. (s, c, read, found, (rule.0 h).0, (rule.0 h).1), λ g. rule.1 (same g))
  where
    same : IsGranted v → IsUsable c × (MayRead c ⊎ MayAudit c)
    same (t, d, e, f, usable, may) = let d≡c : d ≡ c = cc in rw (← d≡c) (usable, may)

decide_case-success_iff :
    (base : Decision) (v : Value)
    → ((decide_case base (context_of v)).outcome ≡ success) ↔ IsGranted v
decide_case-success_iff base v = elim (Option-cases (key_of v)) [
  | inl unread ↦
      (λ h. let e = ap (λ k. (decide_case base (case_of k)).outcome) unread in cc, λ g. cc (g.2))
  | inr (s, read) ↦
      subst (λ k. ((decide_case base (case_of k)).outcome ≡ success) ↔ IsGranted v) (sym read)
        (named-success_iff base v s (lookup s fixtures) read refl)
]

-- A decision's status, outcome and data agree.
pub record IsCoherent (d : Decision) : Type 0 where
  pub released : d.outcome ≡ success → (d.status ≡ 200) × (d.safe_data ≢ none)
  pub withheld : d.outcome ≢ success → d.safe_data ≡ none
  pub unavailable_503 : (d.outcome ≡ unavailable) ↔ (d.status ≡ 503)
  pub denied_4xx : d.outcome ≡ denied → (d.status ≡ 400) ⊎ ((d.status ≡ 401) ⊎ (d.status ≡ 403))
  pub no_error : d.outcome ≢ error

-- Every answer is coherent: data is released with 200 and success only, and every refusal, whatever
-- its cause, carries the empty object and the status of its class.
pub evaluate_fixture_resource-IsCoherent :
    (now : ℕ) (input : Fields) → IsCoherent (evaluate_fixture_resource now input)
unfolding evaluate_fixture_resource
evaluate_fixture_resource-IsCoherent now input = ground arith

evaluate_tests :
    (now : ℕ) (input : Fields)
    → ((evaluate_fixture_resource now input).outcome ≡ success) ↔ (
        (is_well_formed input ≡ true)
        × ((decide_case (base_of now input) (context_of (get "caseId" input))).outcome ≡ success))
unfolding evaluate_fixture_resource
evaluate_tests now input = ground arith

-- The report is released exactly when the request has no unknown key and two well-formed
-- identifiers, and names a registered context that is available, verified, current, neither revoked
-- nor invalid, and holds the reader role with the read scope or the auditor role with the audit scope.
pub evaluate_fixture_resource-success_iff :
    (now : ℕ) (input : Fields)
    → ((evaluate_fixture_resource now input).outcome ≡ success)
      ↔ (IsWellFormed input × IsGranted (get "caseId" input))
evaluate_fixture_resource-success_iff now input =
    let tests = evaluate_tests now input in
    let shape = is_well_formed_iff input in
    let granted = decide_case-success_iff (base_of now input) (get "caseId" input) in
    (
      λ h. (shape.0 (tests.0 h).0, granted.0 (tests.0 h).1),
      λ g. tests.1 (shape.1 g.0, granted.1 g.1),
    )

-- The text of a report by the rights of the context.
abbrev pub IsTextFor : Context → String → Type 0
IsTextFor c content =
    (MayRead c × (¬ MayReadDetail c) × (¬ MayAudit c) × (content ≡ "Synthetic report summary."))
    ⊎ ((MayReadDetail c
          × (¬ MayAudit c)
          × (content ≡ "Synthetic report summary. Synthetic detailed findings."))
        ⊎ ((MayRead c
              × (¬ MayReadDetail c)
              × MayAudit c
              × (content ≡ "Synthetic report summary. Synthetic audit trail."))
            ⊎ ((MayReadDetail c
                  × MayAudit c
                  × (content
                      ≡ "Synthetic report summary. Synthetic detailed findings. Synthetic audit trail."))
                ⊎ ((¬ MayRead c) × MayAudit c × (content ≡ "Synthetic audit trail.")))))

details_iff : (c : Context) → (details c ≡ true) ↔ MayReadDetail c
details_iff c = (
  λ h. (
    (reads_iff c).0 (ground arith),
    includes→mem c.roles "resource-detail" (ground arith),
    includes→mem c.scopes "read:detail" (ground arith),
  ),
  λ m. ground (arith, (reads_iff c).1 m.0, mem→includes m.1, mem→includes m.2),
)

lack : {A : Type 0} {b : Bool} → (b ≡ true) ↔ A → b ≡ false → ¬ A
lack rule lacking a = let has = rule.1 a in cc

-- The paragraphs by the three tests.
abbrev paragraphs : Bool → Bool → Bool → List String
paragraphs r d a = when r summary_text ++ when d detail_text ++ when a audit_text

shown :
    (c : Context) (r d a : Bool)
    → reads c ≡ r
    → details c ≡ d
    → audits c ≡ a
    → join " " (parts c) ≡ join " " (paragraphs r d a)
unfolding parts
shown c r d a read detail audit =
    ap (λ r. join " " (paragraphs r (details c) (audits c))) read
    ∙ ap (λ d. join " " (paragraphs r d (audits c))) detail
    ∙ ap (λ a. join " " (paragraphs r d a)) audit

parts-IsTextFor : (c : Context) → MayRead c ⊎ MayAudit c → IsTextFor c (join " " (parts c))
parts-IsTextFor c may = elim (Bool-cases (reads c)) [
  | inr unread ↦ elim (Bool-cases (audits c)) [
    | inl audit ↦ inr (
        inr (
          inr (
            inr (
              lack (reads_iff c) unread,
              (audits_iff c).0 audit,
              shown c false false true unread (ground (arith, unread)) audit,
            ))))
    | inr unaudited ↦ elim may [
      | inl read ↦ absurd (lack (reads_iff c) unread read)
      | inr audit ↦ absurd (lack (audits_iff c) unaudited audit)
    ]
  ]
  | inl read ↦ elim (Bool-cases (details c)) [
    | inl detail ↦ elim (Bool-cases (audits c)) [
      | inl audit ↦ inr (
          inr (
            inr (
              inl (
                (details_iff c).0 detail,
                (audits_iff c).0 audit,
                shown c true true true read detail audit,
              ))))
      | inr unaudited ↦ inr (
          inl (
            (details_iff c).0 detail,
            lack (audits_iff c) unaudited,
            shown c true true false read detail unaudited,
          ))
    ]
    | inr brief ↦ elim (Bool-cases (audits c)) [
      | inl audit ↦ inr (
          inr (
            inl (
              (reads_iff c).0 read,
              lack (details_iff c) brief,
              (audits_iff c).0 audit,
              shown c true false true read brief audit,
            )))
      | inr unaudited ↦ inl (
        (reads_iff c).0 read,
        lack (details_iff c) brief,
        lack (audits_iff c) unaudited,
        shown c true false false read brief unaudited,
      )
    ]
  ]
]

content_lem :
    (now : ℕ) (input : Fields) (s : String) (c : Context)
    → key_of (get "caseId" input) ≡ some s
    → lookup s fixtures ≡ some c
    → (evaluate_fixture_resource now input).outcome ≡ success
    → (r : Report) × ((evaluate_fixture_resource now input).safe_data ≡ some r)
      × (r.content ≡ join " " (parts c))
unfolding evaluate_fixture_resource
content_lem now input s c case found h =
    let same : context_of (get "caseId" input) ≡ some (s, c) =
      ap case_of case ∙ ap (named s) found in
    (report_of s c, ground (arith, same), refl)

-- A released report is exactly the text of the rights that the context has: the summary for a
-- reader, the findings for a reader with the detail role and scope, the trail for an auditor, in this
-- order and with nothing else.
pub evaluate_fixture_resource-IsTextFor :
    (now : ℕ) (input : Fields) (s : String) (c : Context)
    → key_of (get "caseId" input) ≡ some s
    → lookup s fixtures ≡ some c
    → (evaluate_fixture_resource now input).outcome ≡ success
    → (r : Report) × ((evaluate_fixture_resource now input).safe_data ≡ some r)
      × IsTextFor c r.content
evaluate_fixture_resource-IsTextFor now input s c case found h =
    let (r, given, content) = content_lem now input s c case found h in
    let (t, d, e, f, usable, may) = ((evaluate_fixture_resource-success_iff now input).0 h).1 in
    let d≡c : d ≡ c = cc in
    (r, given, subst (IsTextFor c) (sym content) (parts-IsTextFor c (rw (← d≡c) may)))

abbrev pub granted_cases : List String
granted_cases = "reader" ∷ "reader-detail" ∷ "auditor" ∷ "reader-auditor" ∷ []

-- Only these entries of the catalogue pass the tests, by evaluation of each.
granted-Entries :
    (base : Decision)
    → Entries (λ s c. (decide base s c).outcome ≡ success → Memᴰ s granted_cases) fixtures
unfolding decide fixtures
granted-Entries base =
    let none_of : (s : String) → denied ≡ success → Memᴰ s granted_cases = λ s h. cc in
    (
      λ _. Memᴰ.head refl,
      (
        λ _. Memᴰ.tail (Memᴰ.head refl),
        (
          λ _. Memᴰ.tail (Memᴰ.tail (Memᴰ.head refl)),
          (
            λ _. Memᴰ.tail (Memᴰ.tail (Memᴰ.tail (Memᴰ.head refl))),
            (
              none_of _,
              (
                none_of _,
                (
                  none_of _,
                  (none_of _, (none_of _, (none_of _, (none_of _, (none_of _, (λ h. cc, tt)))))),
                ),
              ),
            ),
          ),
        ),
      ),
    )

granted_mem :
    (base : Decision) {s : String}
    → Memᴰ s granted_cases
    → (decide_case base (named s (lookup s fixtures))).outcome ≡ success
unfolding decide fixtures lookup
granted_mem base (Memᴰ.head e) = rw e refl
granted_mem base (Memᴰ.tail (Memᴰ.head e)) = rw e refl
granted_mem base (Memᴰ.tail (Memᴰ.tail (Memᴰ.head e))) = rw e refl
granted_mem base (Memᴰ.tail (Memᴰ.tail (Memᴰ.tail (Memᴰ.head e)))) = rw e refl
granted_mem base (Memᴰ.tail (Memᴰ.tail (Memᴰ.tail (Memᴰ.tail m)))) = elim m [ ]

named-granted :
    (base : Decision) (s : String) (o : Option Context)
    → lookup s fixtures ≡ o
    → (decide_case base (named s o)).outcome ≡ success
    → Memᴰ s granted_cases
named-granted base s none missing h = cc
named-granted base s (some c) found h =
    lookup-Entries (λ s c. (decide base s c).outcome ≡ success → Memᴰ s granted_cases) s c fixtures
      found (granted-Entries base) h

-- Of the thirteen registered cases, a well-formed request is given the report for exactly four: the
-- reader, the reader with detail, the auditor and the reader who is also an auditor.
pub evaluate_fixture_resource-cases :
    (now : ℕ) (input : Fields) (s : String)
    → IsWellFormed input
    → get "caseId" input ≡ str s
    → ((evaluate_fixture_resource now input).outcome ≡ success) ↔ Memᴰ s granted_cases
unfolding key_of
evaluate_fixture_resource-cases now input s w case =
    let tests = evaluate_tests now input in
    let base = base_of now input in
    let P : Value → Type 0 = λ v. (decide_case base (context_of v)).outcome ≡ success in
    (
      λ h. named-granted base s (lookup s fixtures) refl (subst P case (tests.0 h).1),
      λ m. tests.1 ((is_well_formed_iff input).1 w, subst P (sym case) (granted_mem base m)),
    )
