-- ===== src/Replacement/Answers.antt =====
-- What passes the check of the resource's response (flows/demonstrator/replacement-adapters.mjs).
use facis_zero_trust_demonst.Base.{
  ℕ, String, Bool, true, false, ◌≡◌, ◌≢◌, refl, sym, subst, ◌⊎◌, if◌then◌else◌, ◌∙◌, ap, arith,
  Value, Fields, get, key_of, keys, length, nat_eq, not, Bool-cases, inl, inr,
}
use facis_zero_trust_demonst.Resource.{Outcome, success, denied, unavailable, error}
use facis_zero_trust_demonst.Participant.Results.{outcome_of}
use facis_zero_trust_demonst.Replacement.{
  Request, Answer, Checked, fail, passed, check, ◌>>=◌, resource_result, answered,
  checked_safe_data, expected_status, is_reason, is_response_to, object_of, response_keys,
}

bind_passed {ℓ κ} :
    {A : Type ℓ} {B : Type κ} (x : Checked A) (f : A → Checked B) {b : B}
    → (x >>= f) ≡ passed b
    → (a : A) × (f a ≡ passed b)
bind_passed (fail code stage) f e = cc
bind_passed (passed a) f e = (a, e)

Checked-cases {ℓ} :
    {A : Type ℓ} (x : Checked A)
    → ((code : String) × (stage : String) × (x ≡ fail code stage)) ⊎ ((a : A) × (x ≡ passed a))
Checked-cases (fail code stage) = inl (code, stage, refl)
Checked-cases (passed a) = inr (a, refl)

passed_injective {ℓ} : {A : Type ℓ} {a b : A} → passed a ≡ passed b → a ≡ b
passed_injective {A = A} {a = a} e =
    ap (λ (x : Checked A). elim x [ fail code stage ↦ a | passed y ↦ y ]) e

unless_passed {ℓ} :
    {A : Type ℓ} (test : Bool) (code stage : String) (x : Checked A) {a : A}
    → (if test then fail code stage else x) ≡ passed a
    → x ≡ passed a
unless_passed true code stage x e = cc
unless_passed false code stage x e = e

when_passed {ℓ} :
    {A : Type ℓ} (test : Bool) (code stage : String) (x : Checked A) {a : A}
    → (if test then x else fail code stage) ≡ passed a
    → x ≡ passed a
when_passed true code stage x e = e
when_passed false code stage x e = cc

abbrev invalid : String
invalid = "REPLACEMENT_RESPONSE_INVALID"

abbrev role : String
role = "protected-resource"

-- A status and an outcome that fit, and a refusal that carries no data.
abbrev pub IsContained : ℕ → Answer → Type 0
IsContained status a =
    (status ≡ expected_status a.outcome) × (a.outcome ≢ success → length (keys a.safe_data) ≡ 0)

empty_data :
    (o : Outcome) (value : Value) (safe : Fields)
    → checked_safe_data o value ≡ passed safe
    → o ≢ success
    → length (keys safe) ≡ 0
unfolding checked_safe_data
empty_data success value safe e h = absurd (h refl)
empty_data denied value safe e h = ground arith
empty_data unavailable value safe e h = ground arith
empty_data error value safe e h = ground arith

answered-IsContained :
    (reason : Value) (status : ℕ) (fs : Fields) (o : Outcome) (a : Answer)
    → answered reason status fs o ≡ passed a
    → IsContained status a
unfolding answered
answered-IsContained reason status fs o a e =
    let safe_data = checked_safe_data o (get "safeData" fs) in
    elim (Bool-cases (nat_eq status (expected_status o))) [
      | inr other ↦ ground (arith, other, e)
      | inl fits ↦ elim (Checked-cases safe_data) [
        | inl (code, stage, refused) ↦ ground (arith, fits, refused, e)
        | inr (safe, given) ↦
            let whole : Answer = record { outcome = o; reason_code = reason; safe_data = safe } in
            let same : answered reason status fs o ≡ passed whole = ground (arith, fits, given) in
            subst (IsContained status) (passed_injective (sym same ∙ e))
              (ground (arith, fits), empty_data o (get "safeData" fs) safe given)
      ]
    ]

-- A response of the resource that passes has the HTTP status of its outcome, and carries data only if
-- that outcome is a success.
pub resource_result-IsContained :
    (value : Value) (request : Request) (status : ℕ) (a : Answer)
    → resource_result value request status ≡ passed a
    → IsContained status a
unfolding resource_result
resource_result-IsContained value request status a e =
    let (fs, after_object) = bind_passed (check (object_of value response_keys) invalid role) _ e in
    let after_test = unless_passed (not (is_response_to request fs)) invalid role _ after_object in
    let (o, after_outcome) =
      bind_passed (check (outcome_of (get "outcome" fs)) invalid role) _ after_test in
    let (reason, after_reason) =
      bind_passed (check (key_of (get "reasonCode" fs)) invalid role) _ after_outcome in
    answered-IsContained (get "reasonCode" fs) status fs o a (
      when_passed (is_reason reason) invalid role (answered (get "reasonCode" fs) status fs o)
        after_reason)
