-- ===== src/Lifecycle/Requests.antt =====
-- What a lifecycle command does that comes again, and one that is refused (ztd-lifecycle.js).
use facis_zero_trust_demonst.Base.{
  property, includes, Bool-cases, true, sym, subst, String, false, ◌≡◌, ◌≢◌, refl, ◌⊎◌, ◌↔◌, ◌∙◌,
  ap, ◌≤◌, none, some, [], ◌∷◌, arith, length, Dict, Value, null, str, lookup, inl, inr,
  Option-cases,
}
use facis_zero_trust_demonst.Lifecycle.Command.{validate}
use facis_zero_trust_demonst.Lifecycle.Results.{Result, fields, action, result}
use facis_zero_trust_demonst.Lifecycle.Jobs.{
  Job, Jobs, job_of, lookup-store, new_job, inherited_names, HasRoom,
}
use facis_zero_trust_demonst.Lifecycle.Node.{
  Handled, on_input, run_valid, accept, refuse, finish, usable_text, id_text, with_result,
}

nil_cases : (errors : Dict Value) → (errors ≡ []) ⊎ (errors ≢ [])
nil_cases [] = inl refl
nil_cases (e ∷ errors) = inr (λ h. cc)

module _ (command : Value) (jobs : Jobs) where
  abbrev duplicate : Result
  duplicate = result command false null (some (action (str "duplicateRequest")))

  valid_step :
      validate command ≡ []
      → on_input command jobs ≡ run_valid command (id_text (property "requestId" command)) jobs
  unfolding on_input
  valid_step valid = ground arith

  refused_step :
      validate command ≢ [] → on_input command jobs ≡ refuse command (validate command) jobs
  unfolding on_input
  refused_step invalid = ground arith

  new_step :
      (id : String)
      → lookup id jobs ≡ none
      → includes inherited_names id ≡ false
      → run_valid command id jobs ≡ accept command id jobs
  unfolding run_valid
  new_step id new own = ground arith

  seen_step :
      (id : String) (job : Job)
      → lookup id jobs ≡ some job
      → run_valid command id jobs ≡ record { reply = duplicate; jobs = jobs; child = none }
  unfolding run_valid
  seen_step id job seen = ground arith

  inherited_step :
      (id : String)
      → lookup id jobs ≡ none
      → includes inherited_names id ≡ true
      → run_valid command id jobs ≡ record { reply = duplicate; jobs = jobs; child = none }
  unfolding run_valid
  inherited_step id new inherited = ground arith

-- A script is started exactly for a valid command whose identifier names no kept job and is none of
-- the names that every object inherits.
pub on_input-starts_iff :
    (command : Value) (jobs : Jobs)
    → ((on_input command jobs).child ≢ none) ↔ (
        (validate command ≡ [])
        × (lookup (id_text (property "requestId" command)) jobs ≡ none)
        × (includes inherited_names (id_text (property "requestId" command)) ≡ false))
unfolding refuse accept
on_input-starts_iff command jobs =
    let id = id_text (property "requestId" command) in
    elim (nil_cases (validate command)) [
      | inr invalid ↦
          rw (refused_step command jobs invalid)
            (λ started. absurd (started refl), λ h. absurd (invalid h.0))
      | inl valid ↦ elim (Option-cases (lookup id jobs)) [
        | inl new ↦ elim (Bool-cases (includes inherited_names id)) [
          | inr own ↦
              rw (valid_step command jobs valid, new_step command jobs id new own)
                (λ started. (valid, new, own), λ h. λ e. cc)
          | inl inherited ↦
              rw (valid_step command jobs valid, inherited_step command jobs id new inherited)
                (λ started. absurd (started refl), λ h. cc)
        ]
        | inr (job, seen) ↦
            rw (valid_step command jobs valid, seen_step command jobs id job seen)
              (λ started. absurd (started refl), λ h. cc)
      ]
    ]

-- A valid command that comes again right away is refused as a duplicate: it starts no script and
-- changes no job, provided that its identifier is no array index or there was room for it among the
-- kept jobs, since a new array index is listed first and so deleted first.
pub on_input-replay :
    (command : Value) (jobs : Jobs)
    → validate command ≡ []
    → HasRoom (id_text (property "requestId" command)) jobs
    → length jobs ≤ 50
    → let kept = (on_input command jobs).jobs in
      let again = on_input command kept in
      (again.reply ≡ result command false null (some (action (str "duplicateRequest"))))
      × (again.jobs ≡ kept)
      × (again.child ≡ none)
unfolding accept
on_input-replay command jobs valid room h =
    let id = id_text (property "requestId" command) in
    let first = valid_step command jobs valid in
    elim (Option-cases (lookup id jobs)) [
      | inr (job, seen) ↦
          let step = first ∙ seen_step command jobs id job seen in
          refused_again command _ job valid (ap (λ (x : Handled). lookup id x.jobs) step ∙ seen)
      | inl new ↦ elim (Bool-cases (includes inherited_names id)) [
        | inr own ↦
            let step = first ∙ new_step command jobs id new own in
            refused_again command _ new_job valid (
              ap (λ (x : Handled). lookup id x.jobs) step
              ∙ lookup-store id (λ job. new_job) jobs own room h)
        | inl inherited ↦
            let step = first ∙ inherited_step command jobs id new inherited in
            let same : (on_input command jobs).jobs ≡ jobs = ap (λ (x : Handled). x.jobs) step in
            subst
              (λ (kept : Jobs).
                ((on_input command kept).reply
                  ≡ result command false null (some (action (str "duplicateRequest"))))
                × ((on_input command kept).jobs ≡ kept)
                × ((on_input command kept).child ≡ none))
              (sym same)
              (ap (λ (x : Handled). x.reply) step, same, ap (λ (x : Handled). x.child) step)
      ]
    ]
  where
    refused_again :
        (command : Value) (kept : Jobs) (job : Job)
        → validate command ≡ []
        → lookup (id_text (property "requestId" command)) kept ≡ some job
        → ((on_input command kept).reply
            ≡ result command false null (some (action (str "duplicateRequest"))))
          × ((on_input command kept).jobs ≡ kept)
          × ((on_input command kept).child ≡ none)
    refused_again command kept job valid seen =
        let step =
          valid_step command kept valid
          ∙ seen_step command kept (id_text (property "requestId" command)) job seen in
        (
          ap (λ (x : Handled). x.reply) step,
          ap (λ (x : Handled). x.jobs) step,
          ap (λ (x : Handled). x.child) step,
        )

-- A command that is refused starts no script, and where its identifier is a text that is not empty,
-- the refusal is stored as the result of that job, in place of a result it had. The identifier is none
-- that objects inherit, and it is no array index or there is room for it among the kept jobs.
pub on_input-refused :
    (command : Value) (jobs : Jobs) (id : String)
    → validate command ≢ []
    → usable_text (property "requestId" command) ≡ some id
    → includes inherited_names id ≡ false
    → HasRoom id jobs
    → length jobs ≤ 50
    → let handled = on_input command jobs in
      (handled.child ≡ none)
      × (handled.reply ≡ result command false null (some (fields (validate command))))
      × (lookup id handled.jobs ≡ some (with_result handled.reply (job_of id jobs)))
unfolding on_input refuse finish
on_input-refused command jobs id invalid usable own room h =
    let refusal = result command false null (some (fields (validate command))) in
    rw (refused_step command jobs invalid, usable, refuse)
      (refl, refl, lookup-store id (with_result refusal) jobs own room h)
