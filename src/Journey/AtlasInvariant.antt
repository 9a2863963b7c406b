-- ===== src/Journey/AtlasInvariant.antt =====
-- The invariant of runs under the operations of Atlas runs.
use facis_zero_trust_demonst.Base.{
  ℕ, String, Bool, true, false, ◌≡◌, refl, ◌∙◌, Option, none, some, List, [], ◌∷◌, arith,
  Option-cases, inl, inr, nat_eq, suc, length, get_elem?, if-both,
}
use Prim.Native.String
use facis_zero_trust_demonst.Resource.{Decision}
use facis_zero_trust_demonst.Journey.State.{Run}
use facis_zero_trust_demonst.Journey.Fixtures.{AtlasSpec, AtlasStep, AdapterConfig, Env}
use facis_zero_trust_demonst.Journey.Request.{is_pending}
use facis_zero_trust_demonst.Journey.Record.{add_event}
use facis_zero_trust_demonst.Journey.Atlas.{
  is, or_nothing, presentation_required, emit_feed, emit_all, step_status, states_of,
  show_credential, show_token, show_channel, show_decision, execute_step, evaluate_atlas_step,
  settle_step, includes_blocked,
}
use facis_zero_trust_demonst.Journey.AtlasRun.{
  new_atlas_run, finish_resource, finish_spec, finish_atlas,
}
use facis_zero_trust_demonst.Journey.Start.{
  evaluate_at, first_steps, finish_if_last, started_atlas_run,
}
use facis_zero_trust_demonst.Journey.Invariant.{IsSound}

-- The fields that the evaluation of a step leaves alone.
pub record KeepsLife (run next : Run) : Type 0 where
  pub owner : next.owner_id ≡ run.owner_id
  pub result : next.result ≡ run.result
  pub terminal : next.terminal ≡ run.terminal
  pub request : next.service_request ≡ run.service_request
  pub plan : next.atlas_plan ≡ run.atlas_plan

KeepsLife-refl : (run : Run) → KeepsLife run run
KeepsLife-refl run = ground arith

KeepsLife-trans : {r s t : Run} → KeepsLife r s → KeepsLife s t → KeepsLife r t
KeepsLife-trans p q = record {
  owner = q.owner ∙ p.owner;
  result = q.result ∙ p.result;
  terminal = q.terminal ∙ p.terminal;
  request = q.request ∙ p.request;
  plan = q.plan ∙ p.plan;
}

emit_all-KeepsLife :
    (at : ℕ) (step : AtlasStep) (blocked : Bool) (states : List String) (run : Run)
    → KeepsLife run (emit_all at step blocked states run)
unfolding emit_all emit_feed
emit_all-KeepsLife at step blocked [] run = KeepsLife-refl run
emit_all-KeepsLife at step blocked (s ∷ states) run =
    KeepsLife-trans (ground arith)
      (emit_all-KeepsLife at step blocked states (emit_feed at step blocked s run))

show-KeepsLife :
    (step : AtlasStep) (status : String) (run : Run)
    → KeepsLife run (
        show_decision step status
          (show_channel step (show_token step (show_credential step status run))))
unfolding show_decision show_channel show_token show_credential
show-KeepsLife step status run = ground arith

execute_step-KeepsLife :
    (now : ℕ) (step : AtlasStep) (index : ℕ) (run : Run)
    → KeepsLife run (execute_step now step index run)
unfolding execute_step add_event
execute_step-KeepsLife now step index run =
    let settled = settle_step now step index run in
    let blocked = includes_blocked (step_status step) in
    let emitted = emit_all now step blocked (states_of step) settled in
    let recorded =
      add_event now "step.completed"
        (String.◌++◌ step.name (String.◌++◌ ": " (String.◌++◌ step.state " (fixture-only).")))
        emitted in
    let kept : KeepsLife run emitted =
      KeepsLife-trans {s = settled} (ground arith)
        (emit_all-KeepsLife now step blocked (states_of step) settled) in
    KeepsLife-trans {s = recorded}
      (record {
        owner = kept.owner;
        result = kept.result;
        terminal = kept.terminal;
        request = kept.request;
        plan = kept.plan;
      })
      (show-KeepsLife step (step_status step) recorded)

pub evaluate_atlas_step-KeepsLife :
    (now : ℕ) (step : AtlasStep) (index : ℕ) (run : Run)
    → KeepsLife run (evaluate_atlas_step now step index run)
unfolding evaluate_atlas_step
evaluate_atlas_step-KeepsLife now step index run =
    if-both (KeepsLife run) step.skip (ground arith) (execute_step-KeepsLife now step index run)

pub evaluate_at-KeepsLife :
    (now : ℕ) (spec : AtlasSpec) (index : ℕ) (run : Run)
    → KeepsLife run (evaluate_at now spec index run)
unfolding evaluate_at
evaluate_at-KeepsLife now spec index run = elim (Option-cases (get_elem? spec.steps index)) [
  | inl beyond ↦ rw (beyond, evaluate_at) (KeepsLife-refl run)
  | inr (step, there) ↦ rw (there, evaluate_at) (evaluate_atlas_step-KeepsLife now step index run)
]

first_steps-KeepsLife :
    (now : ℕ) (spec : AtlasSpec) (variant : Option String) (run : Run)
    → KeepsLife run (first_steps now spec variant run)
unfolding first_steps
first_steps-KeepsLife now spec variant run =
    let at = evaluate_at now spec in
    let keeps = evaluate_at-KeepsLife now spec in
    if-both (KeepsLife run) (is variant presentation_required)
      (KeepsLife-trans (keeps 0 run) (
        KeepsLife-trans (keeps 1 (at 0 run))
          (KeepsLife-trans (keeps 2 (at 1 (at 0 run))) (keeps 3 (at 2 (at 1 (at 0 run)))))))
      (keeps 0 run)

-- An open Atlas run of a user.
pub record IsOpenAtlas (user : String) (run : Run) : Type 0 where
  pub owned : run.owner_id ≡ some user
  pub unended : run.result ≡ none
  pub unfinished : run.terminal ≡ false
  pub idle : is_pending run.service_request ≡ false
  pub plan : run.atlas_plan ≡ true

pub KeepsLife-IsOpenAtlas :
    {user : String} {run next : Run}
    → KeepsLife run next
    → IsOpenAtlas user run
    → IsOpenAtlas user next
KeepsLife-IsOpenAtlas k o = ground arith

pub IsOpenAtlas-IsSound : {user : String} {run : Run} → IsOpenAtlas user run → IsSound user run
IsOpenAtlas-IsSound o = ground arith

finish_resource-IsSound :
    (user : String) (now : ℕ) (case_id : String) (d : Decision) (run : Run)
    → IsOpenAtlas user run
    → IsSound user (finish_resource now case_id d run)
unfolding finish_resource
finish_resource-IsSound user now case_id d run o = record {
  owned = o.owned;
  ended = refl;
  waiting = λ h. ground arith;
  six_checks = λ h. ground arith;
  step_in_range = λ h. ground arith;
}

finish_spec-IsSound :
    (user : String) (now : ℕ) (spec : AtlasSpec) (run : Run)
    → IsOpenAtlas user run
    → IsSound user (finish_spec now spec run)
unfolding finish_spec
finish_spec-IsSound user now spec run o = record {
  owned = o.owned;
  ended = refl;
  waiting = λ h. ground arith;
  six_checks = λ h. ground arith;
  step_in_range = λ h. ground arith;
}

finish_atlas-IsSound :
    (user : String) (now : ℕ) (spec : AtlasSpec) (run : Run)
    → IsOpenAtlas user run
    → IsSound user (finish_atlas now spec run)
unfolding finish_atlas
finish_atlas-IsSound user now spec run o =
    elim (Option-cases (or_nothing spec.resource_fixture_case)) [
      | inl none_named ↦ rw (none_named, finish_atlas) (finish_spec-IsSound user now spec run o)
      | inr (case_id, named) ↦
          rw (named, finish_atlas) (finish_resource-IsSound user now case_id _ run o)
    ]

pub finish_if_last-IsSound :
    (user : String) (now : ℕ) (spec : AtlasSpec) (index : ℕ) (run : Run)
    → IsOpenAtlas user run
    → IsSound user (finish_if_last now spec index run)
unfolding finish_if_last
finish_if_last-IsSound user now spec index run o =
    if-both (IsSound user) (nat_eq (suc index) (length spec.steps))
      (finish_atlas-IsSound user now spec run o) (IsOpenAtlas-IsSound o)

abbrev seed_started : String
seed_started = "Atlas P1 fixture journey started from its selected seed."

-- Every Atlas run that a start stores is sound.
pub started_atlas_run-IsSound :
    (env : Env) (config : AdapterConfig) (user : String) (spec : AtlasSpec)
    (variant : Option String) (service_scenario : String)
    → IsSound user (started_atlas_run env config user spec variant service_scenario)
unfolding started_atlas_run new_atlas_run add_event
started_atlas_run-IsSound env config user spec variant service_scenario =
    finish_if_last-IsSound user env.now spec _ _ (
      KeepsLife-IsOpenAtlas (first_steps-KeepsLife env.now spec variant _) (
        if-both (λ r. IsOpenAtlas user (add_event env.now "run.started" seed_started r))
          (is variant presentation_required) (ground arith) (ground arith)))
