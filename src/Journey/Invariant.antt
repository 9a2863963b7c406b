-- ===== src/Journey/Invariant.antt =====
-- What holds of every stored run between two messages.
use facis_zero_trust_demonst.Base.{
  ℕ, String, Bool, true, false, ◌≡◌, refl, ap, Option, none, some, List, [], ◌∷◌, arith, ◌∙◌, ltb,
  length, ◌≤◌, ◌-◌, length-modify, suc, is_none, not, ◌==◌, if-both, zero,
}
use facis_zero_trust_demonst.Journey.State.{Run, Check, ServiceRequest}
use facis_zero_trust_demonst.Journey.Fixtures.{Scenario, AdapterConfig, Env}
use facis_zero_trust_demonst.Journey.Record.{add_event}
use facis_zero_trust_demonst.Journey.Sample.{
  check_definitions, fresh_sample_run, new_sample_run, mark,
}
use facis_zero_trust_demonst.Journey.SampleStep.{
  initial_refusal_step, credential_step, trust_step, measurements_step, apply_step, skip_from,
  fail_run, grant_run,
}
use facis_zero_trust_demonst.Journey.Request.{
  is_pending, pend_run, expire_run, expire_for, expire, set_status,
}

pub record IsSound (user : String) (run : Run) : Type 0 where
  -- the run is stored under its owner
  pub owned : run.owner_id ≡ some user
  -- a run has a result exactly when it has ended
  pub ended : not (is_none run.result) ≡ run.terminal
  -- a run that waits for a response has not ended
  pub waiting : is_pending run.service_request ≡ true → run.terminal ≡ false
  -- a sample run has its six checks, and its step is one of them
  pub six_checks : run.atlas_plan ≡ false → length run.checks ≡ 6
  pub step_in_range : run.atlas_plan ≡ false → run.active_step ≤ 6

expire_run-IsSound :
    (user : String) (now : ℕ) (request : ServiceRequest) (run : Run)
    → IsSound user run
    → IsSound user (expire_run now request run)
unfolding expire_run
expire_run-IsSound user now request run s =
    let n = length-modify run.checks (length run.checks - 1) (mark "Unavailable" now) in
    record {
      owned = s.owned;
      ended = refl;
      waiting = λ h. cc;
      six_checks = λ h. n ∙ s.six_checks h;
      step_in_range = s.step_in_range;
    }

expire_for-IsSound :
    (user : String) (now : ℕ) (run : Run) (request : Option ServiceRequest)
    → IsSound user run
    → IsSound user (expire_for now run request)
expire_for-IsSound user now run none s = s
expire_for-IsSound user now run (some request) s =
    if-both (IsSound user) (request.status == "pending")
      (if-both (IsSound user) (ltb request.deadline_at now)
        (expire_run-IsSound user now request run s) s)
      s

pub expire-IsSound :
    (user : String) (now : ℕ) (run : Run) → IsSound user run → IsSound user (expire now run)
unfolding expire
expire-IsSound user now run s = expire_for-IsSound user now run run.service_request s

pub new_sample_run-IsSound :
    (env : Env) (config : AdapterConfig) (user : String) (fixture : Scenario)
    (scenario_id service_scenario : String)
    → IsSound user (new_sample_run env config user fixture scenario_id service_scenario)
unfolding new_sample_run fresh_sample_run check_definitions
new_sample_run-IsSound env config user fixture scenario_id service_scenario = ground arith

-- The fields that the sections of a step do not touch.
pub record KeepsCore (run next : Run) : Type 0 where
  pub owner : next.owner_id ≡ run.owner_id
  pub result : next.result ≡ run.result
  pub terminal : next.terminal ≡ run.terminal
  pub request : next.service_request ≡ run.service_request
  pub plan : next.atlas_plan ≡ run.atlas_plan
  pub step : next.active_step ≡ run.active_step
  pub checks : next.checks ≡ run.checks

pub apply_step-KeepsCore :
    (now : ℕ) (fixture : Scenario) (failed : Bool) (step : ℕ) (run : Run)
    → KeepsCore run (apply_step now fixture failed step run)
unfolding apply_step initial_refusal_step credential_step trust_step measurements_step
apply_step-KeepsCore now fixture failed step run = ground arith

pub length-skip_from :
    (step : ℕ) (at : Option ℕ) (cs : List Check) → length (skip_from step at cs) ≡ length cs
unfolding skip_from
length-skip_from step at [] = refl
length-skip_from zero at (c ∷ cs) = ap suc (length-skip_from zero at cs)
length-skip_from (suc n) at (c ∷ cs) = ap suc (length-skip_from n at cs)

-- A command works on a run that has not ended and does not wait.
pub record IsOpen (run : Run) : Type 0 where
  pub unfinished : run.terminal ≡ false
  pub idle : is_pending run.service_request ≡ false

module _ (user : String) (run : Run) (s : IsSound user run) where
  pub fail_run-IsSound :
      (now : ℕ) (fixture : Scenario) (step : ℕ) (check : Check)
      → IsOpen run
      → IsSound user (fail_run now fixture step check run)
  unfolding fail_run
  fail_run-IsSound now fixture step check o = record {
    owned = s.owned;
    ended = refl;
    waiting = λ h. ground arith;
    six_checks = λ h. length-skip_from step check.evaluated_at run.checks ∙ s.six_checks h;
    step_in_range = s.step_in_range;
  }

  pub grant_run-IsSound :
      (now : ℕ) (fixture : Scenario) → IsOpen run → IsSound user (grant_run now fixture run)
  unfolding grant_run
  grant_run-IsSound now fixture o = record {
    owned = s.owned;
    ended = refl;
    waiting = λ h. ground arith;
    six_checks = s.six_checks;
    step_in_range = s.step_in_range;
  }

  pub pend_run-IsSound :
      (env : Env) (config : AdapterConfig) (index : ℕ) (correlation_id : Option String)
      → IsOpen run
      → IsSound user (pend_run env config index correlation_id run)
  unfolding pend_run
  pend_run-IsSound env config index correlation_id o = record {
    owned = s.owned;
    ended = s.ended;
    waiting = λ h. o.unfinished;
    six_checks = λ h. length-modify run.checks index (set_status "Pending") ∙ s.six_checks h;
    step_in_range = s.step_in_range;
  }

  pub KeepsCore-IsSound : {next : Run} → KeepsCore run next → IsSound user next
  KeepsCore-IsSound k = ground arith

pub KeepsCore-IsOpen : (run : Run) {next : Run} → KeepsCore run next → IsOpen run → IsOpen next
KeepsCore-IsOpen run k o = ground arith

pub add_event-KeepsCore :
    (now : ℕ) (event detail : String) (run : Run) → KeepsCore run (add_event now event detail run)
unfolding add_event
add_event-KeepsCore now event detail run = record {
  owner = refl;
  result = refl;
  terminal = refl;
  request = refl;
  plan = refl;
  step = refl;
  checks = refl;
}
