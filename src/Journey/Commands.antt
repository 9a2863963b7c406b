-- ===== src/Journey/Commands.antt =====
-- The commands `reset` and `next`, and the handler as a whole (journey-engine.js).
use facis_zero_trust_demonst.Base.{
  ℕ, ◌-◌, Bool, true, ◌&&◌, ◌||◌, not, Option, none, some, modify, if◌then◌else◌, ◌==◌, leb, nat_eq,
  suc, get_elem?, length, lookup, get, is_text, is_none, opt_eq,
}
use Prim.Native.String
use facis_zero_trust_demonst.Journey.State.{Run, Check, Flow}
use facis_zero_trust_demonst.Journey.Fixtures.{Scenario}
use facis_zero_trust_demonst.Journey.Record.{add_event}
use facis_zero_trust_demonst.Journey.Sample.{mark}
use facis_zero_trust_demonst.Journey.SampleStep.{apply_step, fail_run, grant_run}
use facis_zero_trust_demonst.Journey.Request.{is_pending, pend_run}
use facis_zero_trust_demonst.Journey.Atlas.{atlas_spec_for}
use facis_zero_trust_demonst.Journey.AtlasRun.{last_index}
use facis_zero_trust_demonst.Journey.Handler.{
  Command, Outcome, refuse, saved, requested, remove, reply_state,
}
use facis_zero_trust_demonst.Journey.Start.{
  start_atlas, start_sample, evaluate_at, finish_if_last, key_text,
}

module _ (c : Command) (flow : Flow) where
  -- `typeof data.runId !== 'string' || data.runId !== current.runId`, negated.
  abbrev pub is_current : Run → Bool
  is_current run = is_text (get "runId" c.content) run.run_id

  unfoldable pub reset_command : Option Run → Outcome
  reset_command none = (flow, reply_state c.msg none (some c.command_id) true)
  reset_command (some run) =
      if is_current run
      then (remove c.user_id flow, reply_state c.msg none (some c.command_id) true)
      else (flow, refuse "STALE_RUN" "Reset requires the active runId.")

  -- `next` on an Atlas run.
  unfoldable pub next_atlas : Run → Outcome
  next_atlas run = elim (atlas_spec_for c.msg.atlas_fixtures run.scenario run.variant) [
    | none ↦ (flow, refuse "SCENARIO_UNAVAILABLE" "The active Atlas fixture is unavailable.")
    | some spec ↦
        let index = run.active_step in
        if leb (length spec.steps) index
        then (flow, refuse "INVALID_TRANSITION" "No later fixture step exists.")
        else if nat_eq (suc index) (length spec.steps)
            && spec.result == "success"
            && run.adapter_mode == "http-sample"
        then requested c flow run.correlation_id (
            pend_run c.env c.msg.config (last_index run) run.correlation_id
              (record run { active_step = suc index }))
        else saved c flow
            (finish_if_last c.env.now spec index (evaluate_at c.env.now spec index run))
  ]

  -- A step of a sample run that exists: `check` is its check before it is marked.
  unfoldable pub run_sample_step : Scenario → ℕ → Check → Run → Outcome
  run_sample_step fixture step check run =
      let now = c.env.now in
      let failed = opt_eq fixture.stop_step step in
      let last = nat_eq step 6 in
      let http = c.msg.config.mode == "http-sample" in
      let marked : Check = mark (if failed then fixture.fail_status else "Pass") now check in
      let entered = record run {
        active_step = step;
        checks =
            modify run.checks (step - 1)
              (mark (if failed then fixture.fail_status else "Pass") now);
      } in
      let applied = apply_step now fixture failed step entered in
      if failed
      then saved c flow (fail_run now fixture step marked applied)
      else if last && http
      then requested c flow (some run.run_id)
          (pend_run c.env c.msg.config (step - 1) (some run.run_id) applied)
      else let passed =
          add_event now "step.completed" (String.◌++◌ check.name " passed.") applied in
        saved c flow (if last then grant_run now fixture passed else passed)

  -- `next` on a sample run. (A run of six checks has the check of each step up to the sixth; without
  -- it the source would throw.)
  unfoldable pub next_sample : Run → Outcome
  next_sample run = elim (lookup run.scenario c.msg.scenarios) [
    | none ↦
        (flow, refuse "SCENARIO_UNAVAILABLE" "The active sample scenario adapter is unavailable.")
    | some fixture ↦
        if leb 6 run.active_step
        then (flow, refuse "INVALID_TRANSITION" "No later Journey step exists.")
        else elim (get_elem? run.checks run.active_step) [
          | none ↦ (flow, refuse "INVALID_TRANSITION" "No later Journey step exists.")
          | some check ↦ run_sample_step fixture (suc run.active_step) check run
        ]
  ]

  -- `next`: the tests that both kinds of run share, then the step.
  unfoldable pub next_command : Option Run → Outcome
  next_command none = (flow, refuse "NO_ACTIVE_RUN" "Start a Journey before continuing.")
  next_command (some run) =
      if not (is_current run)
      then (flow, refuse "STALE_RUN" "The command runId does not match the active Journey.")
      else if run.terminal || not (is_none run.result)
      then (flow, refuse "INVALID_TRANSITION" "The Journey is already complete.")
      else if is_pending run.service_request
      then (
        flow,
        refuse "REQUEST_IN_PROGRESS" "The final Participant sample HTTPS request is still pending.",
      )
      else if run.atlas_plan
      then next_atlas run
      else next_sample run

  unfoldable pub start_command : Option Run → Outcome
  start_command current =
      let scenario = key_text (get "scenario" c.content) in
      elim (lookup scenario c.msg.atlas_fixtures) [
        | some definition ↦ start_atlas c flow current scenario definition
        | none ↦ start_sample c flow current
      ]
