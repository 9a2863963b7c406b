-- ===== src/Journey/Soundness.antt =====
-- Every message keeps every stored run sound.
use facis_zero_trust_demonst.Base.{
  ℕ, String, false, ◌≡◌, refl, ◌∙◌, Option, none, some, arith, Option-cases, inl, inr, nat_eq, suc,
  length, get_elem?, if-both, if-each, is_none, not, lookup, Entries, insert-Entries,
  delete-Entries, opt_eq, leb, modify, length-modify, ◌-◌, ◌≤◌, ◌&&◌, ◌||◌, ◌==◌, get, is_text,
  if◌then◌else◌, includes,
}
use Prim.Native.String
use facis_zero_trust_demonst.Journey.State.{Run, Check, Flow}
use facis_zero_trust_demonst.Journey.Fixtures.{Scenario, AtlasSpec}
use facis_zero_trust_demonst.Journey.Request.{is_pending}
use facis_zero_trust_demonst.Journey.Record.{add_event}
use facis_zero_trust_demonst.Journey.Sample.{mark}
use facis_zero_trust_demonst.Journey.SampleStep.{apply_step}
use facis_zero_trust_demonst.Journey.Atlas.{atlas_spec_for}
use facis_zero_trust_demonst.Journey.AtlasRun.{last_index}
use facis_zero_trust_demonst.Journey.Handler.{
  Command, Outcome, store, remove, is_active, service_scenarios,
}
use facis_zero_trust_demonst.Journey.Start.{
  start_atlas, start_sample, text_or, key_text, evaluate_at, start_spec, scenario_id_of,
  normal_scenario, allowed_variant, variant_of, profile_allowed, credential_allowed,
}
use facis_zero_trust_demonst.Journey.Commands.{
  reset_command, next_atlas, next_sample, next_command, start_command, run_sample_step,
}
use facis_zero_trust_demonst.Journey.Engine.{run_command}
use facis_zero_trust_demonst.Journey.Invariant.{
  IsSound, IsOpen, new_sample_run-IsSound, apply_step-KeepsCore, add_event-KeepsCore,
  fail_run-IsSound, grant_run-IsSound, pend_run-IsSound, KeepsCore-IsSound, KeepsCore-IsOpen,
}
use facis_zero_trust_demonst.Journey.AtlasInvariant.{
  IsOpenAtlas, evaluate_at-KeepsLife, KeepsLife-IsOpenAtlas, finish_if_last-IsSound,
  started_atlas_run-IsSound,
}

-- Every run is sound and stands under its owner.
abbrev pub FlowIsSound : Flow → Type 0
FlowIsSound flow = Entries IsSound flow.journey_states

pub store-FlowIsSound :
    (user : String) (run : Run) (flow : Flow)
    → IsSound user run
    → FlowIsSound flow
    → FlowIsSound (store user run flow)
unfolding store
store-FlowIsSound user run flow s h = insert-Entries IsSound user run flow.journey_states s h

module _ (c : Command) (flow : Flow) (h : FlowIsSound flow) where
  abbrev Keeps : Outcome → Type 0
  Keeps o = FlowIsSound o.0

  reset_sound : (current : Option Run) → Keeps (reset_command c flow current)
  unfolding reset_command remove
  reset_sound none = h
  reset_sound (some run) =
      if-both Keeps (is_text (get "runId" c.content) run.run_id)
        (delete-Entries IsSound c.user_id flow.journey_states h) h

  saved_sound : (run : Run) → IsSound c.user_id run → FlowIsSound (store c.user_id run flow)
  saved_sound run s = store-FlowIsSound c.user_id run flow s h

  next_atlas_sound : (run : Run) → IsOpenAtlas c.user_id run → Keeps (next_atlas c flow run)
  unfolding next_atlas
  next_atlas_sound run o =
      elim (Option-cases (atlas_spec_for c.msg.atlas_fixtures run.scenario run.variant)) [
        | inl missing ↦ rw (missing, next_atlas) h
        | inr (spec, found) ↦
            let index = run.active_step in
            let moved : Run = record run { active_step = suc index } in
            let sent =
              pend_run-IsSound c.user_id moved (ground arith) c.env c.msg.config (last_index run)
                run.correlation_id (ground arith) in
            let done =
              finish_if_last-IsSound c.user_id c.env.now spec index
                (evaluate_at c.env.now spec index run)
                (KeepsLife-IsOpenAtlas (evaluate_at-KeepsLife c.env.now spec index run) o) in
            rw (found, next_atlas)
              (if-both Keeps (leb (length spec.steps) index) h (
                if-both Keeps
                  (nat_eq (suc index) (length spec.steps)
                    && spec.result == "success"
                    && run.adapter_mode == "http-sample")
                  (saved_sound _ sent) (saved_sound _ done)))
      ]

  run_sample_step_sound :
      (fixture : Scenario) (step : ℕ) (check : Check) (run : Run)
      → step ≤ 6
      → IsSound c.user_id run
      → IsOpen run
      → Keeps (run_sample_step c flow fixture step check run)
  unfolding run_sample_step
  run_sample_step_sound fixture step check run le s o =
      let now = c.env.now in
      let failed = opt_eq fixture.stop_step step in
      let status = if failed then fixture.fail_status else "Pass" in
      let entered : Run = record run {
        active_step = step;
        checks = modify run.checks (step - 1) (mark status now);
      } in
      let entered_sound : IsSound c.user_id entered = record {
        owned = s.owned;
        ended = s.ended;
        waiting = s.waiting;
        six_checks = λ p. length-modify run.checks (step - 1) (mark status now) ∙ s.six_checks p;
        step_in_range = λ p. le;
      } in
      let entered_open : IsOpen entered = record { unfinished = o.unfinished; idle = o.idle } in
      let core = apply_step-KeepsCore now fixture failed step entered in
      let sound = KeepsCore-IsSound c.user_id entered entered_sound core in
      let opened = KeepsCore-IsOpen entered core entered_open in
      let applied = apply_step now fixture failed step entered in
      let last = nat_eq step 6 in
      let http = c.msg.config.mode == "http-sample" in
      let event = add_event-KeepsCore now "step.completed" (String.◌++◌ check.name " passed.") in
      let passed = add_event now "step.completed" (String.◌++◌ check.name " passed.") applied in
      let passed_sound = KeepsCore-IsSound c.user_id applied sound (event applied) in
      let passed_open = KeepsCore-IsOpen applied (event applied) opened in
      if-both Keeps failed
        (saved_sound _ (
          fail_run-IsSound c.user_id applied sound now fixture step (mark status now check) opened))
        (if-both Keeps (last && http)
          (saved_sound _ (
            pend_run-IsSound c.user_id applied sound c.env c.msg.config (step - 1) (some run.run_id)
              opened))
          (saved_sound _ (
            if-both (IsSound c.user_id) last
              (grant_run-IsSound c.user_id passed passed_sound now fixture passed_open)
              passed_sound)))

  start_sample_sound : (current : Option Run) → Keeps (start_sample c flow current)
  unfolding start_sample
  start_sample_sound current =
      let id = scenario_id_of c flow (get "scenario" c.content) in
      let service = normal_scenario (get "serviceScenario" c.content) in
      if-both Keeps (is_active current) h (elim (Option-cases (lookup id c.msg.scenarios)) [
        | inl missing ↦ rw missing h
        | inr (fixture, found) ↦ rw found (
            if-both Keeps (not (includes service_scenarios service)) h (
              saved_sound _
                (new_sample_run-IsSound c.env c.msg.config c.user_id fixture id service)))
      ])

  start_spec_sound :
      (spec : AtlasSpec) (variant : Option String) → Keeps (start_spec c flow spec variant)
  start_spec_sound spec variant =
      let service = text_or "success" (get "serviceScenario" c.content) in
      if-both Keeps (not (profile_allowed spec (get "profile" c.content))) h (
        if-both Keeps (not (credential_allowed spec (get "credentialToRevoke" c.content))) h (
          if-both Keeps (not (includes service_scenarios service)) h (
            saved_sound _
              (started_atlas_run-IsSound c.env c.msg.config c.user_id spec variant service))))

  start_atlas_sound :
      (current : Option Run) (scenario : String) (definition : AtlasSpec)
      → Keeps (start_atlas c flow current scenario definition)
  unfolding start_atlas
  start_atlas_sound current scenario definition =
      let asked =
        allowed_variant definition.variants (variant_of definition (get "variant" c.content)) in
      if-both Keeps (is_active current) h (elim (Option-cases asked) [
        | inl refused ↦ rw refused h
        | inr (variant, allowed) ↦
            rw allowed (elim (Option-cases (atlas_spec_for c.msg.atlas_fixtures scenario variant)) [
              | inl missing ↦ rw missing h
              | inr (spec, found) ↦ rw found (start_spec_sound spec variant)
            ])
      ])

  next_sample_sound :
      (run : Run)
      → IsSound c.user_id run
      → IsOpen run
      → run.atlas_plan ≡ false
      → Keeps (next_sample c flow run)
  unfolding next_sample
  next_sample_sound run s o sample = elim (Option-cases (lookup run.scenario c.msg.scenarios)) [
    | inl missing ↦ rw (missing, next_sample) h
    | inr (fixture, found) ↦
        rw (found, next_sample)
          (if-each Keeps (leb 6 run.active_step) (λ past. h)
            (λ here. elim (Option-cases (get_elem? run.checks run.active_step)) [
              | inl beyond ↦ rw beyond h
              | inr (check, there) ↦
                  rw there (
                    run_sample_step_sound fixture (suc run.active_step) check run (ground arith) s
                      o)
            ]))
  ]

  next_sound :
      (current : Option Run)
      → ((run : Run) → current ≡ some run → IsSound c.user_id run)
      → Keeps (next_command c flow current)
  unfolding next_command
  next_sound none s = h
  next_sound (some run) s = if-both Keeps (not (is_text (get "runId" c.content) run.run_id)) h (
      if-each Keeps (run.terminal || not (is_none run.result)) (λ over. h)
        (λ unended.
          if-each Keeps (is_pending run.service_request) (λ busy. h)
            (λ idle.
              if-each Keeps run.atlas_plan
                (λ atlas. next_atlas_sound run (ground (arith, s run refl)))
                (λ sample. next_sample_sound run (s run refl) (ground arith) sample))))

  start_sound : (current : Option Run) → Keeps (start_command c flow current)
  unfolding start_command
  start_sound current =
      let scenario = key_text (get "scenario" c.content) in
      elim (Option-cases (lookup scenario c.msg.atlas_fixtures)) [
        | inl sample ↦ rw (sample, start_command) (start_sample_sound current)
        | inr (definition, atlas) ↦
            rw (atlas, start_command) (start_atlas_sound current scenario definition)
      ]

  pub run_command_sound :
      (type : String) (current : Option Run)
      → ((type == "status") ≡ false → (run : Run) → current ≡ some run → IsSound c.user_id run)
      → (type == "status") ≡ false
      → Keeps (run_command type c current flow)
  unfolding run_command
  run_command_sound type current s command =
      if-both Keeps (type == "start") (start_sound current)
        (if-both Keeps (type == "reset") (reset_sound current) (next_sound current (s command)))
