-- ===== src/Journey/Tests.antt =====
-- The engine on concrete messages (journey-engine.js).
use facis_zero_trust_demonst.Base.{
  includes, ℕ, String, ap, ◌==◌, true, false, ◌≡◌, ◌≢◌, ◌⊎◌, refl, Option, none, some, [], ◌∷◌,
  length, ◌≤◌, arith, Fields, field, end, str, obj, lookup, insert, trim,
}
use facis_zero_trust_demonst.Journey.State.{Flow}
use facis_zero_trust_demonst.Journey.Fixtures.{Scenario, Message}
use facis_zero_trust_demonst.Journey.Scenarios.{sample_scenarios}
use facis_zero_trust_demonst.Journey.Samples.{config, granted, env}
use facis_zero_trust_demonst.Journey.Record.{add_event, add_evidence, public_state}
use facis_zero_trust_demonst.Journey.Sections.{
  pending_policy_checks, reveal_policy_checks, skip_later_sections,
}
use facis_zero_trust_demonst.Journey.Sample.{check_definitions, fresh_sample_run, new_sample_run}
use facis_zero_trust_demonst.Journey.SampleStep.{
  initial_refusal_step, credential_step, trust_step, measurements_step, apply_step, skip_from,
  fail_run, grant_run,
}
use facis_zero_trust_demonst.Journey.Request.{pend_run, expire_run, expire, outgoing, strip_slash}
use facis_zero_trust_demonst.Journey.Atlas.{atlas_spec_for}
use facis_zero_trust_demonst.Journey.Handler.{refused, reply_state, store, remove}
use facis_zero_trust_demonst.Journey.Start.{start_atlas, start_sample, normal_scenario}
use facis_zero_trust_demonst.Journey.Commands.{
  reset_command, next_atlas, run_sample_step, next_sample, next_command, start_command,
}
use facis_zero_trust_demonst.Journey.Engine.{
  handle, admits, latest, current_run, expire_current, history_of, remember, run_command,
  content_of, command_id_of, after_deadline, operator, observer,
}
use facis_zero_trust_demonst.Journey.Gate.{settled, handle-refused, handle-observer}
use facis_zero_trust_demonst.Journey.Replay.{IsCommand, handle-replay, handle_history_bound}
use facis_zero_trust_demonst.Journey.Soundness.{FlowIsSound}
use facis_zero_trust_demonst.Journey.Handled.{handle-FlowIsSound}

engine : Unit {0}
unfolding add_event add_evidence public_state pending_policy_checks reveal_policy_checks
    skip_later_sections check_definitions fresh_sample_run new_sample_run initial_refusal_step
    credential_step trust_step measurements_step apply_step skip_from fail_run grant_run pend_run
    expire_run expire outgoing strip_slash atlas_spec_for reply_state store remove start_atlas
    start_sample reset_command next_atlas run_sample_step next_sample next_command start_command
    handle admits latest current_run expire_current remember run_command content_of command_id_of
    after_deadline lookup insert trim settled normal_scenario
engine = tt

abbrev revoked : Scenario
revoked = record granted {
  id = "revoked-credential";
  stop_step = some 3;
  fail_status = "Fail";
  result = "failure";
  terminal_status = "Refused";
}

abbrev ask : String → String → Fields → Message
ask role type content = record {
  type = str type;
  content = obj content;
  viewer = some (record { user_id = some "ann"; role = role; scope = "oidc-review" });
  scenarios = ("successful-access", granted) ∷ ("revoked-credential", revoked) ∷ [];
  aliases = ("revoked", "revoked-credential") ∷ [];
  atlas_fixtures = [];
  config = config;
}

abbrev empty : Flow
empty = record { journey_states = []; journey_command_history = [] }

abbrev start : Message
start = ask operator "start" (field "commandId" (str "c1") (field "scenario" (str "revoked") end))

abbrev next : String → Message
next id = ask operator "next" (field "commandId" (str id) (field "runId" (str "run-1") end))

abbrev after_start : Flow
after_start = (handle env start empty).0

-- The scenario that stops at its third step ends there.
abbrev after_two : Flow
after_two = (handle env (next "c3") (handle env (next "c2") after_start).0).0

abbrev result_of : Flow → Option String
result_of flow = elim (lookup "ann" flow.journey_states) [ none ↦ none | some run ↦ run.result ]

ended : (result_of after_start ≡ none) × (result_of after_two ≡ some "failure")
unfolding engine
ended = (refl, refl)

abbrev look : Message
look = ask observer "status" end

abbrev meddle : Message
meddle = ask observer "next" end

handle-FlowIsSound_example : FlowIsSound (handle env start empty).0
handle-FlowIsSound_example = handle-FlowIsSound env start empty tt

start-IsCommand : IsCommand start "ann"
unfolding engine
start-IsCommand = record {
  admitted = refl;
  known = refl;
  operation = refl;
  not_status = refl;
  configured = refl;
  identified = refl;
}

start_kept : includes (history_of "ann" (handle env start empty).0) (command_id_of start) ≡ true
unfolding engine
start_kept = refl

handle-replay_example :
    let flow = (handle env start empty).0 in
    (includes (history_of "ann" flow) (command_id_of start) ≡ true)
    × ((handle env start flow).1.reply
        ≡ refused "DUPLICATE_COMMAND" "This Journey command was already processed.")
    × ((handle env start flow).0 ≡ settled env start flow)
handle-replay_example =
    handle-replay env env start "ann" empty (handle env start empty).0 start-IsCommand start_kept

handle_history_bound_example : length (history_of "ann" (handle env start empty).0) ≤ 100
unfolding lookup
handle_history_bound_example = handle_history_bound env start empty "ann" (omega arith)

observer_no_operator : observer ≢ operator
observer_no_operator e = let same : false ≡ true = ap (λ s. s == operator) e in cc

handle-observer_example :
    (((handle env meddle empty).0 ≡ empty)
      ⊎ ((handle env meddle empty).0 ≡ settled env meddle empty))
    × ((handle env meddle empty).1.request ≡ none)
handle-observer_example =
    handle-observer env meddle empty
      (record { user_id = some "ann"; role = observer; scope = "oidc-review" }) refl
      observer_no_operator

abbrev stale : Message
stale = ask operator "next" (field "commandId" (str "c9") (field "runId" (str "other") end))

stale_refused :
    (handle env stale after_start).1.reply
    ≡ refused "STALE_RUN" "The command runId does not match the active Journey."
unfolding engine
stale_refused = refl

handle-refused_example :
    ((handle env stale after_start).0.journey_states ≡ after_start.journey_states)
    ⊎ ((handle env stale after_start).0.journey_states
        ≡ (settled env stale after_start).journey_states)
handle-refused_example =
    handle-refused env stale after_start "STALE_RUN"
      "The command runId does not match the active Journey." stale_refused

-- Every registered scenario ends at its step, with its own result.
abbrev sample : String → String → Fields → Message
sample type id content = record (ask operator type content) { scenarios = sample_scenarios }

abbrev played : String → Flow
played id =
    let go : String → Flow → Flow = λ c flow.
      (handle env (sample "next" id (field "commandId" (str c) (field "runId" (str "run-1") end)))
        flow).0 in
    go "6" (
      go "5" (
        go "4" (
          go "3" (
            go "2"
              (handle env
                (sample "start" id (field "commandId" (str "1") (field "scenario" (str id) end)))
                empty).0))))

abbrev end_of : Flow → Option String × Option ℕ
end_of flow = elim (lookup "ann" flow.journey_states) [
  | none ↦ (none, none)
  | some run ↦ (run.terminal_status, some run.active_step)
]

ends :
    (end_of (played "successful-access") ≡ (some "Granted", some 6))
    × (end_of (played "revoked-credential") ≡ (some "Refused", some 3))
unfolding engine
ends = (refl, refl)
