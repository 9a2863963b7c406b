-- ===== src/Journey/Engine.antt =====
-- The engine's handler as a whole (journey-engine.js): the role gate, the deadline, the command
-- history, and the dispatch to the commands.
use facis_zero_trust_demonst.Base.{
  ℕ, String, Bool, false, ◌&&◌, ◌||◌, not, Option, none, some, List, [], ◌∷◌, ◌++◌, if◌then◌else◌,
  ◌==◌, ltb, leb, last_n, lookup, Dict, insert, values, includes, Fields, get, as_object, trim,
  text_length, is_empty, is_none, keep, end,
}
use facis_zero_trust_demonst.Journey.State.{Run, Flow}
use facis_zero_trust_demonst.Journey.Fixtures.{Viewer, Message, Env}
use facis_zero_trust_demonst.Journey.Request.{is_overdue, expire}
use facis_zero_trust_demonst.Journey.Handler.{Command, Outcome, refuse, reply_state, store}
use facis_zero_trust_demonst.Journey.Start.{text_or}
use facis_zero_trust_demonst.Journey.Commands.{start_command, reset_command, next_command}

abbrev pub operator : String
operator = "ztd-operator"

abbrev pub observer : String
observer = "ztd-observer"

abbrev pub type_of : Message → String
type_of msg = text_or "" msg.type

-- The person-role gate: a viewer of the review mode, who commands only as an operator.
unfoldable pub admits : String → Option Viewer → Bool
admits type none = false
admits type (some v) =
    v.scope == "oidc-review"
    && includes (operator ∷ observer ∷ []) v.role
    && (type == "status" || v.role == operator)

abbrev pub operations : List String
operations = "status" ∷ "start" ∷ "next" ∷ "reset" ∷ []

-- The latest run that an observer may see: `filter`, then the first of a stable sort by falling
-- `updatedAt`, which is the first entry with the greatest time.
abbrev pub is_observable : Run → Bool
is_observable run = run.atlas_plan && not (is_none run.owner_id)

abbrev pub later : Run → Option Run → Run
later run none = run
later run (some other) = if ltb run.updated_at other.updated_at then other else run

unfoldable pub latest : List Run → Option Run
latest [] = none
latest (run ∷ runs) = some (later run (latest runs))

unfoldable pub current_run : Flow → String → Bool → Option Run
current_run flow user_id observed =
    if observed
    then latest (keep is_observable (values flow.journey_states))
    else lookup user_id flow.journey_states

-- The run after the deadline's test, stored under its owner where the test held.
unfoldable pub expire_current : ℕ → Option Run → Flow → Option Run × Flow
expire_current now none flow = (none, flow)
expire_current now (some run) flow =
    if is_overdue now run
    then elim run.owner_id [
      | none ↦ (some (expire now run), flow)
      | some owner ↦ (some (expire now run), store owner (expire now run) flow)
    ]
    else (some run, flow)

abbrev pub recent : String → Dict (List String) → List String
recent user_id histories = elim (lookup user_id histories) [ none ↦ [] | some history ↦ history ]

abbrev pub history_of : String → Flow → List String
history_of user_id flow = recent user_id flow.journey_command_history

unfoldable pub remember : String → String → Flow → Flow
remember user_id command_id flow = record flow {
  journey_command_history =
      insert user_id (last_n 100 (history_of user_id flow ++ command_id ∷ []))
        flow.journey_command_history;
}

-- The dispatch of an admitted command.
unfoldable pub run_command : String → Command → Option Run → Flow → Outcome
run_command type c current flow =
    if type == "start"
    then start_command c flow current
    else if type == "reset"
    then reset_command c flow current
    else next_command c flow current

abbrev pub valid_command_id : String → Bool
valid_command_id id = not (is_empty id) && leb (text_length id) 120

-- `data` and the trimmed `commandId` of a message.
unfoldable pub content_of : Message → Fields
content_of msg = elim (as_object msg.content) [ none ↦ end | some fields ↦ fields ]

unfoldable pub command_id_of : Message → String
command_id_of msg = trim (text_or "" (get "commandId" (content_of msg)))

abbrev pub command_of : Env → Message → String → Command
command_of env msg user_id = record {
  msg = msg;
  content = content_of msg;
  user_id = user_id;
  command_id = command_id_of msg;
  env = env;
}

-- What follows the deadline's test.
unfoldable pub after_deadline : Env → Message → String → Option Run → Flow → Outcome
after_deadline env msg user_id current flow =
    if type_of msg == "status"
    then (flow, reply_state msg current none false)
    else elim msg.config.error [
      | some e ↦ (flow, refuse e.code e.detail)
      | none ↦
          if not (valid_command_id (command_id_of msg))
          then (flow, refuse "VALIDATION_FAILED" "A commandId of 1 to 120 characters is required.")
          else if includes (history_of user_id flow) (command_id_of msg)
          then (flow, refuse "DUPLICATE_COMMAND" "This Journey command was already processed.")
          else run_command (type_of msg) (command_of env msg user_id) current
              (remember user_id (command_id_of msg) flow)
    ]

abbrev pub user_of : Option Viewer → Option String
user_of none = none
user_of (some v) = elim v.user_id [ none ↦ none | some id ↦ if is_empty id then none else some id ]

abbrev pub is_observed : String → Option Viewer → Bool
is_observed type none = false
is_observed type (some v) = v.role == observer && type == "status"

unfoldable pub handle : Env → Message → Flow → Outcome
handle env msg flow =
    let type = type_of msg in
    if not (admits type msg.viewer)
    then (flow, refuse "UI-NOT-AUTHORISED" "denied")
    else elim (user_of msg.viewer) [
      | none ↦
          (flow, refuse "UNAUTHORIZED" "Verified viewer identity is required for Journey state.")
      | some user_id ↦
          if not (includes operations type)
          then (flow, refuse "UNKNOWN_OPERATION" "Journey supports status, start, next, and reset.")
          else let (current, flow') =
              expire_current env.now (current_run flow user_id (is_observed type msg.viewer))
                flow in
            after_deadline env msg user_id current flow'
    ]
