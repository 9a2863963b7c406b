-- ===== src/Lifecycle/Node.antt =====
-- The handler of a lifecycle command and of its script's output (ztd-lifecycle.js). Logs, the node's
-- status line and the failures of the file system are left out; a chunk of output is a list of bytes.
use facis_zero_trust_demonst.Base.{
  property, ℕ, includes, String, Bool, true, false, Option, none, some, List, [], ◌∷◌, ◌++◌,
  if◌then◌else◌, nat_eq, Dict, lookup, Value, as_string, is_text, null, str, bool, object, is_empty,
}
use Prim.Native.Char.{code}
use Prim.Native.String
use facis_zero_trust_demonst.Lifecycle.Command.{validate}
use facis_zero_trust_demonst.Lifecycle.Results.{
  Result, Library, fields, action, result, from_script,
}
use facis_zero_trust_demonst.Lifecycle.Lines.{split}
use facis_zero_trust_demonst.Lifecycle.Jobs.{Job, Jobs, new_job, store, inherited_names}

-- What the script is started with.
pub record Launch : Type 0 where
  pub action : Value
  pub release : Value
  pub namespace : Value
  pub chart : Option Value
  pub values : Option Value

-- A started script, with the variables that its callbacks share.
pub record Child : Type 0 where
  pub command : Value
  pub request_id : String
  pub launch : Launch
  pub values_kept : Bool
  pub script_result : Value
  pub buffer : String
  pub completed : Bool

-- `line.startsWith(start)`, with what follows the start.
unfoldable pub strip : String → String → Option String
strip String.[] line = some line
strip (String.◌∷◌ c start) String.[] = none
strip (String.◌∷◌ c start) (String.◌∷◌ d line) =
    let rest = strip start line in if nat_eq (code c) (code d) then rest else none

abbrev pub with_result : Result → Job → Job
with_result final job = record job { result = some final }

-- (No script runs under an inherited name, so it is never asked of a job without events.)
abbrev pub with_event : Value → Job → Job
with_event event job = record job {
  events = elim job.events [ none ↦ none | some events ↦ some (events ++ event ∷ []) ];
}

unfoldable pub finish : String → Result → Jobs → Jobs
finish request_id final jobs = store request_id (with_result final) jobs

module _ (lib : Library) where
  -- One line of the output, on the script's last result and the jobs.
  unfoldable pub read_line : String → String → Value × Jobs → Value × Jobs
  read_line request_id line (script, jobs) = elim (strip "EVENT_JSON=" line) [
    | some text ↦ elim (lib.parse text) [
      | none ↦ (script, jobs)
      | some event ↦ (script, store request_id (with_event event) jobs)
    ]
    | none ↦ elim (strip "RESULT_JSON=" line) [
      | some text ↦ elim (lib.parse text) [ none ↦ (null, jobs) | some value ↦ (value, jobs) ]
      | none ↦ (script, jobs)
    ]
  ]

  unfoldable pub read_lines : String → List String → Value × Jobs → Value × Jobs
  read_lines request_id [] state = state
  read_lines request_id (line ∷ lines) state =
      read_lines request_id lines (read_line request_id line state)

  unfoldable pub on_data : List ℕ → Child × Jobs → Child × Jobs
  on_data chunk (child, jobs) =
      let parts = split (String.◌++◌ child.buffer (lib.decode chunk)) in
      let next = read_lines child.request_id parts.0 (child.script_result, jobs) in
      (record child { buffer = parts.1; script_result = next.0 }, next.1)

  unfoldable pub complete : Child × Jobs → Child × Jobs
  complete (child, jobs) = if child.completed then (child, jobs) else (
    record child { completed = true; values_kept = false },
    finish child.request_id (from_script lib child.command child.script_result) jobs,
  )

  unfoldable pub on_error : Child × Jobs → Child × Jobs
  on_error (child, jobs) = complete (record child { script_result = null }, jobs)

  unfoldable pub on_close : Child × Jobs → Child × Jobs
  on_close state = complete state

-- What the handler of a message leaves: the reply, the jobs, and the script if one was started.
pub record Handled : Type 0 where
  pub reply : Result
  pub jobs : Jobs
  pub child : Option Child

-- A `requestId` that is a text and not empty.
abbrev pub usable_text : Value → Option String
usable_text v = elim (as_string v) [ none ↦ none | some id ↦ if is_empty id then none else some id ]

unfoldable pub refuse : Value → Dict Value → Jobs → Handled
refuse command errors jobs =
    let refused = result command false null (some (fields errors)) in
    record {
      reply = refused;
      jobs = elim (usable_text (property "requestId" command)) [
        | none ↦ jobs
        | some id ↦ finish id refused jobs
      ];
      child = none;
    }

unfoldable pub launch_of : Value → Launch
launch_of command =
    let payload = property "payload" command in
    let deploys = is_text (property "action" command) "deploy" in
    record {
      action = property "action" command;
      release = property "release" payload;
      namespace = property "namespace" payload;
      chart = if deploys then some (property "chart" payload) else none;
      values = if deploys then some (property "values" payload) else none;
    }

unfoldable pub accept : Value → String → Jobs → Handled
accept command id jobs = record {
  reply = result command true (object (("accepted", bool true) ∷ [])) none;
  jobs = store id (λ job. new_job) jobs;
  child = some (record {
    command = command;
    request_id = id;
    launch = launch_of command;
    values_kept = is_text (property "action" command) "deploy";
    script_result = null;
    buffer = "";
    completed = false;
  });
}

abbrev pub repeated : Value → Jobs → Handled
repeated command jobs = record {
  reply = result command false null (some (action (str "duplicateRequest")));
  jobs = jobs;
  child = none;
}

-- `jobs[requestId]` is also found for a name that every object inherits.
unfoldable pub run_valid : Value → String → Jobs → Handled
run_valid command id jobs = elim (lookup id jobs) [
  | some seen ↦ repeated command jobs
  | none ↦ if includes inherited_names id then repeated command jobs else accept command id jobs
]

abbrev pub id_text : Value → String
id_text v = elim (as_string v) [ none ↦ "" | some id ↦ id ]

unfoldable pub on_input : Value → Jobs → Handled
on_input command jobs = elim (validate command) [
  | [] ↦ run_valid command (id_text (property "requestId" command)) jobs
  | e ∷ errors ↦ refuse command (e ∷ errors) jobs
]
