-- ===== src/Lifecycle/Tests.antt =====
-- The lifecycle node on concrete commands (ui/nodes/ztd-lifecycle/ztd-lifecycle.js).
use facis_zero_trust_demonst.Base.{
  property, nat_eq, includes, ◌++◌, ℕ, inr, String, true, false, ◌≡◌, ◌≢◌, ◌↔◌, refl, Option, none,
  some, List, [], ◌∷◌, length, ◌≤◌, arith, Value, Fields, field, end, str, obj, null, lookup,
  is_none, insert, if◌then◌else◌, ◌==◌,
}
use facis_zero_trust_demonst.Lifecycle.Command.{
  validate, payload_errors, command_errors, note, unknown_parameters, deploy_errors, members,
  is_label, ends_well, dns_label, release_label,
}
use facis_zero_trust_demonst.Lifecycle.Validation.{IsAcceptable, validate-clean_iff}
use facis_zero_trust_demonst.Lifecycle.Results.{
  Library, fields, action, result, from_script, script_errors,
}
use facis_zero_trust_demonst.Lifecycle.Lines.{split, prefix}
use facis_zero_trust_demonst.Lifecycle.Jobs.{
  Job, Jobs, job_of, store, inherited_names, place, index_of, number_from,
}
use facis_zero_trust_demonst.Lifecycle.Node.{
  Child, on_input, run_valid, accept, refuse, launch_of, finish, strip, read_line, read_lines,
  on_data, complete, on_error, on_close, with_result, id_text,
}
use facis_zero_trust_demonst.Lifecycle.System.{
  System, Event, input, output, failed, closed, step, run, callback, run_bound,
}
use facis_zero_trust_demonst.Lifecycle.Requests.{
  on_input-starts_iff, on_input-replay, on_input-refused,
}
use facis_zero_trust_demonst.Lifecycle.Output.{on_data-append, ends_once}
use Prim.Native.Char.{code}

node : Unit {0}
unfolding validate payload_errors command_errors note unknown_parameters deploy_errors members
    is_label ends_well dns_label release_label result from_script script_errors split prefix job_of
    place index_of number_from store on_input run_valid accept refuse launch_of finish strip
    read_line read_lines on_data complete on_error on_close step run callback lookup insert
node = tt

abbrev payload : Fields
payload = field "release" (str "app") (field "namespace" (str "team-a") end)

abbrev command : Fields
command = field "type" (str "command") (
    field "action" (str "uninstall")
      (field "requestId" (str "r1") (field "payload" (obj payload) end)))

abbrev uninstall : Value
uninstall = obj command

abbrev unnamed : Value
unnamed = obj (
    field "type" (str "command") (
      field "action" (str "uninstall") (
        field "requestId" (str "r1")
          (field "payload" (obj (field "release" (str "-app") end)) end))))

-- The characters that the tests use, each of one byte.
abbrev with_code : ℕ → String → String → String
with_code n String.[] rest = rest
with_code n (String.◌∷◌ c s) rest =
    let later = with_code n s rest in if nat_eq (code c) n then String.◌∷◌ c rest else later

abbrev ascii : List ℕ → String
ascii [] = ""
ascii (n ∷ ns) = with_code n "RESULT_JON={\"ok:true}\n" (ascii ns)

abbrev bytes : String → List ℕ
bytes String.[] = []
bytes (String.◌∷◌ c s) = code c ∷ bytes s

abbrev printed_result : List ℕ
printed_result = bytes "RESULT_JSON="

abbrev printed_value : List ℕ
printed_value = bytes "{\"ok\":true}\n"

-- `JSON.parse` on the texts that the tests use.
abbrev parse_known : String → Option Value
parse_known text = if text == "{\"ok\":true}" then some (obj (field "ok" (str "yes") end)) else none

abbrev lib : Library
lib = record { parse = parse_known; mask = λ v. v; text = λ v. "field"; decode = ascii }

accepted : validate uninstall ≡ []
unfolding node
accepted = refl

refused_fields : length (validate unnamed) ≡ 2
unfolding node
refused_fields = refl

replied :
    ((on_input uninstall []).reply.ok ≡ true)
    × (length (on_input uninstall []).jobs ≡ 1)
    × (is_none (on_input uninstall []).child ≡ false)
unfolding node
replied = (refl, refl, refl)

printed : split "EVENT_JSON={}\r\nRESULT" ≡ ("EVENT_JSON={}" ∷ [], "RESULT")
unfolding node
printed = refl

abbrev child : Child
child = record {
  command = uninstall;
  request_id = "r1";
  launch = record {
    action = str "uninstall";
    release = str "app";
    namespace = str "team-a";
    chart = none;
    values = none;
  };
  values_kept = false;
  script_result = null;
  buffer = "";
  completed = false;
}

read_result_line :
    (on_data lib (printed_result ++ printed_value) (child, [])).0.script_result
    ≡ obj (field "ok" (str "yes") end)
unfolding node
read_result_line = refl

validate-clean_iff_example : (validate uninstall ≡ []) ↔ IsAcceptable command payload
unfolding node
validate-clean_iff_example = validate-clean_iff uninstall command payload refl refl

abbrev no_jobs : Jobs
no_jobs = []

on_input-starts_iff_example : ((on_input uninstall []).child ≢ none) ↔ (
    (validate uninstall ≡ [])
    × (lookup (id_text (property "requestId" uninstall)) no_jobs ≡ none)
    × (includes inherited_names (id_text (property "requestId" uninstall)) ≡ false))
on_input-starts_iff_example = on_input-starts_iff uninstall []

on_input-replay_example :
    let kept = (on_input uninstall []).jobs in
    let again = on_input uninstall kept in
    (again.reply ≡ result uninstall false null (some (action (str "duplicateRequest"))))
    × (again.jobs ≡ kept)
    × (again.child ≡ none)
on_input-replay_example = on_input-replay uninstall [] accepted (inr (omega arith)) (omega arith)

abbrev done : Job
done = record { events = some []; result = some (result uninstall true null none) }

abbrev finished_jobs : Jobs
finished_jobs = ("r1", done) ∷ []

unnamed_refused : validate unnamed ≢ []
unfolding node
unnamed_refused e = cc

-- The stored success of `r1` gives way to the refusal of a later command with that identifier.
on_input-refused_example :
    let handled = on_input unnamed finished_jobs in
    (handled.child ≡ none)
    × (handled.reply ≡ result unnamed false null (some (fields (validate unnamed))))
    × (lookup "r1" handled.jobs ≡ some (with_result handled.reply (job_of "r1" finished_jobs)))
on_input-refused_example =
    on_input-refused unnamed finished_jobs "r1" unnamed_refused refl refl (inr (omega arith))
      (omega arith)

on_data-append_example :
    on_data lib printed_value (on_data lib printed_result (child, []))
    ≡ on_data lib (printed_result ++ printed_value) (child, [])
on_data-append_example = on_data-append lib printed_result printed_value (child, []) refl

ends_once_example :
    let x : Child × Jobs = (child, finished_jobs) in
    (lookup "r1" (on_error lib x).1
      ≡ some (with_result (from_script lib uninstall null) (job_of "r1" finished_jobs)))
    × (lookup "r1" (on_close lib x).1
        ≡ some (with_result (from_script lib uninstall null) (job_of "r1" finished_jobs)))
    × ((on_close lib (on_error lib x)).1 ≡ (on_error lib x).1)
    × ((on_error lib (on_close lib x)).1 ≡ (on_close lib x).1)
ends_once_example = ends_once lib (child, finished_jobs) refl refl (inr (omega arith)) (omega arith)

abbrev events : List Event
events = input uninstall ∷ output 0 (printed_result ++ printed_value) ∷ closed 0 ∷ failed 0 ∷ []

abbrev idle : System
idle = record { jobs = []; children = [] }

run_bound_example : length (run lib events idle).jobs ≤ 50
run_bound_example = run_bound lib events idle (omega arith)
