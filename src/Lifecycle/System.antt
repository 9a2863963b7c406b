-- ===== src/Lifecycle/System.antt =====
-- The lifecycle node over time (ztd-lifecycle.js): commands, and the output and the end of each
-- started script, in any order.
use facis_zero_trust_demonst.Base.{
  property, includes, ℕ, String, ◌≤◌, none, some, List, [], ◌∷◌, ◌++◌, arith, Option-cases, inl,
  inr, length, get_elem?, modify, Dict, Value, if-both, lookup,
}
use facis_zero_trust_demonst.Lifecycle.Results.{Library}
use facis_zero_trust_demonst.Lifecycle.Jobs.{Jobs, store_bound, inherited_names}
use facis_zero_trust_demonst.Lifecycle.Node.{
  Child, Handled, with_event, usable_text, id_text, read_line, read_lines, on_data, complete,
  on_error, on_close, on_input, run_valid, accept, refuse, finish, strip,
}
use facis_zero_trust_demonst.Lifecycle.Command.{validate}

pub record System : Type 0 where
  pub jobs : Jobs
  pub children : List Child

pub data Event : Type 0 where
  input : Value → Event
  output : ℕ → List ℕ → Event
  failed closed : ℕ → Event

-- A callback of the script at an index, with the variables it changes.
unfoldable pub callback : ℕ → (Child × Jobs → Child × Jobs) → System → System
callback i f s = elim (get_elem? s.children i) [
  | none ↦ s
  | some child ↦
      let next = f (child, s.jobs) in
      record { jobs = next.1; children = modify s.children i (λ c. next.0) }
]

module _ (lib : Library) where
  unfoldable pub step : Event → System → System
  step (input command) s =
      let handled = on_input command s.jobs in
      record {
        jobs = handled.jobs;
        children = s.children ++ elim handled.child [ none ↦ [] | some child ↦ child ∷ [] ];
      }
  step (output i chunk) s = callback i (on_data lib chunk) s
  step (failed i) s = callback i (on_error lib) s
  step (closed i) s = callback i (on_close lib) s

  unfoldable pub run : List Event → System → System
  run [] s = s
  run (event ∷ events) s = run events (step event s)

abbrev IsBounded : Jobs → Type 0
IsBounded jobs = length jobs ≤ 50

callback_bound :
    (i : ℕ) (f : Child × Jobs → Child × Jobs) (s : System)
    → ((x : Child × Jobs) → IsBounded x.1 → IsBounded (f x).1)
    → IsBounded s.jobs
    → IsBounded (callback i f s).jobs
unfolding callback
callback_bound i f s keeps h = elim (Option-cases (get_elem? s.children i)) [
  | inl missing ↦ rw (missing, callback) h
  | inr (child, there) ↦ rw (there, callback) (keeps (child, s.jobs) h)
]

module _ (lib : Library) where
  read_line_bound :
      (id line : String) (x : Value × Jobs) → IsBounded x.1 → IsBounded (read_line lib id line x).1
  unfolding read_line
  read_line_bound id line (script, jobs) h = elim (Option-cases (strip "EVENT_JSON=" line)) [
    | inr (text, marked) ↦ elim (Option-cases (lib.parse text)) [
      | inl malformed ↦ rw (marked, malformed, read_line) h
      | inr (event, parsed) ↦
          rw (marked, parsed, read_line) (store_bound id (with_event event) jobs)
    ]
    | inl unmarked ↦ ground arith
  ]

  read_lines_bound :
      (id : String) (lines : List String) (x : Value × Jobs)
      → IsBounded x.1
      → IsBounded (read_lines lib id lines x).1
  unfolding read_lines
  read_lines_bound id [] x h = h
  read_lines_bound id (line ∷ lines) x h =
      read_lines_bound id lines (read_line lib id line x) (read_line_bound id line x h)

  complete_bound : (x : Child × Jobs) → IsBounded x.1 → IsBounded (complete lib x).1
  unfolding complete finish
  complete_bound (child, jobs) h =
      if-both (λ (x : Child × Jobs). IsBounded x.1) child.completed h (store_bound _ _ jobs)

  refuse_bound :
      (command : Value) (errors : Dict Value) (jobs : Jobs)
      → IsBounded jobs
      → IsBounded (refuse command errors jobs).jobs
  unfolding refuse finish
  refuse_bound command errors jobs h =
      elim (Option-cases (usable_text (property "requestId" command))) [
        | inl missing ↦ rw (missing, refuse) h
        | inr (id, usable) ↦ rw (usable, refuse) (store_bound id _ jobs)
      ]

  run_valid_bound :
      (command : Value) (id : String) (jobs : Jobs)
      → IsBounded jobs
      → IsBounded (run_valid command id jobs).jobs
  unfolding run_valid accept
  run_valid_bound command id jobs h = elim (Option-cases (lookup id jobs)) [
    | inl new ↦
        rw (new, run_valid)
          (if-both (λ (x : Handled). IsBounded x.jobs) (includes inherited_names id) h
            (store_bound id _ jobs))
    | inr (job, seen) ↦ rw (seen, run_valid) h
  ]

  on_input_bound :
      (command : Value) (jobs : Jobs) → IsBounded jobs → IsBounded (on_input command jobs).jobs
  unfolding on_input
  on_input_bound command jobs h =
      let id = id_text (property "requestId" command) in
      ground
        (arith, refuse_bound command (validate command) jobs h, run_valid_bound command id jobs h)

  step_bound : (event : Event) (s : System) → IsBounded s.jobs → IsBounded (step lib event s).jobs
  unfolding step on_error on_close on_data
  step_bound (input command) s h = on_input_bound command s.jobs h
  step_bound (output i chunk) s h =
      callback_bound i (on_data lib chunk) s
        (λ x. λ k. read_lines_bound _ _ (x.0.script_result, x.1) k) h
  step_bound (failed i) s h = callback_bound i (on_error lib) s (λ x. λ k. complete_bound _ k) h
  step_bound (closed i) s h = callback_bound i (on_close lib) s complete_bound h

  -- However commands, outputs and endings follow each other, a node that keeps at most fifty jobs
  -- keeps at most fifty.
  pub run_bound :
      (events : List Event) (s : System) → length s.jobs ≤ 50 → length (run lib events s).jobs ≤ 50
  unfolding run
  run_bound [] s h = h
  run_bound (event ∷ events) s h = run_bound events (step lib event s) (step_bound event s h)
