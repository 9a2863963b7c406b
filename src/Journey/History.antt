-- ===== src/Journey/History.antt =====
-- The command history: which commands touch it, its bound, and that it holds the last command.
use facis_zero_trust_demonst.Base.{
  ℕ, String, true, ◌≡◌, refl, inl, inr, Option, none, some, List, [], ◌∷◌, ◌++◌, lookup,
  lookup-insert, arith, Option-cases, get, get_elem?, length, ◌≤◌, drop, last_n, includes, eq_refl,
  suc, if◌then◌else◌, ◌==◌, ◌-◌, zero,
}
use facis_zero_trust_demonst.Journey.State.{Run, Check, Flow}
use facis_zero_trust_demonst.Journey.Fixtures.{Scenario, AtlasSpec}
use facis_zero_trust_demonst.Journey.Handler.{Command, Outcome, store, remove}
use facis_zero_trust_demonst.Journey.Start.{start_atlas, start_sample, key_text}
use facis_zero_trust_demonst.Journey.Commands.{
  reset_command, next_atlas, next_sample, next_command, start_command, run_sample_step,
}
use facis_zero_trust_demonst.Journey.Engine.{run_command, expire_current, history_of, remember}

-- The outcome leaves the history as it was.
abbrev KeepsHistory : Flow → Outcome → Type 0
KeepsHistory flow o = o.0.journey_command_history ≡ flow.journey_command_history

module _ (c : Command) (flow : Flow) where
  reset_keeps : (current : Option Run) → KeepsHistory flow (reset_command c flow current)
  unfolding reset_command remove
  reset_keeps none = refl
  reset_keeps (some run) = ground arith

  next_atlas_keeps : (run : Run) → KeepsHistory flow (next_atlas c flow run)
  unfolding next_atlas store
  next_atlas_keeps run = ground arith

  run_sample_step_keeps :
      (fixture : Scenario) (step : ℕ) (check : Check) (run : Run)
      → KeepsHistory flow (run_sample_step c flow fixture step check run)
  unfolding run_sample_step store
  run_sample_step_keeps fixture step check run = ground arith

  next_sample_keeps : (run : Run) → KeepsHistory flow (next_sample c flow run)
  unfolding next_sample
  next_sample_keeps run = elim (Option-cases (lookup run.scenario c.msg.scenarios)) [
    | inl missing ↦ ground arith
    | inr (fixture, found) ↦ elim (Option-cases (get_elem? run.checks run.active_step)) [
      | inl none_left ↦ ground arith
      | inr (check, here) ↦
          ground (arith, run_sample_step_keeps fixture (suc run.active_step) check run)
    ]
  ]

  start_atlas_keeps :
      (current : Option Run) (scenario : String) (definition : AtlasSpec)
      → KeepsHistory flow (start_atlas c flow current scenario definition)
  unfolding start_atlas store
  start_atlas_keeps current scenario definition = ground arith

  start_sample_keeps : (current : Option Run) → KeepsHistory flow (start_sample c flow current)
  unfolding start_sample store
  start_sample_keeps current = ground arith

  next_keeps : (current : Option Run) → KeepsHistory flow (next_command c flow current)
  unfolding next_command
  next_keeps none = refl
  next_keeps (some run) = ground (arith, next_atlas_keeps run, next_sample_keeps run)

  start_keeps : (current : Option Run) → KeepsHistory flow (start_command c flow current)
  unfolding start_command
  start_keeps current =
      let scenario = key_text (get "scenario" c.content) in
      elim (Option-cases (lookup scenario c.msg.atlas_fixtures)) [
        | inl sample ↦ ground (arith, start_sample_keeps current)
        | inr (definition, atlas) ↦ ground (arith, start_atlas_keeps current scenario definition)
      ]

  -- No command of the dispatch writes the history.
  pub run_command-KeepsHistory :
      (type : String) (current : Option Run) → KeepsHistory flow (run_command type c current flow)
  unfolding run_command
  run_command-KeepsHistory type current =
      ground (arith, start_keeps current, reset_keeps current, next_keeps current)

pub expire_current_keeps_history :
    (now : ℕ) (current : Option Run) (flow : Flow)
    → (expire_current now current flow).1.journey_command_history ≡ flow.journey_command_history
unfolding expire_current store
expire_current_keeps_history now none flow = refl
expire_current_keeps_history now (some run) flow = ground arith

-- The last command of a history that `remember` wrote.
includes-append : (xs : List String) (s : String) → includes (xs ++ s ∷ []) s ≡ true
includes-append [] s = ground (arith, eq_refl s)
includes-append (x ∷ xs) s = ground (arith, includes-append xs s)

length-append_one : (xs : List String) (s : String) → length (xs ++ s ∷ []) ≡ suc (length xs)
length-append_one [] s = refl
length-append_one (x ∷ xs) s = omega (arith, length-append_one xs s)

-- Dropping at most the whole of what precedes it keeps the last entry.
includes-drop :
    (n : ℕ) (xs : List String) (s : String)
    → n ≤ length xs
    → includes (drop n (xs ++ s ∷ [])) s ≡ true
includes-drop zero xs s h = includes-append xs s
includes-drop (suc n) [] s h = elim h [ ]
includes-drop (suc n) (x ∷ xs) s h = includes-drop n xs s (omega arith)

pub includes-last_n :
    (xs : List String) (s : String) → includes (last_n 100 (xs ++ s ∷ [])) s ≡ true
includes-last_n xs s =
    includes-drop (length (xs ++ s ∷ []) - 100) xs s (omega (arith, length-append_one xs s))

pub history_of-remember :
    (user other id : String) (flow : Flow)
    → history_of other (remember user id flow) ≡ (
        if user == other
        then last_n 100 (history_of user flow ++ id ∷ [])
        else history_of other flow)
unfolding remember
history_of-remember user other id flow = ground (
  arith,
  lookup-insert user other (last_n 100 (history_of user flow ++ id ∷ []))
      flow.journey_command_history,
)
