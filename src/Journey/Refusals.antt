-- ===== src/Journey/Refusals.antt =====
-- A refused command changes no run: what each command leaves in the flow context when it refuses.
use facis_zero_trust_demonst.Base.{
  ℕ, String, ◌≡◌, refl, inl, inr, Option, none, some, lookup, arith, Option-cases, get, get_elem?,
  suc,
}
use facis_zero_trust_demonst.Journey.State.{Run, Check, Flow}
use facis_zero_trust_demonst.Journey.Fixtures.{Scenario, AtlasSpec}
use facis_zero_trust_demonst.Journey.Handler.{Command, Outcome, refused, reply_state}
use facis_zero_trust_demonst.Journey.Start.{start_atlas, start_sample, key_text}
use facis_zero_trust_demonst.Journey.Commands.{
  reset_command, next_atlas, next_sample, next_command, start_command, run_sample_step,
}
use facis_zero_trust_demonst.Journey.Engine.{run_command}

-- Where the reply is a refusal, the flow context is as it was.
abbrev pub KeepsOnRefusal : Flow → Outcome → Type 0
KeepsOnRefusal flow o = (code detail : String) → o.1.reply ≡ refused code detail → o.0 ≡ flow

module _ (c : Command) (flow : Flow) where
  reset_keeps : (current : Option Run) → KeepsOnRefusal flow (reset_command c flow current)
  unfolding reset_command reply_state
  reset_keeps none code detail h = refl
  reset_keeps (some run) code detail h = ground arith

  next_atlas_keeps : (run : Run) → KeepsOnRefusal flow (next_atlas c flow run)
  unfolding next_atlas reply_state
  next_atlas_keeps run code detail h = ground arith

  run_sample_step_keeps :
      (fixture : Scenario) (step : ℕ) (check : Check) (run : Run)
      → KeepsOnRefusal flow (run_sample_step c flow fixture step check run)
  unfolding run_sample_step reply_state
  run_sample_step_keeps fixture step check run code detail h = ground arith

  next_sample_keeps : (run : Run) → KeepsOnRefusal flow (next_sample c flow run)
  unfolding next_sample
  next_sample_keeps run code detail h = elim (Option-cases (lookup run.scenario c.msg.scenarios)) [
    | inl missing ↦ ground arith
    | inr (fixture, found) ↦ elim (Option-cases (get_elem? run.checks run.active_step)) [
      | inl none_left ↦ ground arith
      | inr (check, here) ↦
          ground (arith, run_sample_step_keeps fixture (suc run.active_step) check run code detail)
    ]
  ]

  start_atlas_keeps :
      (current : Option Run) (scenario : String) (definition : AtlasSpec)
      → KeepsOnRefusal flow (start_atlas c flow current scenario definition)
  unfolding start_atlas reply_state
  start_atlas_keeps current scenario definition code detail h = ground arith

  start_sample_keeps : (current : Option Run) → KeepsOnRefusal flow (start_sample c flow current)
  unfolding start_sample reply_state
  start_sample_keeps current code detail h = ground arith

  next_keeps : (current : Option Run) → KeepsOnRefusal flow (next_command c flow current)
  unfolding next_command
  next_keeps none code detail h = refl
  next_keeps (some run) code detail h =
      ground (arith, next_atlas_keeps run code detail, next_sample_keeps run code detail)

  start_keeps : (current : Option Run) → KeepsOnRefusal flow (start_command c flow current)
  unfolding start_command
  start_keeps current code detail h =
      let scenario = key_text (get "scenario" c.content) in
      elim (Option-cases (lookup scenario c.msg.atlas_fixtures)) [
        | inl sample ↦ ground (arith, start_sample_keeps current code detail)
        | inr (definition, atlas) ↦
            ground (arith, start_atlas_keeps current scenario definition code detail)
      ]

  pub run_command_keeps :
      (type : String) (current : Option Run) → KeepsOnRefusal flow (run_command type c current flow)
  unfolding run_command
  run_command_keeps type current code detail h = ground (
    arith,
    start_keeps current code detail,
    reset_keeps current code detail,
    next_keeps current code detail,
  )
