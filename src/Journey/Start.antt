-- ===== src/Journey/Start.antt =====
-- The command `start` of an Atlas journey and of a sample scenario (journey-engine.js).
use facis_zero_trust_demonst.Base.{
  ℕ, String, Bool, false, ◌&&◌, ◌||◌, not, Option, none, some, List, [], ◌∷◌, if◌then◌else◌, ◌==◌,
  nat_eq, suc, get_elem?, length, lookup, includes, Value, get, as_string, key_of, is_text,
  is_given, trim, lower, undefined, null, str,
}
use facis_zero_trust_demonst.Journey.State.{Run, Flow}
use facis_zero_trust_demonst.Journey.Fixtures.{AtlasSpec, AdapterConfig, Env}
use facis_zero_trust_demonst.Journey.Record.{add_event}
use facis_zero_trust_demonst.Journey.Sample.{new_sample_run}
use facis_zero_trust_demonst.Journey.Atlas.{
  is, or_nothing, presentation_required, atlas_spec_for, evaluate_atlas_step,
}
use facis_zero_trust_demonst.Journey.AtlasRun.{new_atlas_run, finish_atlas}
use facis_zero_trust_demonst.Journey.Handler.{
  Command, Outcome, refuse, saved, service_scenarios, is_active, in_progress,
}

-- The variant of a start: the one given, or the default of a journey that has variants.
abbrev pub variant_of : AtlasSpec → Value → Value
variant_of spec undefined = elim spec.variants [ [] ↦ null | v ∷ vs ↦ str "rule-deny" ]
variant_of spec v = v

-- An allowed variant, as `some` of what it is; `none` is a refusal.
abbrev pub allowed_variant : List String → Value → Option (Option String)
allowed_variant [] null = some none
allowed_variant [] v = none
allowed_variant (w ∷ ws) (str s) = if includes (w ∷ ws) s then some (some s) else none
allowed_variant (w ∷ ws) v = none

-- The tests on the profile and on the credential to revoke: absent, or exactly the fixture's.
abbrev pub profile_allowed : AtlasSpec → Value → Bool
profile_allowed spec v = not (is_given v) || is_text v spec.profile

abbrev is_own : Option String → Value → Bool
is_own none v = false
is_own (some id) v = is_text v id

abbrev pub credential_allowed : AtlasSpec → Value → Bool
credential_allowed spec v =
    not (is_given v) || (spec.id == "atlas-revoked-credential" && is_own spec.credential.id v)

abbrev pub text_or : String → Value → String
text_or default v = elim (as_string v) [ none ↦ default | some s ↦ s ]

-- The text that a value is read as where it is a key.
abbrev pub key_text : Value → String
key_text v = elim (key_of v) [ none ↦ "" | some s ↦ s ]

-- `typeof v === 'string' ? v.trim().toLowerCase() : 'success'`
unfoldable pub normal_scenario : Value → String
normal_scenario v = elim (as_string v) [ none ↦ "success" | some s ↦ lower (trim s) ]

-- The steps that a start evaluates: the first, or for the variant without a presentation the first
-- three, which are skipped, and the fourth.
unfoldable pub evaluate_at : ℕ → AtlasSpec → ℕ → Run → Run
evaluate_at now spec index run = elim (get_elem? spec.steps index) [
  | none ↦ run
  | some step ↦ evaluate_atlas_step now step index run
]

unfoldable pub first_steps : ℕ → AtlasSpec → Option String → Run → Run
first_steps now spec variant run =
    if is variant presentation_required
    then evaluate_at now spec 3
        (evaluate_at now spec 2 (evaluate_at now spec 1 (evaluate_at now spec 0 run)))
    else evaluate_at now spec 0 run

abbrev pub unpresented : Run → Run
unpresented run = record run {
  not_executed =
      "Credential verification not executed" ∷ "Token not issued" ∷ "Channel not opened"
      ∷ "Resource not called" ∷ [];
}

-- `if (index === spec.steps.length - 1) finishAtlas(current, spec)`
unfoldable pub finish_if_last : ℕ → AtlasSpec → ℕ → Run → Run
finish_if_last now spec index run =
    if nat_eq (suc index) (length spec.steps) then finish_atlas now spec run else run

-- The run that an Atlas start stores.
unfoldable pub started_atlas_run :
    Env → AdapterConfig → String → AtlasSpec → Option String → String → Run
started_atlas_run env config user_id spec variant service_scenario =
    let fresh = new_atlas_run env config user_id spec variant service_scenario in
    let unpresented_variant = is variant presentation_required in
    let opened =
      add_event env.now "run.started" "Atlas P1 fixture journey started from its selected seed."
        (if unpresented_variant then unpresented fresh else fresh) in
    finish_if_last env.now spec (if unpresented_variant then 3 else 0)
      (first_steps env.now spec variant opened)

module _ (c : Command) (flow : Flow) where
  -- The tests on a start once its fixture and variant are known.
  abbrev pub start_spec : AtlasSpec → Option String → Outcome
  start_spec spec variant =
      let service_scenario = text_or "success" (get "serviceScenario" c.content) in
      if not (profile_allowed spec (get "profile" c.content))
      then (
        flow,
        refuse "INVALID_PROFILE" "The participant profile does not match this journey variant.",
      )
      else if not (credential_allowed spec (get "credentialToRevoke" c.content))
      then (
        flow,
        refuse "INVALID_CREDENTIAL"
            "Only the selected profile own fixture credential may be revoked.",
      )
      else if not (includes service_scenarios service_scenario)
      then (flow, refuse "INVALID_SERVICE_SCENARIO" "Unsupported final sample service scenario.")
      else saved c flow
          (started_atlas_run c.env c.msg.config c.user_id spec variant service_scenario)

  -- `type === 'start' && atlasFixtures[data.scenario]`; the last argument is that fixture, so that
  -- `atlasSpecFor` finds it again and the branch without a fixture is not reached.
  unfoldable pub start_atlas : Option Run → String → AtlasSpec → Outcome
  start_atlas current scenario definition =
      if is_active current
      then (flow, in_progress)
      else elim (allowed_variant definition.variants
          (variant_of definition (get "variant" c.content))) [
            | none ↦ (
              flow,
              refuse "INVALID_VARIANT" "Select an allowed variant for this fixture journey.",
            )
            | some variant ↦ elim (atlas_spec_for c.msg.atlas_fixtures scenario variant) [
              | none ↦ (flow, refuse "INVALID_SCENARIO" "")
              | some spec ↦ start_spec spec variant
            ]
          ]

  -- `aliases[requested] || requested`
  abbrev pub scenario_id_of : Value → String
  scenario_id_of v =
      let requested = text_or "" v in
      elim (or_nothing (lookup requested c.msg.aliases)) [ none ↦ requested | some id ↦ id ]

  -- The rest of `start`.
  unfoldable pub start_sample : Option Run → Outcome
  start_sample current =
      let scenario_id = scenario_id_of (get "scenario" c.content) in
      let service_scenario = normal_scenario (get "serviceScenario" c.content) in
      if is_active current then (flow, in_progress) else elim (lookup scenario_id c.msg.scenarios) [
        | none ↦ (
          flow,
          refuse "INVALID_SCENARIO" "Select one of the five registered sample Journey scenarios.",
        )
        | some fixture ↦
            if not (includes service_scenarios service_scenario)
            then (
              flow,
              refuse "INVALID_SERVICE_SCENARIO"
                  "Select success, denied, unavailable, error, or slow for the final sample service request.",
            )
            else saved c flow
                (new_sample_run c.env c.msg.config c.user_id fixture scenario_id service_scenario)
      ]
