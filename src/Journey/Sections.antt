-- ===== src/Journey/Sections.antt =====
-- The sections of a sample run that later steps reveal or skip (journey-engine.js, lines 111 to 140).
use facis_zero_trust_demonst.Base.{
  ℕ, String, Bool, false, ◌&&◌, none, some, List, ◌∷◌, map, ltb, nat_eq, if◌then◌else◌, ◌==◌,
}
use facis_zero_trust_demonst.Journey.State.{Run, PolicyCheck, Measurement}
use facis_zero_trust_demonst.Journey.Fixtures.{Scenario}

abbrev pub not_evaluated : String
not_evaluated = "Not evaluated"

abbrev pub skipped : String
skipped = "Skipped"

abbrev pending : PolicyCheck → PolicyCheck
pending item = record item { detail = not_evaluated; status = not_evaluated }

unfoldable pub pending_policy_checks : Scenario → List PolicyCheck
pending_policy_checks fixture = map pending fixture.policy_checks

-- `item.step === step` and `item.step > step`, false where there is no step.
abbrev pub at_step : ℕ → PolicyCheck → Bool
at_step step item = elim item.step [ none ↦ false | some s ↦ nat_eq s step ]

abbrev pub after_step : ℕ → PolicyCheck → Bool
after_step step item = elim item.step [ none ↦ false | some s ↦ ltb step s ]

-- The run's list is a copy of the fixture's, entry by entry, so the loop over the fixture's indices
-- is a walk over both.
unfoldable pub reveal : ℕ → List PolicyCheck → List PolicyCheck → List PolicyCheck
reveal step (item ∷ items) (old ∷ olds) =
    (if at_step step item then item else old) ∷ reveal step items olds
reveal step _ olds = olds

unfoldable pub reveal_policy_checks : Scenario → ℕ → Run → Run
unfolding reveal
reveal_policy_checks fixture step run = record run {
  policy_checks = reveal step fixture.policy_checks run.policy_checks;
}

abbrev skip_measurement : Measurement → Measurement
skip_measurement m = record m { actual = skipped; status = skipped }

abbrev skip_policy_check : ℕ → PolicyCheck → PolicyCheck
skip_policy_check step item =
    if item.status == not_evaluated && after_step step item
    then record item { status = skipped; detail = skipped }
    else item

unfoldable pub skip_later_sections : ℕ → Run → Run
skip_later_sections step run = record run {
  credential = if ltb step 3 then record (run.credential) { status = skipped } else run.credential;
  measurements = if ltb step 5 then map skip_measurement run.measurements else run.measurements;
  permission =
      if ltb step 4
      then record (run.permission) { status = skipped; detail = skipped }
      else run.permission;
  trust =
      if ltb step 4
      then record (run.trust) {
        status = skipped;
        confidence = skipped;
        attestation = skipped;
        membership_status = skipped;
      }
      else run.trust;
  attestation =
      if ltb step 4
      then record (run.attestation) {
        result = skipped;
        signature_status = skipped;
        measurement_status = skipped;
        timestamp = skipped;
      }
      else run.attestation;
  policy_checks = map (skip_policy_check step) run.policy_checks;
}
