-- ===== src/Resource/Tests.antt =====
-- The protected-resource fixture on concrete requests.
use facis_zero_trust_demonst.Base.{
  key_of, String, ◌≡◌, ◌↔◌, refl, some, [], ◌∷◌, Fields, field, end, str, get, lookup,
  is_identifier, Memᴰ, includes→mem,
}
use facis_zero_trust_demonst.Resource.{
  Report, Context, success, fixtures, parts, decide, plain, evaluate_fixture_resource,
}
use facis_zero_trust_demonst.Resource.Decisions.{
  IsWellFormed, IsGranted, IsCoherent, IsTextFor, granted_cases, known_keys,
  evaluate_fixture_resource-success_iff, evaluate_fixture_resource-IsCoherent,
  evaluate_fixture_resource-IsTextFor, evaluate_fixture_resource-cases,
}

fixture : Unit {0}
unfolding evaluate_fixture_resource decide fixtures parts lookup is_identifier key_of
fixture = tt

abbrev ask : String → Fields
ask case_id =
    field "caseId" (str case_id)
      (field "requestId" (str "r-1") (field "correlationId" (str "c-1") end))

abbrev reader : Context
reader = plain "Reader" ("resource-reader" ∷ []) ("read" ∷ [])

answers :
    ((evaluate_fixture_resource 0 (ask "reader")).status ≡ 200)
    × ((evaluate_fixture_resource 0 (ask "wrong-scope")).reason_code ≡ "FIXTURE_SCOPE_DENIED")
    × ((evaluate_fixture_resource 0 (ask "dependency-unavailable")).status ≡ 503)
    × ((evaluate_fixture_resource 0 (ask "nobody")).status ≡ 400)
unfolding fixture
answers = (refl, refl, refl, refl)

well_formed : IsWellFormed (ask "reader")
unfolding fixture
well_formed = record {
  only_known = (
    includes→mem known_keys "caseId" refl,
    (includes→mem known_keys "requestId" refl, (includes→mem known_keys "correlationId" refl, tt)),
  );
  request_id = ("r-1", refl, refl);
  correlation_id = ("c-1", refl, refl);
}

found : lookup "reader" fixtures ≡ some reader
unfolding fixture
found = refl

granted : (evaluate_fixture_resource 0 (ask "reader")).outcome ≡ success
unfolding fixture
granted = refl

evaluate_fixture_resource-success_iff_example :
    ((evaluate_fixture_resource 0 (ask "reader")).outcome ≡ success)
    ↔ (IsWellFormed (ask "reader") × IsGranted (get "caseId" (ask "reader")))
evaluate_fixture_resource-success_iff_example =
    evaluate_fixture_resource-success_iff 0 (ask "reader")

evaluate_fixture_resource-IsCoherent_example :
    IsCoherent (evaluate_fixture_resource 0 (ask "revoked"))
evaluate_fixture_resource-IsCoherent_example =
    evaluate_fixture_resource-IsCoherent 0 (ask "revoked")

evaluate_fixture_resource-IsTextFor_example :
    (r : Report) × ((evaluate_fixture_resource 0 (ask "reader")).safe_data ≡ some r)
    × IsTextFor reader r.content
unfolding key_of
evaluate_fixture_resource-IsTextFor_example =
    evaluate_fixture_resource-IsTextFor 0 (ask "reader") "reader" reader refl found granted

evaluate_fixture_resource-cases_example :
    ((evaluate_fixture_resource 0 (ask "reader")).outcome ≡ success) ↔ Memᴰ "reader" granted_cases
evaluate_fixture_resource-cases_example =
    evaluate_fixture_resource-cases 0 (ask "reader") "reader" well_formed refl
