-- ===== src/Tests/Exchanges.antt =====
-- The exchanges of a self-check with a server that answers by a script.
use benzhi_project_fe3ad.Prelude.{ℕ, ◌≡◌, refl, String, List, [], ◌∷◌, ◌++◌}
use benzhi_project_fe3ad.Calibration.Errors.{Result, ok, err, plain}
use benzhi_project_fe3ad.HttpApi.Client.{ClientJson, Web, mutate, call}
use benzhi_project_fe3ad.HttpApi.Selfcheck.{closed, run, wait_healthy, run_selfcheck}
use benzhi_project_fe3ad.HttpApi.Selfcheck.Exchanges.{Exchange, recording}
use benzhi_project_fe3ad.HttpApi.Selfcheck.Trace.{IsScenario}
use benzhi_project_fe3ad.HttpApi.Selfcheck.Waiting.{IsWait, run_selfcheck-IsScenario}

abbrev next_answer : List ℕ → List ℕ × Result (ℕ × String)
next_answer [] = ([], err (plain "Do"))
next_answer (status ∷ answers) = (answers, ok (status, "{}"))

abbrev scripted : Web
scripted = record { State = List ℕ; request = λ s method path body. next_answer s }

abbrev json : ClientJson
json = record {
  marshal = λ fields. ok "{}";
  unmarshal_result = λ t. ok (record { batch_id = "b1"; id = "e1"; status = ""; version = 1 });
  unmarshal_credential = λ t. ok ("c1", "#");
}

abbrev script : List ℕ
script =
    503 ∷ 200 ∷ 201 ∷ 201 ∷ 200 ∷ 201 ∷ 201 ∷ 201 ∷ 409 ∷ 201 ∷ 200 ∷ 201 ∷ 200 ∷ 201 ∷ 200 ∷ 200
    ∷ 200 ∷ 200 ∷ 200 ∷ 200 ∷ []

abbrev outcome : (List ℕ × List Exchange) × Result (Unit {0})
unfolding run_selfcheck
outcome = run_selfcheck (recording scripted) json 5 (ok tt) closed (script, [])

run_selfcheck-IsScenario_example :
    (polls es : List Exchange) × (outcome.0.1 ≡ polls ++ es) × IsWait 6 polls × IsScenario json es
unfolding run_selfcheck wait_healthy run mutate call
run_selfcheck-IsScenario_example =
    run_selfcheck-IsScenario scripted json 5 (ok tt) closed script _ [] _ refl
