-- ===== src/Workflow/CalibrationCommands.antt =====
-- internal/application/workflow/calibration_commands.go: `Mutate` of the measurements and of the
-- recalibration.
use benzhi_project_fe3ad.Prelude.{
  ℕ, suc, ◌+◌, Bool, true, false, not, ◌&&◌, some, String, List, [], ◌∷◌, str_eq, str_lt, any, map,
  select, length, sort, if◌then◌else◌,
}
use benzhi_project_fe3ad.Prelude.Maps.{lookup, values}
use benzhi_project_fe3ad.Float64.{zero_float}
use benzhi_project_fe3ad.Calibration.Errors.{Result, ◌>>=◌, required, plain}
use benzhi_project_fe3ad.Calibration.Types.{
  Snapshot, CalibrationProfile, MeasurementSet, RecalibrationTaskStatus, passed, Time,
}
use benzhi_project_fe3ad.Calibration.Sensor
use benzhi_project_fe3ad.Calibration.Measurement.{put_measurements}
use benzhi_project_fe3ad.Calibration.Review.{replace_automatic_findings, set_evaluation_status}
use benzhi_project_fe3ad.Evaluation.Findings.{compare, materialize}
use benzhi_project_fe3ad.Evaluation.Evaluator.{apply_statistics, statistics_of, evaluate_batch}
use benzhi_project_fe3ad.Evaluation.Recalibration.{
  build_recalibration_tasks, update_recalibration_task,
}
use benzhi_project_fe3ad.Workflow.Commands.{MeasurementInput, MeasurementResult, Response}
use benzhi_project_fe3ad.Workflow.Answers.{Library, blank_response, answer}

-- `task.Required && task.Status != TaskPassed`, counted for the revision.
abbrev is_passed : RecalibrationTaskStatus → Bool
is_passed passed = true
is_passed _ = false

unfoldable pub pending_retest_points : Snapshot → String → ℕ
pending_retest_points s revision_id = length (
    select (λ t. str_eq t.sensor_revision_id revision_id && t.required && not (is_passed t.status))
      (values s.recalibration_tasks))

-- The measurement of one input, with its statistics.
unfoldable pub measured :
    Library → (batch_id sensor_id actor : String) → ℕ → List MeasurementInput → List MeasurementSet
measured l batch_id sensor_id actor k [] = []
measured l batch_id sensor_id actor k (i ∷ is) =
    apply_statistics (record {
      id = l.fresh "measurement" k;
      batch_id = batch_id;
      sensor_revision_id = sensor_id;
      reference_point = i.reference_point;
      readings = i.readings;
      mean = zero_float;
      absolute_error = zero_float;
      relative_error = zero_float;
      spread = zero_float;
      captured_by = actor;
      captured_at = 0;
    })
    ∷ measured l batch_id sensor_id actor (suc k) is

abbrev result_of : MeasurementSet → MeasurementResult
result_of set = record {
  id = set.id;
  reference_point = set.reference_point;
  mean = set.mean;
  absolute_error = set.absolute_error;
  relative_error = set.relative_error;
  spread = set.spread;
}

-- The loop that judges the stored sets: the new snapshot and the keys of `resolvedSet`, each once.
abbrev add_key : String → List String → List String
add_key id ids = if any (λ i. str_eq i id) ids then ids else id ∷ ids

abbrev add_keys : List String → List String → List String
add_keys [] ids = ids
add_keys (i ∷ is) ids = add_keys is (add_key i ids)

module _ (l : Library) (batch_id : String) (profile : CalibrationProfile) (now : Time) where
  unfoldable pub judge_set : ℕ → Snapshot → MeasurementSet → Snapshot × List String × ℕ
  judge_set k s set =
      let drafts = compare l.format_6g set.reference_point (statistics_of set) profile in
      let findings = materialize (l.fresh "finding") k batch_id set.sensor_revision_id drafts in
      let updated = update_recalibration_task s set drafts now in
      let replaced =
        replace_automatic_findings updated.0 batch_id set.sensor_revision_id set.reference_point
          findings now in
      (replaced.0, replaced.1, k + length drafts)

  unfoldable pub judge_sets :
      ℕ → List String → Snapshot → List MeasurementSet → Snapshot × List String
  judge_sets k resolved_set s [] = (s, resolved_set)
  judge_sets k resolved_set s (set ∷ sets) =
      let step = judge_set k s set in judge_sets step.2 (add_keys step.1 resolved_set) step.0 sets

-- The profile behind `snapshot.Profiles[batch.ProfileID]`: a nil one panics in `Compare`.
unfoldable pub submit_measurements :
    Library
    → (batch_id sensor_id actor : String) → List MeasurementInput
    → Time
    → Snapshot
    → Result (Snapshot × Response)
submit_measurements l batch_id sensor_id actor inputs now s = do
  let sets = measured l batch_id sensor_id actor 0 inputs
  s₁ ← put_measurements s (map some sets) now
  batch ← required (lookup batch_id s₁.batches) (plain "nil pointer dereference")
  profile ← required (lookup batch.profile_id s₁.profiles) (plain "nil pointer dereference")
  let (s₂, resolved_set) = judge_sets l batch_id profile now 0 [] s₁ sets
  evaluated ← evaluate_batch l.format_6g s₂ batch_id
  s₃ ← set_evaluation_status s₂ batch_id evaluated.complete
  answer s₃ batch_id (record (blank_response batch_id "") {
    sensor_revision_id = sensor_id;
    measurements = map result_of sets;
    pending_retest_points = pending_retest_points s₃ sensor_id;
    resolved_finding_ids = sort str_lt resolved_set;
  })

unfoldable pub recalibrate :
    Library → (batch_id sensor_id note : String) → Time → Snapshot → Result (Snapshot × Response)
recalibrate l batch_id sensor_id note now s = do
  (s₁, sensor) ← Sensor.recalibrate_sensor s batch_id sensor_id (l.fresh "sensor" 0) note now
  (s₂, tasks) ← build_recalibration_tasks s₁ sensor.id (l.fresh "retest") now
  answer s₂ batch_id (record (blank_response batch_id sensor.id) {
    pending_retest_points = pending_retest_points s₂ sensor.id;
  })
