-- ===== src/Evaluation/Evaluator.antt =====
-- internal/policy/evaluation/evaluator.go: a revision, and a batch, against the locked profile.
use benzhi_project_fe3ad.Prelude.{
  Bool, true, false, ◌&&◌, ◌==◌, ltb, Option, none, some, String, List, [], ◌∷◌, ◌++◌, length, sort,
  if◌then◌else◌,
}
use benzhi_project_fe3ad.Prelude.Maps.{lookup, lookup_by}
use benzhi_project_fe3ad.Float64.{Float64}
use benzhi_project_fe3ad.Calibration.Errors.{Result, ok, ◌>>=◌, required, validation, not_found}
use benzhi_project_fe3ad.Calibration.Types.{
  Snapshot, CalibrationProfile, SensorRevision, MeasurementSet,
}
use benzhi_project_fe3ad.Calibration.Snapshot.{find_batch, current_sensors}
use benzhi_project_fe3ad.Evaluation.Statistics.{Statistics, calculate}
use benzhi_project_fe3ad.Evaluation.Findings.{FindingDraft, compare}
use benzhi_project_fe3ad.Evaluation.Coverage.{PointMap, at_point, effective_evidence, by_code}

pub record SensorResult : Type 0 where
  pub revision : SensorRevision
  pub complete : Bool
  pub drafts : List FindingDraft

pub record BatchResult : Type 0 where
  pub complete : Bool
  pub sensors : List SensorResult

unfoldable pub apply_statistics : MeasurementSet → MeasurementSet
unfolding calculate
apply_statistics set =
    let stats = calculate set.reference_point set.readings in
    record set {
      mean = stats.mean;
      absolute_error = stats.absolute_error;
      relative_error = stats.relative_error;
      spread = stats.spread;
    }

-- The statistics that a measurement carries.
abbrev pub statistics_of : MeasurementSet → Statistics
statistics_of set = record {
  mean = set.mean;
  absolute_error = set.absolute_error;
  relative_error = set.relative_error;
  spread = set.spread;
}

module _ (show : Float64 → String) where
  -- The body of the loop over the points, on `result.Complete` and `result.Drafts`.
  unfoldable pub judge_point :
      CalibrationProfile → Option MeasurementSet → Float64 → Bool × List FindingDraft
  unfolding compare
  judge_point profile none point = (false, [])
  judge_point profile (some set) point =
      if length set.readings == profile.repetitions_per_point
      then (true, compare show point (statistics_of set) profile)
      else (false, [])

  unfoldable pub judge_points :
      CalibrationProfile → PointMap → List Float64 → Bool × List FindingDraft
  unfolding judge_point lookup_by
  judge_points profile sets [] = (true, [])
  judge_points profile sets (point ∷ points) =
      let (complete, drafts) = judge_point profile (at_point point sets) point in
      let (all_complete, rest) = judge_points profile sets points in
      (complete && all_complete, drafts ++ rest)

  unfoldable pub evaluate_revision : Snapshot → String → Result SensorResult
  unfolding find_batch judge_points effective_evidence lookup_by
  evaluate_revision s revision_id = do
    sensor ← required (lookup revision_id s.sensors) (not_found "传感器修订 %s 不存在")
    b ← find_batch s sensor.batch_id
    profile ← required (lookup b.profile_id s.profiles) (validation "批次尚未锁定方案")
    let (complete, drafts) = judge_points profile (effective_evidence s sensor) profile.points
    ok (record { revision = sensor; complete = complete; drafts = drafts })

  -- The loop over the current sensors.
  unfoldable pub evaluate_sensors : Snapshot → List SensorRevision → Result (List SensorResult)
  unfolding evaluate_revision
  evaluate_sensors s [] = ok []
  evaluate_sensors s (sensor ∷ sensors) = do
    item ← evaluate_revision s sensor.id
    rest ← evaluate_sensors s sensors
    ok (item ∷ rest)

  abbrev pub all_complete : List SensorResult → Bool
  all_complete [] = true
  all_complete (r ∷ rs) = r.complete && all_complete rs

  unfoldable pub evaluate_batch : Snapshot → String → Result BatchResult
  unfolding find_batch current_sensors evaluate_sensors sort
  evaluate_batch s batch_id = do
    b ← find_batch s batch_id
    let current = sort by_code (current_sensors s batch_id)
    items ← evaluate_sensors s current
    ok (record { complete = ltb 0 (length current) && all_complete items; sensors = items })
