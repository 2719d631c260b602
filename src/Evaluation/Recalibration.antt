-- ===== src/Evaluation/Recalibration.antt =====
-- internal/policy/evaluation/recalibration.go: the retest tasks of a new revision.
use benzhi_project_fe3ad.Prelude.{
  ℕ, suc, Bool, true, false, not, ◌&&◌, ◌||◌, ltb, Option, none, some, String, List, [], ◌∷◌,
  str_eq, str_lt, map, select, length, sort, if◌then◌else◌,
}
use benzhi_project_fe3ad.Prelude.Int64.{slt}
use benzhi_project_fe3ad.Prelude.Maps.{Map, lookup, insert, values, lookup_by, insert_by}
use benzhi_project_fe3ad.Float64.{Float64, feq}
use benzhi_project_fe3ad.Calibration.Errors.{
  Result, ok, err, ◌>>=◌, ◌>>◌, reject, required, validation, plain,
}
use benzhi_project_fe3ad.Calibration.Types.{
  Snapshot, CalibrationProfile, SensorRevision, MeasurementSet, ReviewFinding, RecalibrationTask,
  RecalibrationTaskStatus, pending, passed, task_failed, inherited, Time, is_open,
}
use benzhi_project_fe3ad.Calibration.Snapshot.{is_current_revision}
use benzhi_project_fe3ad.Evaluation.Findings.{FindingDraft}
use benzhi_project_fe3ad.Evaluation.Coverage.{
  PointMap, at_point, precedes, previous_evidence_by_point,
}
pub mod Tasks

-- The sensor of the new revision, refused unless it is a current one after a recalibration.
abbrev retested_sensor : Snapshot → String → Result SensorRevision
retested_sensor s revision_id = elim (lookup revision_id s.sensors) [
  | none ↦ err (validation "复验任务必须属于当前返校修订")
  | some sensor ↦
      if slt sensor.revision 2 || not (is_current_revision s revision_id sensor.batch_id)
      then err (validation "复验任务必须属于当前返校修订")
      else ok sensor
]

-- An open finding of an earlier revision of the sensor, in its batch.
abbrev pub is_pending_finding : Snapshot → SensorRevision → ReviewFinding → Bool
is_pending_finding s sensor finding = elim (lookup finding.sensor_revision_id s.sensors) [
  | none ↦ false
  | some old ↦ is_open finding.status && precedes old sensor
]

-- `findingsByPoint[point]`, sorted.
unfoldable pub findings_at : Snapshot → SensorRevision → Float64 → List String
unfolding sort lookup_by feq
findings_at s sensor point = sort str_lt (
    map (λ f. f.id)
      (select (λ f. is_pending_finding s sensor f && feq f.point point) (values s.findings)))

abbrev source_of : Option MeasurementSet → String
source_of none = ""
source_of (some set) = set.sensor_revision_id

abbrev inherited_evidence : Bool → Option MeasurementSet → String
inherited_evidence true evidence = ""
inherited_evidence false none = ""
inherited_evidence false (some set) = set.id

unfoldable pub task_at :
    SensorRevision
    → (id : String) → Float64
    → List String
    → Option MeasurementSet
    → Time
    → RecalibrationTask
task_at sensor id point finding_ids evidence now =
    let must : Bool = ltb 0 (length finding_ids) in
    record {
      id = id;
      batch_id = sensor.batch_id;
      sensor_revision_id = sensor.id;
      reference_point = point;
      required = must;
      status = if must then pending else inherited;
      finding_ids = finding_ids;
      source_revision_id = source_of evidence;
      evidence_measurement_id = inherited_evidence must evidence;
      failure_reasons = [];
      updated_at = now;
    }

-- The tasks of the points, the k-th call of `newID` giving `ids k`.
unfoldable pub tasks_for :
    Snapshot
    → SensorRevision
    → (ids : ℕ → String) → ℕ
    → List Float64
    → Time
    → List RecalibrationTask
unfolding findings_at task_at previous_evidence_by_point lookup_by
tasks_for s sensor ids k [] now = []
tasks_for s sensor ids k (point ∷ points) now =
    task_at sensor (ids k) point (findings_at s sensor point)
      (at_point point (previous_evidence_by_point s sensor)) now
    ∷ tasks_for s sensor ids (suc k) points now

abbrev pub put_tasks : Map RecalibrationTask → List RecalibrationTask → Map RecalibrationTask
put_tasks m [] = m
put_tasks m (t ∷ ts) = put_tasks (insert t.id t m) ts

-- A missing batch is a nil pointer that the source reads through; it panics there.
unfoldable pub build_recalibration_tasks :
    Snapshot → String → (ids : ℕ → String) → Time → Result (Snapshot × List RecalibrationTask)
unfolding is_current_revision tasks_for lookup_by insert_by
build_recalibration_tasks s revision_id ids now = do
  sensor ← retested_sensor s revision_id
  batch ← required (lookup sensor.batch_id s.batches) (plain "nil pointer dereference")
  profile ← required (lookup batch.profile_id s.profiles) (validation "批次尚未锁定方案")
  let tasks = tasks_for s sensor ids 0 profile.points now
  ok (record s { recalibration_tasks = put_tasks s.recalibration_tasks tasks }, tasks)

-- The task that the measurement belongs to.
abbrev pub is_task_of : MeasurementSet → RecalibrationTask → Bool
is_task_of set task =
    str_eq task.sensor_revision_id set.sensor_revision_id
    && feq task.reference_point set.reference_point
    && task.required

unfoldable pub record_result :
    MeasurementSet → List FindingDraft → Time → RecalibrationTask → RecalibrationTask
record_result set [] now task = record task {
  evidence_measurement_id = set.id;
  updated_at = now;
  failure_reasons = [];
  status = passed;
}
record_result set (d ∷ ds) now task = record task {
  evidence_measurement_id = set.id;
  updated_at = now;
  failure_reasons = map (λ d. d.message) (d ∷ ds);
  status = task_failed;
}

abbrev resolved_ids : List FindingDraft → RecalibrationTask → List String
resolved_ids [] task = task.finding_ids
resolved_ids (d ∷ ds) task = []

-- The loop, which ends at the first task that fits.
unfoldable pub update_tasks :
    MeasurementSet
    → List FindingDraft
    → Time
    → Map RecalibrationTask
    → Map RecalibrationTask × List String
unfolding feq record_result
update_tasks set drafts now [] = ([], [])
update_tasks set drafts now ((k, task) ∷ tasks) =
    let rest = update_tasks set drafts now tasks in
    if is_task_of set task
    then ((k, record_result set drafts now task) ∷ tasks, resolved_ids drafts task)
    else ((k, task) ∷ rest.0, rest.1)

unfoldable pub update_recalibration_task :
    Snapshot → MeasurementSet → List FindingDraft → Time → Snapshot × List String
unfolding update_tasks
update_recalibration_task s set drafts now =
    let (tasks, ids) = update_tasks set drafts now s.recalibration_tasks in
    (record s { recalibration_tasks = tasks }, ids)
