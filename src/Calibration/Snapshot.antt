-- ===== src/Calibration/Snapshot.antt =====
-- internal/domain/calibration/snapshot.go: the queries of the projection. Its maps are never nil
-- here, which is what `EnsureMaps` sees to, and hold no nil pointers.
use benzhi_project_fe3ad.Prelude.{
  Bool, true, false, not, ◌&&◌, ◌||◌, Option, none, some, String, List, [], str_eq, any, select,
  first, if◌then◌else◌,
}
use mathlib.Core.List.{foldl}
use benzhi_project_fe3ad.Prelude.Int64.{slt}
use benzhi_project_fe3ad.Prelude.Maps.{Map, lookup, insert, values, lookup_by, insert_by}
use benzhi_project_fe3ad.Calibration.Errors.{Result, required, not_found}
use benzhi_project_fe3ad.Calibration.Types.{
  Snapshot, CalibrationBatch, SensorRevision, ReviewFinding, RecalibrationTask, ReleaseCredential,
  is_open,
}

abbrev pub new_snapshot : Snapshot
new_snapshot = record {
  schema_version = 1;
  batches = [];
  sensors = [];
  profiles = [];
  measurements = [];
  findings = [];
  recalibration_tasks = [];
  credentials = [];
  reviews = [];
}

-- A later revision of the same sensor in the batch.
abbrev pub supersedes : String → SensorRevision → SensorRevision → Bool
supersedes batch_id sensor candidate =
    str_eq candidate.batch_id batch_id
    && str_eq candidate.sensor_code sensor.sensor_code
    && slt sensor.revision candidate.revision

abbrev current_among : String → List SensorRevision → Option SensorRevision → Bool
current_among batch_id all none = false
current_among batch_id all (some sensor) =
    if not (str_eq sensor.batch_id batch_id)
    then false
    else not (any (supersedes batch_id sensor) all)

unfoldable pub is_current_revision : Snapshot → String → String → Bool
unfolding lookup_by
is_current_revision s sensor_id batch_id =
    current_among batch_id (values s.sensors) (lookup sensor_id s.sensors)

unfoldable pub recalibration_tasks_for_revision :
    Snapshot → String → String → List RecalibrationTask
recalibration_tasks_for_revision s batch_id revision_id =
    select (λ t. str_eq t.batch_id batch_id && str_eq t.sensor_revision_id revision_id)
      (values s.recalibration_tasks)

-- `s.Batch(id)`
unfoldable pub find_batch : Snapshot → String → Result CalibrationBatch
unfolding lookup_by
find_batch s id = required (lookup id s.batches) (not_found "校准批次 %s 不存在")

-- The write through the pointer `s.Batches[id]`.
abbrev pub put_batch : Snapshot → String → CalibrationBatch → Snapshot
put_batch s id b = record s { batches = insert id b s.batches }

abbrev newer_than : SensorRevision → Option SensorRevision → Bool
newer_than sensor none = true
newer_than sensor (some old) = slt old.revision sensor.revision

-- The loop's body, on the map `latest` from sensor codes.
latest_step : String → Map SensorRevision → SensorRevision → Map SensorRevision
unfolding lookup_by insert_by
latest_step batch_id latest sensor =
    if not (str_eq sensor.batch_id batch_id)
    then latest
    else if newer_than sensor (lookup sensor.sensor_code latest)
    then insert sensor.sensor_code sensor latest
    else latest

unfoldable pub current_sensors : Snapshot → String → List SensorRevision
unfolding latest_step
current_sensors s batch_id = values (foldl (latest_step batch_id) [] (values s.sensors))

unfoldable pub batch_findings : Snapshot → String → Bool → List ReviewFinding
batch_findings s batch_id open_only =
    select (λ f. str_eq f.batch_id batch_id && (not open_only || is_open f.status))
      (values s.findings)

unfoldable pub credential_for_batch : Snapshot → String → Option ReleaseCredential
credential_for_batch s batch_id = first (λ c. str_eq c.batch_id batch_id) (values s.credentials)
