-- ===== src/Workflow/BatchCommands.antt =====
-- internal/application/workflow/batch_commands.go: the function `Mutate` of each command, on the
-- store's copy of the snapshot.
use benzhi_project_fe3ad.Prelude.{none, some, String}
use benzhi_project_fe3ad.Prelude.Maps.{lookup, insert}
use benzhi_project_fe3ad.Calibration.Errors.{Result, ok, err, ◌>>=◌, conflict}
use benzhi_project_fe3ad.Calibration.Types.{Snapshot, CalibrationProfile, Time}
use benzhi_project_fe3ad.Calibration.Batch
use benzhi_project_fe3ad.Calibration.Sensor
use benzhi_project_fe3ad.Calibration.Profile
use benzhi_project_fe3ad.Workflow.Commands.{SensorInput, ProfileInput, Response}
use benzhi_project_fe3ad.Workflow.Answers.{blank_response, answer}

unfoldable pub create_batch :
    (id station_code title actor : String) → Time → Snapshot → Result (Snapshot × Response)
create_batch id station_code title actor now s = elim (lookup id s.batches) [
  | some b ↦ err (conflict "批次标识冲突")
  | none ↦ Batch.create_batch id station_code title actor now >>= λ b. ok (
    record s { batches = insert id b s.batches },
    record (blank_response id id) { version = b.version; status = b.status },
  )
]

unfoldable pub register_sensor :
    (batch_id id : String) → SensorInput → Time → Snapshot → Result (Snapshot × Response)
register_sensor batch_id id i now s = do
  (s', sensor) ←
      Sensor.register_sensor s batch_id id i.sensor_code i.metric i.unit i.range_min i.range_max now
  answer s' batch_id (blank_response batch_id sensor.id)

abbrev pub profile_of : (batch_id id : String) → ProfileInput → CalibrationProfile
profile_of batch_id id i = record {
  id = id;
  batch_id = batch_id;
  points = i.points;
  repetitions_per_point = i.repetitions_per_point;
  absolute_tolerance = i.absolute_tolerance;
  relative_tolerance = i.relative_tolerance;
  repeatability_limit = i.repeatability_limit;
  locked_at = none;
}

unfoldable pub lock_profile :
    (batch_id id : String) → ProfileInput → Time → Snapshot → Result (Snapshot × Response)
lock_profile batch_id id i now s = do
  s' ← Profile.lock_profile s (profile_of batch_id id i) now
  answer s' batch_id (blank_response batch_id id)
