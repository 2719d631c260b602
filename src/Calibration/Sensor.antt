-- ===== src/Calibration/Sensor.antt =====
-- internal/domain/calibration/sensor.go: registration and recalibration.
use benzhi_project_fe3ad.Prelude.{
  Bool, not, ◌&&◌, ◌||◌, none, some, String, [], ◌∷◌, ◌++◌, str_eq, any, is_blank, if◌then◌else◌,
}
use benzhi_project_fe3ad.Prelude.Int64.{inc}
use benzhi_project_fe3ad.Prelude.Maps.{lookup, insert, values, lookup_by, insert_by}
use benzhi_project_fe3ad.Float64.{Float64, fle}
use benzhi_project_fe3ad.Calibration.Errors.{
  Result, ok, err, ◌>>=◌, ◌>>◌, reject, validation, conflict,
}
use benzhi_project_fe3ad.Calibration.Types.{
  Snapshot, CalibrationBatch, SensorRevision, Time, draft, failed, returned, sampling, status_eq,
  is_open,
}
use benzhi_project_fe3ad.Calibration.Lifecycle.{move_to}
use benzhi_project_fe3ad.Calibration.Batch.{check_mutable}
use benzhi_project_fe3ad.Calibration.Snapshot.{find_batch, put_batch, is_current_revision}

unfoldable pub register_sensor :
    Snapshot
    → (batch_id id code metric unit : String) → (min max : Float64) → Time
    → Result (Snapshot × SensorRevision)
unfolding find_batch check_mutable insert_by
register_sensor s batch_id id code metric unit min max now = do
  b ← find_batch s batch_id
  check_mutable b
  reject (not (status_eq b.status draft)) (conflict "只能在草稿状态登记传感器")
  reject (is_blank code || is_blank metric || is_blank unit) (validation "传感器编码、指标和单位不能为空")
  reject (fle max min) (validation "量程下限必须小于上限")
  reject (any (λ e. str_eq e.batch_id batch_id && str_eq e.sensor_code code) (values s.sensors))
      (conflict "传感器编码 %s 已登记")
  let sensor : SensorRevision = record {
    id = id;
    batch_id = batch_id;
    sensor_code = code;
    revision = 1;
    metric = metric;
    unit = unit;
    range_min = min;
    range_max = max;
    recalibration_note = "";
    created_at = now;
  }
  let b' : CalibrationBatch = record b {
    sensor_ids = b.sensor_ids ++ id ∷ [];
    version = inc b.version;
  }
  ok (put_batch (record s { sensors = insert id sensor s.sensors }) batch_id b', sensor)

-- `s.Sensors[id]`, refused unless it belongs to the batch.
abbrev pub sensor_of_batch : Snapshot → String → String → Result SensorRevision
sensor_of_batch s id batch_id = elim (lookup id s.sensors) [
  | none ↦ err (validation "传感器修订不属于该批次")
  | some sensor ↦
      if str_eq sensor.batch_id batch_id then ok sensor else err (validation "传感器修订不属于该批次")
]

-- The status after a recalibration: a returned batch stays so.
abbrev resume_sampling : CalibrationBatch → Result CalibrationBatch
resume_sampling b =
    if status_eq b.status returned
    then ok (record b { version = inc b.version })
    else move_to b sampling

abbrev pub has_open_finding : Snapshot → String → Bool
has_open_finding s revision_id =
    any (λ f. str_eq f.sensor_revision_id revision_id && is_open f.status) (values s.findings)

unfoldable pub recalibrate_sensor :
    Snapshot → (batch_id old_id new_id note : String) → Time → Result (Snapshot × SensorRevision)
unfolding find_batch check_mutable is_current_revision lookup_by insert_by move_to
recalibrate_sensor s batch_id old_id new_id note now = do
  b ← find_batch s batch_id
  check_mutable b
  reject (not (status_eq b.status failed) && not (status_eq b.status returned))
      (conflict "只有不合格或退回批次可以返校")
  old ← sensor_of_batch s old_id batch_id
  reject (not (is_current_revision s old_id batch_id)) (validation "只能为当前传感器修订创建返校任务")
  reject (is_blank note) (validation "返校说明不能为空")
  reject (not (has_open_finding s old_id)) (validation "传感器 %s 没有待闭环问题")
  let copy : SensorRevision = record old {
    id = new_id;
    revision = inc old.revision;
    recalibration_note = note;
    created_at = now;
  }
  b' ← resume_sampling (record b { sensor_ids = b.sensor_ids ++ new_id ∷ [] })
  ok (put_batch (record s { sensors = insert new_id copy s.sensors }) batch_id b', copy)
