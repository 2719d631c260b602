-- ===== src/Calibration/Measurement.antt =====
-- internal/domain/calibration/measurement.go: the batch of readings for one sensor revision. A nil
-- pointer in the slice is `none`.
use benzhi_project_fe3ad.Prelude.{
  Bool, true, false, not, ◌&&◌, ◌||◌, ◌==◌, Option, none, some, String, List, [], ◌∷◌, str_eq, any,
  length, is_empty, if◌then◌else◌,
}
use benzhi_project_fe3ad.Prelude.Maps.{lookup, insert, values, lookup_by, insert_by}
use benzhi_project_fe3ad.Float64.{Float64, flt, feq, is_finite}
use benzhi_project_fe3ad.Calibration.Errors.{
  Result, ok, err, ◌>>=◌, ◌>>◌, reject, validation, conflict,
}
use benzhi_project_fe3ad.Calibration.Types.{
  Snapshot, CalibrationBatch, CalibrationProfile, SensorRevision, MeasurementSet, Time, plan_locked,
  sampling, failed, returned, status_eq,
}
use benzhi_project_fe3ad.Calibration.Batch.{check_mutable, add_sampler}
use benzhi_project_fe3ad.Calibration.Snapshot.{find_batch, put_batch, is_current_revision}
use benzhi_project_fe3ad.Calibration.Sensor.{sensor_of_batch}
use benzhi_project_fe3ad.Calibration.Profile.{point_in_profile}

-- `s.Measurements[id] != nil`
abbrev pub has_measurement : Snapshot → String → Bool
has_measurement s id = elim (lookup id s.measurements) [ none ↦ false | some _ ↦ true ]

abbrev pub out_of_range : SensorRevision → Float64 → Bool
out_of_range sensor reading =
    not (is_finite reading) || flt reading sensor.range_min || flt sensor.range_max reading

-- The readings of the sensor revision at the point are in already.
abbrev pub already_measured : Snapshot → String → Float64 → Bool
already_measured s sensor_id point =
    any (λ e. str_eq e.sensor_revision_id sensor_id && feq e.reference_point point)
      (values s.measurements)

-- The profile, unless it is nil or lacks the point.
abbrev pub profile_at : Option CalibrationProfile → Float64 → Result CalibrationProfile
profile_at none point = err (validation "标准点不在锁定方案内")
profile_at (some p) point = if point_in_profile p point then ok p else err (validation "标准点不在锁定方案内")

abbrev pub seen_point : List Float64 → Float64 → Bool
seen_point seen point = any (λ p. feq p point) seen

abbrev pub seen_id : List String → String → Bool
seen_id seen id = any (λ i. str_eq i id) seen

module _ (s : Snapshot) (batch_id sensor_id : String) (sensor : SensorRevision)
    (profile : Option CalibrationProfile) where
  -- The body of the first loop.
  unfoldable pub check_set : List Float64 → List String → MeasurementSet → Result (Unit {0})
  unfolding point_in_profile feq flt is_finite lookup_by
  check_set seen seen_ids set = do
    reject (not (str_eq set.batch_id batch_id) || not (str_eq set.sensor_revision_id sensor_id))
        (validation "批量读数必须属于同一批次和传感器修订")
    p ← profile_at profile set.reference_point
    reject (seen_point seen set.reference_point) (validation "批量请求中的标准点不能重复")
    reject (is_empty set.id || seen_id seen_ids set.id || has_measurement s set.id)
        (validation "批量读数标识无效或重复")
    reject (is_empty set.captured_by) (validation "采样提交人不能为空")
    reject (not (length set.readings == p.repetitions_per_point)) (validation "标准点需要 %d 个重复读数")
    reject (any (out_of_range sensor) set.readings) (validation "标准点 %.6g 的读数超出传感器量程")
    reject (already_measured s sensor_id set.reference_point) (conflict "该传感器修订的标准点 %.6g 读数已提交且不可变")

  unfoldable pub check_sets :
      List Float64 → List String → List (Option MeasurementSet) → Result (Unit {0})
  unfolding check_set
  check_sets seen seen_ids [] = ok tt
  check_sets seen seen_ids (none ∷ sets) = err (validation "批量读数必须属于同一批次和传感器修订")
  check_sets seen seen_ids (some set ∷ sets) = do
    check_set seen seen_ids set
    check_sets (set.reference_point ∷ seen) (set.id ∷ seen_ids) sets

-- The second loop, which a nil pointer does not reach. The batch is the one behind `b`.
unfoldable pub store_sets :
    Time → List (Option MeasurementSet) → Snapshot → CalibrationBatch → Snapshot × CalibrationBatch
unfolding insert_by add_sampler
store_sets now [] s b = (s, b)
store_sets now (none ∷ sets) s b = store_sets now sets s b
store_sets now (some set ∷ sets) s b =
    store_sets now sets
      (record s { measurements = insert set.id (record set { captured_at = now }) s.measurements })
      (add_sampler b set.captured_by)

-- `sets[0]`
abbrev pub first_set : List (Option MeasurementSet) → Result MeasurementSet
first_set [] = err (validation "批量读数至少包含一个标准点")
first_set (none ∷ sets) = err (validation "批量读数不能包含空项目")
first_set (some set ∷ sets) = ok set

unfoldable pub put_measurements : Snapshot → List (Option MeasurementSet) → Time → Result Snapshot
unfolding find_batch check_mutable is_current_revision lookup_by insert_by check_sets store_sets
put_measurements s sets now = do
  head ← first_set sets
  let batch_id = head.batch_id
  let sensor_id = head.sensor_revision_id
  b ← find_batch s batch_id
  check_mutable b
  reject
      (not (status_eq b.status plan_locked)
        && not (status_eq b.status sampling)
        && not (status_eq b.status failed)
        && not (status_eq b.status returned))
      (conflict "当前状态不能提交读数")
  sensor ← sensor_of_batch s sensor_id batch_id
  reject (not (is_current_revision s sensor_id batch_id)) (validation "只能为当前传感器修订提交读数")
  check_sets s batch_id sensor_id sensor (lookup b.profile_id s.profiles) [] [] sets
  let (s', b') = store_sets now sets s b
  ok (put_batch s' batch_id b')

unfoldable pub put_measurement : Snapshot → Option MeasurementSet → Time → Result Snapshot
unfolding put_measurements
put_measurement s set now = put_measurements s (set ∷ []) now
