-- ===== src/Calibration/Profile.antt =====
-- internal/domain/calibration/profile.go: locking the reference points of a batch.
use benzhi_project_fe3ad.Prelude.{
  ℕ, zero, suc, ◌-◌, Bool, true, false, not, ◌&&◌, ◌||◌, ltb, Option, none, some, List, [], ◌∷◌,
  any, sort, length, last, if◌then◌else◌,
}
use benzhi_project_fe3ad.Prelude.Int64.{slt}
use benzhi_project_fe3ad.Prelude.Maps.{insert, insert_by}
use benzhi_project_fe3ad.Float64.{Float64, flt, feq, is_finite, is_nan, zero_float}
use benzhi_project_fe3ad.Calibration.Errors.{
  Result, ok, err, ◌>>=◌, ◌>>◌, reject, validation, conflict,
}
use benzhi_project_fe3ad.Calibration.Types.{
  Snapshot, CalibrationBatch, CalibrationProfile, SensorRevision, Time, draft, plan_locked,
  status_eq,
}
use benzhi_project_fe3ad.Calibration.Lifecycle.{move_to}
use benzhi_project_fe3ad.Calibration.Snapshot.{find_batch, put_batch, current_sensors}
pub mod Locked

-- The order of `sort.Float64s`, which puts NaN first.
abbrev pub float_less : Float64 → Float64 → Bool
float_less x y = flt x y || (is_nan x && not (is_nan y))

abbrev pub equals_previous : Option Float64 → Float64 → Bool
equals_previous none point = false
equals_previous (some previous) point = feq point previous

-- The loop over the sorted points; `previous` is `points[i-1]`.
unfoldable pub check_points : Option Float64 → List Float64 → Result (Unit {0})
unfolding is_finite feq
check_points previous [] = ok tt
check_points previous (point ∷ points) = do
  reject (not (is_finite point)) (validation "标准点必须是有限数值")
  reject (equals_previous previous point) (validation "标准点不能重复")
  check_points (some point) points

-- `points[0] < sensor.RangeMin || points[len(points)-1] > sensor.RangeMax`
unfoldable pub uncovered : List Float64 → SensorRevision → Bool
unfolding flt
uncovered [] sensor = false
uncovered (p ∷ ps) sensor = flt p sensor.range_min || above (last (p ∷ ps))
  where
    above : Option Float64 → Bool
    above none = false
    above (some q) = flt sensor.range_max q

unfoldable pub lock_profile : Snapshot → CalibrationProfile → Time → Result Snapshot
unfolding find_batch move_to insert_by sort
lock_profile s p now = do
  b ← find_batch s p.batch_id
  reject (not (status_eq b.status draft)) (conflict "只能为草稿批次锁定方案")
  reject (ltb (length b.sensor_ids) 1) (validation "锁定方案前至少登记一个传感器")
  reject (ltb (length p.points) 2) (validation "标准点至少需要两个")
  reject (slt p.repetitions_per_point 2) (validation "每个标准点至少重复两次")
  reject
      (flt p.absolute_tolerance zero_float
        || flt p.relative_tolerance zero_float
        || flt p.repeatability_limit zero_float)
      (validation "阈值不能为负数")
  let points = sort float_less p.points
  check_points none points
  reject (any (uncovered points) (current_sensors s p.batch_id)) (validation "标准点未被传感器 %s 的量程覆盖")
  let locked : CalibrationProfile = record p { points = points; locked_at = some now }
  b' ← move_to (record b { profile_id = p.id }) plan_locked
  ok (put_batch (record s { profiles = insert p.id locked s.profiles }) p.batch_id b')

unfoldable pub point_in_profile : CalibrationProfile → Float64 → Bool
unfolding feq
point_in_profile p point = any (λ candidate. feq candidate point) p.points
