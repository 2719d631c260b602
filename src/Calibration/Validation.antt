-- ===== src/Calibration/Validation.antt =====
-- internal/domain/calibration/validation.go: the relationships that every committed projection, and
-- every one that is read back, has to satisfy. The prefix that names the entity, which the source
-- puts before an inner message, is left out. A map holds no nil pointer here.
use benzhi_project_fe3ad.Prelude.{
  ℕ, suc, Bool, true, false, not, ◌&&◌, ◌||◌, ◌==◌, ltb, Option, none, some, String, List, [], ◌∷◌,
  str_eq, any, select, map, sort, length, is_empty, if◌then◌else◌,
}
use benzhi_project_fe3ad.Prelude.Int64.{Int64, slt}
use benzhi_project_fe3ad.Prelude.Maps.{Map, lookup, values, lookup_by}
use benzhi_project_fe3ad.Float64.{Float64, flt, fle, is_finite}
use benzhi_project_fe3ad.Calibration.Errors.{Result, ok, err, ◌>>◌, reject, plain}
use benzhi_project_fe3ad.Calibration.Types.{
  Snapshot, CalibrationBatch, SensorRevision, CalibrationProfile, MeasurementSet, ReviewFinding,
  RecalibrationTask, ReleaseCredential, ReviewRecord, BatchStatus, draft, frozen, released, other,
  FindingStatus, open_finding, resolved, other_finding, RecalibrationTaskStatus, inherited,
  other_task, status_eq, is_zero_time,
}
use benzhi_project_fe3ad.Calibration.Batch.{has_sampler}
use benzhi_project_fe3ad.Calibration.Snapshot.{credential_for_batch}
pub mod Records
pub mod Facts

abbrev pub is_nil {ℓ} : {A : Type ℓ} → Option A → Bool
is_nil none = true
is_nil (some a) = false

unfoldable pub known_status : BatchStatus → Bool
known_status (other s) = false
known_status _ = true

-- A loop over the entries of a map or of a slice that stops at the first error.
abbrev pub each {ℓ} : {A : Type ℓ} → (A → Result (Unit {0})) → List A → Result (Unit {0})
each check [] = ok tt
each check (a ∷ as') = check a >> each check as'

-- A sensor of the batch under that id.
abbrev pub owns_sensor : Snapshot → String → String → Bool
owns_sensor s batch_id sensor_id = elim (lookup sensor_id s.sensors) [
  | none ↦ false
  | some sensor ↦ str_eq sensor.batch_id batch_id
]

abbrev owns_profile : Snapshot → String → String → Bool
owns_profile s batch_id profile_id = elim (lookup profile_id s.profiles) [
  | none ↦ false
  | some p ↦ str_eq p.batch_id batch_id
]

-- The loop over `batch.SensorIDs` with its set `seen`.
check_references : Snapshot → String → List String → List String → Result (Unit {0})
unfolding lookup_by
check_references s batch_id seen [] = ok tt
check_references s batch_id seen (id ∷ ids) = do
  reject (any (λ i. str_eq i id) seen) (plain "重复引用传感器修订 %s")
  reject (not (owns_sensor s batch_id id)) (plain "传感器修订 %s 不属于批次")
  check_references s batch_id (id ∷ seen) ids

-- `revision != i+1` over the sorted revisions of one sensor code.
check_numbering : ℕ → List Int64 → Result (Unit {0})
check_numbering i [] = ok tt
check_numbering i (r ∷ rs) = do
  reject (not (r == suc i)) (plain "传感器 %s 的修订序号不连续")
  check_numbering (suc i) rs

-- `byCode[code]` for the sensors of the batch.
abbrev pub revisions_of : Snapshot → String → String → List Int64
revisions_of s batch_id code =
    map (λ e. e.revision)
      (select (λ e. str_eq e.batch_id batch_id && str_eq e.sensor_code code) (values s.sensors))

-- A code is checked once for each of its revisions, where the source goes through the codes.
unfoldable pub validate_revision_sequence : Snapshot → String → Result (Unit {0})
unfolding check_numbering sort
validate_revision_sequence s batch_id =
    each (λ e. check_numbering 0 (sort slt (revisions_of s batch_id e.sensor_code)))
      (select (λ e. str_eq e.batch_id batch_id) (values s.sensors))

abbrev check_frozen : CalibrationBatch → Result (Unit {0})
check_frozen b =
    if status_eq b.status frozen || status_eq b.status released
    then (reject (is_nil b.frozen_at || is_empty b.reviewed_by) (plain "冻结批次缺少冻结时间或复核员")
        >> reject (has_sampler b b.reviewed_by) (plain "冻结批次违反职责分离"))
    else reject (not (is_nil b.frozen_at)) (plain "未冻结批次不应有冻结时间")

unfoldable pub validate_batch : Snapshot → CalibrationBatch → Result (Unit {0})
unfolding known_status check_references has_sampler credential_for_batch validate_revision_sequence
validate_batch s b = do
  reject (is_empty b.id || is_empty b.station_code || is_empty b.title || is_empty b.created_by)
      (plain "基本信息不完整")
  reject (slt b.version 1 || is_zero_time b.created_at) (plain "版本或创建时间无效")
  reject (not (known_status b.status)) (plain "未知状态 %s")
  check_references s b.id [] b.sensor_ids
  reject (not (is_empty b.profile_id) && not (owns_profile s b.id b.profile_id)) (plain "锁定方案不属于批次")
  reject (not (status_eq b.status draft) && is_empty b.profile_id) (plain "非草稿批次缺少锁定方案")
  check_frozen b
  reject (status_eq b.status released && is_nil (credential_for_batch s b.id)) (plain "已放行批次缺少凭据")
  validate_revision_sequence s b.id

unfoldable pub validate_sensor : Snapshot → SensorRevision → Result (Unit {0})
unfolding lookup_by is_finite fle
validate_sensor s e = do
  reject (is_nil (lookup e.batch_id s.batches)) (plain "所属批次不存在")
  reject (is_empty e.sensor_code || is_empty e.metric || is_empty e.unit || slt e.revision 1)
      (plain "身份或修订信息无效")
  reject (not (is_finite e.range_min) || not (is_finite e.range_max) || fle e.range_max e.range_min)
      (plain "量程无效")
  reject (slt 1 e.revision && is_empty e.recalibration_note) (plain "返校修订缺少说明")

abbrev references_profile : Snapshot → CalibrationProfile → Bool
references_profile s p = elim (lookup p.batch_id s.batches) [
  | none ↦ false
  | some b ↦ str_eq b.profile_id p.id
]

abbrev not_above : Option Float64 → Float64 → Bool
not_above none point = false
not_above (some previous) point = fle point previous

check_increasing : Option Float64 → List Float64 → Result (Unit {0})
unfolding is_finite fle
check_increasing previous [] = ok tt
check_increasing previous (p ∷ ps) = do
  reject (not (is_finite p) || not_above previous p) (plain "标准点必须严格递增")
  check_increasing (some p) ps

unfoldable pub validate_profile : Snapshot → CalibrationProfile → Result (Unit {0})
unfolding lookup_by is_finite check_increasing
validate_profile s p = do
  reject (not (references_profile s p)) (plain "所属批次未引用该方案")
  reject (is_nil p.locked_at || ltb (length p.points) 2 || slt p.repetitions_per_point 2)
      (plain "方案未完整锁定")
  reject
      (not (is_finite p.absolute_tolerance)
        || not (is_finite p.relative_tolerance)
        || not (is_finite p.repeatability_limit))
      (plain "方案阈值不是有限数值")
  check_increasing none p.points
