-- ===== src/Calibration/Validation/Records.antt =====
-- internal/domain/calibration/validation.go, the rest: measurements, findings, tasks, credentials,
-- reviews, and the whole snapshot.
use benzhi_project_fe3ad.Prelude.{
  Bool, true, false, not, ◌&&◌, ◌||◌, ◌==◌, Option, none, some, String, List, [], ◌∷◌, str_eq, any,
  length, is_empty,
}
use benzhi_project_fe3ad.Prelude.Int64.{slt}
use benzhi_project_fe3ad.Prelude.Maps.{lookup, lookup_by}
use benzhi_project_fe3ad.Float64.{Float64, flt, is_finite}
use benzhi_project_fe3ad.Calibration.Errors.{Result, ok, ◌>>=◌, ◌>>◌, reject, required, plain}
use benzhi_project_fe3ad.Calibration.Types.{
  Snapshot, SensorRevision, CalibrationProfile, MeasurementSet, ReviewFinding, RecalibrationTask,
  ReleaseCredential, ReviewRecord, released, FindingStatus, open_finding, resolved, other_finding,
  RecalibrationTaskStatus, inherited, other_task, status_eq, is_zero_time,
}
use benzhi_project_fe3ad.Calibration.Profile.{point_in_profile}
use benzhi_project_fe3ad.Calibration.Validation.{
  each, is_nil, owns_sensor, validate_batch, validate_sensor, validate_profile,
}

abbrev offers : Option CalibrationProfile → Float64 → Bool
offers none point = false
offers (some p) point = point_in_profile p point

unfoldable pub validate_measurement : Snapshot → MeasurementSet → Result (Unit {0})
unfolding lookup_by flt is_finite point_in_profile
validate_measurement s set = do
  sensor ← required (lookup set.sensor_revision_id s.sensors) (plain "所属批次或传感器修订无效")
  batch ← required (lookup set.batch_id s.batches) (plain "所属批次或传感器修订无效")
  reject (not (str_eq sensor.batch_id set.batch_id)) (plain "所属批次或传感器修订无效")
  profile ← required (lookup batch.profile_id s.profiles) (plain "标准点不属于锁定方案")
  reject (not (point_in_profile profile set.reference_point)) (plain "标准点不属于锁定方案")
  reject
      (not (length set.readings == profile.repetitions_per_point)
        || is_empty set.captured_by
        || is_zero_time set.captured_at)
      (plain "读数数量或采集元数据无效")
  reject
      (any (λ r. not (is_finite r) || flt r sensor.range_min || flt sensor.range_max r)
        set.readings)
      (plain "包含无效或越界读数")

abbrev known_finding : FindingStatus → Bool
known_finding (other_finding t) = false
known_finding open_finding = true
known_finding resolved = true

-- A later revision of the same sensor in the batch of the finding.
abbrev resolves : Snapshot → ReviewFinding → SensorRevision → Bool
resolves s f sensor = elim (lookup f.resolved_by_revision s.sensors) [
  | none ↦ false
  | some later ↦
      str_eq later.batch_id f.batch_id
      && str_eq later.sensor_code sensor.sensor_code
      && slt sensor.revision later.revision
]

check_resolution : Snapshot → ReviewFinding → SensorRevision → FindingStatus → Result (Unit {0})
unfolding lookup_by
check_resolution s f sensor resolved = do
  reject (not (resolves s f sensor)) (plain "闭环修订无效")
  reject (is_nil f.reviewed_at) (plain "闭环问题缺少时间")
check_resolution s f sensor _ = ok tt

unfoldable pub validate_finding : Snapshot → ReviewFinding → Result (Unit {0})
unfolding lookup_by check_resolution
validate_finding s f = do
  sensor ← required (lookup f.sensor_revision_id s.sensors) (plain "批次与传感器归属无效")
  reject (not (str_eq sensor.batch_id f.batch_id) || is_nil (lookup f.batch_id s.batches))
      (plain "批次与传感器归属无效")
  reject (is_empty f.kind || is_empty f.severity || is_empty f.message) (plain "问题内容不完整")
  reject (not (str_eq f.origin "automatic") && not (str_eq f.origin "manual")) (plain "问题来源无效")
  reject (str_eq f.origin "manual" && is_empty f.created_by) (plain "人工问题缺少创建人")
  reject (not (known_finding f.status)) (plain "未知问题状态")
  check_resolution s f sensor f.status

abbrev known_task : RecalibrationTaskStatus → Bool
known_task (other_task t) = false
known_task _ = true

abbrev is_inherited : RecalibrationTaskStatus → Bool
is_inherited inherited = true
is_inherited _ = false

-- A finding of the task's batch under that id.
abbrev links_finding : Snapshot → RecalibrationTask → String → Bool
links_finding s t id = elim (lookup id s.findings) [
  | none ↦ false
  | some f ↦ str_eq f.batch_id t.batch_id
]

-- The profile of the batch, or nil.
abbrev profile_of : Snapshot → String → Option CalibrationProfile
profile_of s batch_id = elim (lookup batch_id s.batches) [
  | none ↦ none
  | some b ↦ lookup b.profile_id s.profiles
]

unfoldable pub validate_recalibration_task : Snapshot → RecalibrationTask → Result (Unit {0})
unfolding lookup_by point_in_profile
validate_recalibration_task s t = do
  sensor ← required (lookup t.sensor_revision_id s.sensors) (plain "批次或返校修订归属无效")
  reject (not (str_eq sensor.batch_id t.batch_id) || slt sensor.revision 2) (plain "批次或返校修订归属无效")
  reject (not (offers (profile_of s t.batch_id) t.reference_point) || is_zero_time t.updated_at)
      (plain "标准点或更新时间无效")
  reject (not (known_task t.status)) (plain "未知任务状态")
  reject (t.required && is_inherited t.status) (plain "必测任务不能继承旧证据")
  reject (not t.required && not (is_inherited t.status)) (plain "非必测任务必须标记为已继承")
  each (λ id. reject (not (links_finding s t id)) (plain "关联问题不存在")) t.finding_ids
  reject
      (not (is_empty t.evidence_measurement_id)
        && is_nil (lookup t.evidence_measurement_id s.measurements))
      (plain "证据读数不存在")

-- The loop over `credential.SensorRevisionIDs` with its set `seen`.
check_revision_ids : Snapshot → String → List String → List String → Result (Unit {0})
unfolding lookup_by
check_revision_ids s batch_id seen [] = ok tt
check_revision_ids s batch_id seen (id ∷ ids) = do
  reject (any (λ i. str_eq i id) seen || not (owns_sensor s batch_id id)) (plain "凭据传感器修订集合无效")
  check_revision_ids s batch_id (id ∷ seen) ids

unfoldable pub validate_credential : Snapshot → ReleaseCredential → Result (Unit {0})
unfolding lookup_by check_revision_ids
validate_credential s c = do
  batch ← required (lookup c.batch_id s.batches) (plain "所属批次未放行")
  reject (not (status_eq batch.status released)) (plain "所属批次未放行")
  reject
      (slt c.batch_version 1
        || not (str_eq c.decision "approved_for_deployment")
        || is_empty c.content_digest
        || is_empty c.issued_by
        || is_zero_time c.issued_at)
      (plain "签发内容不完整")
  check_revision_ids s c.batch_id [] c.sensor_revision_ids

unfoldable pub validate_review : Snapshot → ReviewRecord → Result (Unit {0})
unfolding lookup_by
validate_review s r = do
  reject (is_empty r.batch_id || is_nil (lookup r.batch_id s.batches)) (plain "复核记录 %d 引用了不存在的批次")
  reject
      (is_empty r.reviewer
        || (not (str_eq r.decision "approved")
            && not (str_eq r.decision "returned")
            && not (str_eq r.decision "resubmitted")))
      (plain "复核记录 %d 内容无效")

-- An entry whose key is not the id of its entity is refused.
abbrev pub keyed {ℓ} :
    {V : Type ℓ} → (V → String) → (V → Result (Unit {0})) → String × V → Result (Unit {0})
keyed id check (key, v) = reject (not (str_eq key (id v))) (plain "映射 %s 无效") >> check v

unfoldable pub validate_snapshot : Snapshot → Result (Unit {0})
unfolding validate_batch validate_sensor validate_profile validate_measurement validate_finding
    validate_recalibration_task validate_credential validate_review
validate_snapshot s = do
  reject (not (s.schema_version == 1)) (plain "不支持的投影 schemaVersion: %d")
  each (keyed (λ b. b.id) (validate_batch s)) s.batches
  each (keyed (λ e. e.id) (validate_sensor s)) s.sensors
  each (keyed (λ p. p.id) (validate_profile s)) s.profiles
  each (keyed (λ m. m.id) (validate_measurement s)) s.measurements
  each (keyed (λ f. f.id) (validate_finding s)) s.findings
  each (keyed (λ t. t.id) (validate_recalibration_task s)) s.recalibration_tasks
  each (keyed (λ c. c.id) (validate_credential s)) s.credentials
  each (validate_review s) s.reviews
