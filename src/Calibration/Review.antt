-- ===== src/Calibration/Review.antt =====
-- internal/domain/calibration/review.go: automatic findings, the status after an evaluation, and
-- the decisions of a reviewer.
use benzhi_project_fe3ad.Prelude.{
  Bool, true, false, not, ◌&&◌, ◌||◌, Option, none, some, String, List, [], ◌∷◌, ◌++◌, str_eq, map,
  any, select, length, ltb, is_empty, is_blank, trim_space, if◌then◌else◌,
}
use Prim.Native.String.{◌++◌ as str_append}
use benzhi_project_fe3ad.Prelude.Int64.{inc, slt}
use benzhi_project_fe3ad.Prelude.Maps.{Map, lookup, insert, values, lookup_by, insert_by}
use benzhi_project_fe3ad.Float64.{Float64, feq}
use benzhi_project_fe3ad.Calibration.Errors.{
  Result, ok, err, ◌>>=◌, ◌>>◌, reject, validation, conflict, forbidden,
}
use benzhi_project_fe3ad.Calibration.Types.{
  Snapshot, CalibrationProfile, SensorRevision, ReviewFinding, ReviewRecord, Time, BatchStatus,
  sampling, failed, ready_review, returned, open_finding, resolved, status_eq, is_open,
}
use benzhi_project_fe3ad.Calibration.Lifecycle.{allowed_transition, move_to}
use benzhi_project_fe3ad.Calibration.Batch.{has_sampler, freeze}
use benzhi_project_fe3ad.Calibration.Snapshot.{
  find_batch, put_batch, is_current_revision, batch_findings,
}
use benzhi_project_fe3ad.Calibration.Profile.{point_in_profile}
pub mod Duties

-- `oldSensor.SensorCode == sensor.SensorCode && oldSensor.Revision < sensor.Revision`, with neither
-- of them nil.
abbrev pub earlier_revision : Option SensorRevision → Option SensorRevision → Bool
earlier_revision (some old) (some sensor) =
    str_eq old.sensor_code sensor.sensor_code && slt old.revision sensor.revision
earlier_revision none _ = false
earlier_revision _ none = false

-- The findings that the loop marks as resolved.
unfoldable pub is_superseded : Snapshot → String → String → Float64 → ReviewFinding → Bool
unfolding feq lookup_by
is_superseded s batch_id revision_id point old =
    str_eq old.batch_id batch_id
    && is_open old.status
    && feq old.point point
    && earlier_revision (lookup old.sensor_revision_id s.sensors) (lookup revision_id s.sensors)

abbrev pub resolve : String → Time → ReviewFinding → ReviewFinding
resolve revision_id now f = record f {
  status = resolved;
  resolved_by_revision = revision_id;
  reviewed_at = some now;
}

abbrev resolve_in : (ReviewFinding → Bool) → String → Time → Map ReviewFinding → Map ReviewFinding
resolve_in p revision_id now = map (λ e. (e.0, if p e.1 then resolve revision_id now e.1 else e.1))

abbrev pub put_findings : Map ReviewFinding → List ReviewFinding → Map ReviewFinding
put_findings m [] = m
put_findings m (f ∷ fs) = put_findings (insert f.id f m) fs

-- The new snapshot and the ids of the findings that were resolved.
unfoldable pub replace_automatic_findings :
    Snapshot
    → (batch_id revision_id : String) → Float64
    → List ReviewFinding
    → Time
    → Snapshot × List String
unfolding is_superseded insert_by
replace_automatic_findings s batch_id revision_id point [] now =
    let hit = is_superseded s batch_id revision_id point in
    (
      record s { findings = resolve_in hit revision_id now s.findings },
      map (λ f. f.id) (select hit (values s.findings)),
    )
replace_automatic_findings s batch_id revision_id point (f ∷ fs) now =
    (record s { findings = put_findings s.findings (f ∷ fs) }, [])

abbrev pub has_open : Snapshot → String → Bool
has_open s batch_id = ltb 0 (length (batch_findings s batch_id true))

unfoldable pub evaluation_status : Snapshot → String → Bool → BatchStatus
unfolding batch_findings
evaluation_status s batch_id complete =
    if complete && has_open s batch_id then failed else if complete then ready_review else sampling

unfoldable pub set_evaluation_status : Snapshot → String → Bool → Result Snapshot
unfolding find_batch evaluation_status allowed_transition insert_by
set_evaluation_status s batch_id complete = do
  b ← find_batch s batch_id
  let next = evaluation_status s batch_id complete
  if status_eq b.status returned
      then ok (put_batch s batch_id (record b { version = inc b.version }))
      else if not (allowed_transition b.status next) && not (status_eq b.status next)
      then err (conflict "批次不能从 %s 转换到 %s")
      else ok (put_batch s batch_id (record b { status = next; version = inc b.version }))

abbrev pub append_review : Snapshot → ReviewRecord → Snapshot
append_review s r = record s { reviews = s.reviews ++ r ∷ [] }

-- `strconv.FormatFloat(x, 'g', -1, 64)` is the parameter `format`: only its text is used, as a part
-- of a key.
module _ (format : Float64 → String) where
  correction_key : ReviewFinding → String
  correction_key f = str_append f.sensor_revision_id (
      str_append separator (
        str_append (format f.point)
          (str_append separator (str_append f.kind (str_append separator (trim_space f.message))))))
    where
      separator : String
      separator = "\0"

  abbrev pub has_finding : Snapshot → String → Bool
  has_finding s id = elim (lookup id s.findings) [ none ↦ false | some _ ↦ true ]

  abbrev pub offers_point : Option CalibrationProfile → Float64 → Bool
  offers_point none point = false
  offers_point (some p) point = point_in_profile p point

  -- The checks of one correction, which is given its origin, its author and its status.
  check_correction :
      Snapshot
      → (batch_id reviewer : String) → Option CalibrationProfile
      → List String
      → ReviewFinding
      → Result ReviewFinding
  unfolding is_current_revision lookup_by point_in_profile correction_key
  check_correction s batch_id reviewer profile seen f = do
    reject
        (not (str_eq f.batch_id batch_id)
          || not (is_current_revision s f.sensor_revision_id batch_id))
        (validation "补正要求必须定位到本批次当前传感器修订")
    reject (not (offers_point profile f.point)) (validation "补正要求的标准点不在锁定方案内")
    reject (is_blank f.kind || is_blank f.severity || is_blank f.message)
        (validation "补正要求的问题类型、严重级别和说明不能为空")
    reject (any (λ k. str_eq k (correction_key f)) seen) (validation "补正要求不能重复")
    reject (is_empty f.id || has_finding s f.id) (validation "补正要求标识无效或重复")
    ok (record f { origin = "manual"; created_by = reviewer; status = open_finding })

  -- The loop over the corrections; a nil pointer is `none`.
  unfoldable pub check_corrections :
      Snapshot
      → (batch_id reviewer : String) → Option CalibrationProfile
      → List String
      → List (Option ReviewFinding)
      → Result (List ReviewFinding)
  unfolding check_correction
  check_corrections s batch_id reviewer profile seen [] = ok []
  check_corrections s batch_id reviewer profile seen (none ∷ fs) =
      err (validation "补正要求必须定位到本批次当前传感器修订")
  check_corrections s batch_id reviewer profile seen (some f ∷ fs) = do
    g ← check_correction s batch_id reviewer profile seen f
    rest ← check_corrections s batch_id reviewer profile (correction_key f ∷ seen) fs
    ok (g ∷ rest)

  unfoldable pub return_review :
      Snapshot
      → (batch_id reviewer comment : String) → List (Option ReviewFinding)
      → Time
      → Result Snapshot
  unfolding find_batch has_sampler check_corrections insert_by move_to
  return_review s batch_id reviewer comment corrections now = do
    b ← find_batch s batch_id
    reject (not (status_eq b.status ready_review) && not (status_eq b.status failed))
        (conflict "当前状态不能退回复核")
    reject (has_sampler b reviewer) (forbidden "复核员不能是采样提交人")
    reject (ltb (length corrections) 1) (validation "退回复核至少需要一项结构化补正要求")
    fs ← check_corrections s batch_id reviewer (lookup b.profile_id s.profiles) [] corrections
    b' ← move_to b returned
    let review : ReviewRecord = record {
      batch_id = batch_id;
      reviewer = reviewer;
      decision = "returned";
      comment = comment;
      finding_ids = map (λ f. f.id) fs;
      at = now;
    }
    let s' : Snapshot = record s { findings = put_findings s.findings fs }
    ok (put_batch (append_review s' review) batch_id b')

unfoldable pub resubmit_review :
    Snapshot → (batch_id actor comment : String) → Time → Result Snapshot
unfolding find_batch batch_findings insert_by move_to
resubmit_review s batch_id actor comment now = do
  b ← find_batch s batch_id
  reject (not (status_eq b.status returned)) (conflict "只有已退回批次可以再次送审")
  reject (has_open s batch_id) (validation "仍有未闭环问题，不能再次送审")
  b' ← move_to b ready_review
  let review : ReviewRecord = record {
    batch_id = batch_id;
    reviewer = actor;
    decision = "resubmitted";
    comment = comment;
    finding_ids = [];
    at = now;
  }
  ok (put_batch (append_review s review) batch_id b')

unfoldable pub approve_review :
    Snapshot → (batch_id reviewer comment : String) → Time → Result Snapshot
unfolding find_batch batch_findings insert_by freeze
approve_review s batch_id reviewer comment now = do
  b ← find_batch s batch_id
  reject (has_open s batch_id) (validation "仍有未闭环问题，不能通过复核")
  reject (not (status_eq b.status ready_review)) (conflict "只有待复核批次可以通过")
  b' ← freeze b reviewer now
  let review : ReviewRecord = record {
    batch_id = batch_id;
    reviewer = reviewer;
    decision = "approved";
    comment = comment;
    finding_ids = [];
    at = now;
  }
  ok (put_batch (append_review s review) batch_id b')
