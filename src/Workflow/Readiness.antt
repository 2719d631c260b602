-- ===== src/Workflow/Readiness.antt =====
-- internal/application/workflow/readiness.go: what stands between a batch and its release. `show` is
-- the `%.6g` of `fmt`.
use benzhi_project_fe3ad.Prelude.{
  ℕ, suc, ◌+◌, ltb, ◌==◌, Bool, true, false, not, ◌&&◌, ◌||◌, Option, none, some, String, List, [],
  ◌∷◌, ◌++◌, str_eq, str_lt, any, select, sort, length, is_empty, if◌then◌else◌,
}
use Prim.Native.String.{◌++◌ as str_append}
use benzhi_project_fe3ad.Prelude.Decimal.{decimal}
use benzhi_project_fe3ad.Float64.{Float64}
use benzhi_project_fe3ad.Calibration.Errors.{Result, ok, err, ◌>>=◌}
use benzhi_project_fe3ad.Calibration.Types.{
  Snapshot, CalibrationBatch, BatchStatus, ReviewFinding, plan_locked, sampling, failed,
  ready_review, returned, frozen, released, status_eq,
}
use benzhi_project_fe3ad.Calibration.Snapshot.{
  find_batch, current_sensors, batch_findings, credential_for_batch,
}
use benzhi_project_fe3ad.Calibration.Credential.{has_credential}
use benzhi_project_fe3ad.Evaluation.Coverage.{
  PointCoverage, SensorCoverage, CoverageReport, build_coverage,
}
pub mod Reviewer
pub mod Counts
pub mod Total

pub record ReadinessBlocker : Type 0 where
  pub code : String
  pub message : String

pub record ReadinessReport : Type 0 where
  pub batch_id : String
  pub status : BatchStatus
  pub current_sensors : ℕ
  pub required_points : ℕ
  pub complete_points : ℕ
  pub open_findings : ℕ
  pub critical_findings : ℕ
  pub sampling_actors : List String
  pub can_submit_sample : Bool
  pub can_recalibrate : Bool
  pub can_review : Bool
  pub can_issue_credential : Bool
  pub immutable : Bool
  pub blockers : List ReadinessBlocker

abbrev same_blocker : ReadinessBlocker → ReadinessBlocker → Bool
same_blocker a b = str_eq a.code b.code && str_eq a.message b.message

-- `addBlocker`, on the list.
unfoldable pub add_blocker : (code message : String) → List ReadinessBlocker → List ReadinessBlocker
add_blocker code message blockers =
    let blocker : ReadinessBlocker = record { code = code; message = message } in
    if any (λ b. same_blocker b blocker) blockers then blockers else blockers ++ blocker ∷ []

-- `if wanted { report.addBlocker(…) }`
abbrev pub block_if : Bool → (code message : String) → List ReadinessBlocker → List ReadinessBlocker
block_if wanted code message blockers =
    if wanted then add_blocker code message blockers else blockers

abbrev pub is_sampling_status : BatchStatus → Bool
is_sampling_status s =
    status_eq s plan_locked || status_eq s sampling || status_eq s failed || status_eq s returned

-- The report up to the test of the profile.
unfoldable pub opening_report : Snapshot → String → CalibrationBatch → ReadinessReport
opening_report s batch_id b =
    let sensors = length (current_sensors s batch_id) in
    record {
      batch_id = batch_id;
      status = b.status;
      current_sensors = sensors;
      required_points = 0;
      complete_points = 0;
      open_findings = 0;
      critical_findings = 0;
      sampling_actors = sort str_lt b.sampled_by;
      can_submit_sample = is_sampling_status b.status;
      can_recalibrate = status_eq b.status failed || status_eq b.status returned;
      can_review = false;
      can_issue_credential = status_eq b.status frozen && not (has_credential s batch_id);
      immutable = status_eq b.status frozen || status_eq b.status released;
      blockers = block_if (sensors == 0) "no_sensors" "批次尚未登记传感器" [];
    }

module _ (show : Float64 → String) where
  abbrev missing_message : String → Float64 → String
  missing_message code point =
      str_append "传感器 "
        (str_append code (str_append " 的标准点 " (str_append (show point) " 缺少完整重复读数")))

  unfoldable pub count_point : String → ReadinessReport → PointCoverage → ReadinessReport
  count_point code r p = record r {
    required_points = r.required_points + 1;
    complete_points = if p.complete then r.complete_points + 1 else r.complete_points;
    blockers =
        block_if (not p.complete) "missing_measurement" (missing_message code p.reference_point)
          r.blockers;
  }

  unfoldable pub count_points : String → ReadinessReport → List PointCoverage → ReadinessReport
  count_points code r [] = r
  count_points code r (p ∷ ps) = count_points code (count_point code r p) ps

  unfoldable pub count_sensors : ReadinessReport → List SensorCoverage → ReadinessReport
  count_sensors r [] = r
  count_sensors r (c ∷ cs) = count_sensors (count_points c.sensor_code r c.points) cs

  -- From the findings on, with the counted points.
  unfoldable pub closing_report :
      CalibrationBatch → Bool → List ReviewFinding → ReadinessReport → ReadinessReport
  closing_report b complete open_ones r =
      let count = length open_ones in
      let blocked =
        block_if (length r.sampling_actors == 0) "no_sampling_actor" "尚无采样提交人，无法校验职责分离" (
          block_if (ltb 0 count) "open_findings"
            (str_append "仍有 " (str_append (decimal count) " 个未闭环问题")) r.blockers) in
      record r {
        open_findings = count;
        critical_findings = length (select (λ f. str_eq f.severity "critical") open_ones);
        can_review = complete && count == 0 && status_eq b.status ready_review;
        can_issue_credential =
            if status_eq b.status released then false else r.can_issue_credential;
        blockers = if status_eq b.status frozen || status_eq b.status released then [] else blocked;
      }

  unfoldable pub build_readiness : Snapshot → String → Result ReadinessReport
  build_readiness s batch_id = do
    b ← find_batch s batch_id
    let opening = opening_report s batch_id b
    if is_empty b.profile_id
        then ok (record opening {
          blockers = add_blocker "profile_unlocked" "采样方案尚未锁定" opening.blockers;
        })
        else (build_coverage s batch_id >>= λ coverage. ok (
            closing_report b coverage.complete (batch_findings s batch_id true)
              (count_sensors opening coverage.sensors)))

unfoldable pub reviewer_eligible : ReadinessReport → String → Bool
reviewer_eligible r actor =
    not (is_empty actor || not r.can_review) && not (any (λ v. str_eq v actor) r.sampling_actors)
