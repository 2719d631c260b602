-- ===== src/Workflow/Readiness/Total.antt =====
-- The report of readiness.go on a snapshot that has been validated.
use benzhi_project_fe3ad.Prelude.{◌≡◌, refl, inl, inr, false, String, is_empty, Bool-cases}
use benzhi_project_fe3ad.Float64.{Float64}
use benzhi_project_fe3ad.Calibration.Errors.{ok}
use benzhi_project_fe3ad.Calibration.Types.{Snapshot, CalibrationBatch}
use benzhi_project_fe3ad.Calibration.Snapshot.{find_batch}
use benzhi_project_fe3ad.Calibration.Validation.{validate_batch}
use benzhi_project_fe3ad.Calibration.Validation.Records.{validate_snapshot}
use benzhi_project_fe3ad.Calibration.Validation.Facts.{
  validate_snapshot-IsChecked, validate_batch-facts, All-lookup,
}
use benzhi_project_fe3ad.Calibration.Effects.{find_batch-eq-ok}
use benzhi_project_fe3ad.Evaluation.Coverage.{CoverageReport, build_coverage}
use benzhi_project_fe3ad.Workflow.Readiness.{ReadinessReport, build_readiness}

pub coverage_total :
    (s : Snapshot) (batch_id : String) (b : CalibrationBatch)
    → validate_snapshot s ≡ ok tt
    → find_batch s batch_id ≡ ok b
    → is_empty b.profile_id ≡ false
    → (c : CoverageReport) × (build_coverage s batch_id ≡ ok c)
unfolding build_coverage
coverage_total s batch_id b valid found locked =
    let own =
      All-lookup (λ b. b.id) (validate_batch s) s.batches batch_id b
        (validate_snapshot-IsChecked s valid).batches (find_batch-eq-ok s batch_id b found) in
    let (p, has) = (validate_batch-facts s b own.1).2 locked in rw (found, has) (_, refl)

-- The report of a batch of a valid snapshot is always made: no error stops the batch's view or the
-- list of the batches.
pub build_readiness_total :
    (show : Float64 → String) (s : Snapshot) (batch_id : String) (b : CalibrationBatch)
    → validate_snapshot s ≡ ok tt
    → find_batch s batch_id ≡ ok b
    → (r : ReadinessReport) × (build_readiness show s batch_id ≡ ok r)
unfolding build_readiness
build_readiness_total show s batch_id b valid found = elim (Bool-cases (is_empty b.profile_id)) [
  | inl without ↦ rw (found, without) (_, refl)
  | inr locked ↦
      let (c, covered) = coverage_total s batch_id b valid found locked in
      rw (found, locked, covered) (_, refl)
]
