-- ===== src/Workflow/Readiness/Reviewer.antt =====
-- What the report of readiness.go says of a batch, against the operations of the domain.
use benzhi_project_fe3ad.Prelude.{
  ◌≡◌, refl, ◌∙◌, inl, inr, true, false, String, List, [], ◌∷◌, str_eq, str_lt, arith,
}
use benzhi_project_fe3ad.Prelude.Sorting.{any-sort}
use benzhi_project_fe3ad.Float64.{Float64}
use benzhi_project_fe3ad.Calibration.Errors.{ok, Result-cases}
use benzhi_project_fe3ad.Calibration.Types.{Snapshot, CalibrationBatch, Time, ready_review}
use benzhi_project_fe3ad.Calibration.Batch.{has_sampler}
use benzhi_project_fe3ad.Calibration.Snapshot.{find_batch, put_batch}
use benzhi_project_fe3ad.Calibration.Review.{has_open, append_review, approve_review}
use benzhi_project_fe3ad.Calibration.Review.Duties.{approve_review_iff, approval, approved}
use benzhi_project_fe3ad.Evaluation.Coverage.{PointCoverage, SensorCoverage, build_coverage}
use benzhi_project_fe3ad.Workflow.Readiness.{
  ReadinessReport, opening_report, count_point, count_points, count_sensors, closing_report,
  build_readiness, reviewer_eligible,
}

module _ (show : Float64 → String) where
  -- The loops change the counts and the blockers, and nothing else.
  count_points-same :
      (code : String) (r : ReadinessReport) (ps : List PointCoverage)
      → (count_points show code r ps).sampling_actors ≡ r.sampling_actors
  unfolding count_points count_point
  count_points-same code r [] = refl
  count_points-same code r (p ∷ ps) = count_points-same code (count_point show code r p) ps

  count_sensors-same :
      (r : ReadinessReport) (cs : List SensorCoverage)
      → (count_sensors show r cs).sampling_actors ≡ r.sampling_actors
  unfolding count_sensors
  count_sensors-same r [] = refl
  count_sensors-same r (c ∷ cs) =
      count_sensors-same (count_points show c.sensor_code r c.points) cs
      ∙ count_points-same c.sensor_code r c.points

  eligible_facts :
      (s : Snapshot) (batch_id actor : String) (b : CalibrationBatch) (r : ReadinessReport)
      → find_batch s batch_id ≡ ok b
      → build_readiness show s batch_id ≡ ok r
      → reviewer_eligible r actor ≡ true
      → (b.status ≡ ready_review) × (has_open s batch_id ≡ false) × (has_sampler b actor ≡ false)
  unfolding build_readiness opening_report closing_report reviewer_eligible has_sampler
  eligible_facts s batch_id actor b r found built eligible =
      elim (Result-cases (build_coverage s batch_id)) [
        | inr (e, q) ↦ ground arith
        | inl (coverage, q) ↦ ground (
          arith,
          count_sensors-same (opening_report s batch_id b) coverage.sensors,
          any-sort str_lt (λ v. str_eq v actor) b.sampled_by,
        )
      ]

  -- A reviewer whom the report finds eligible can approve the batch.
  pub eligible_approves :
      (s : Snapshot) (batch_id actor comment : String) (now : Time) (b : CalibrationBatch)
      (r : ReadinessReport)
      → find_batch s batch_id ≡ ok b
      → build_readiness show s batch_id ≡ ok r
      → reviewer_eligible r actor ≡ true
      → approve_review s batch_id actor comment now
        ≡ ok (
            put_batch
              (append_review s (approval batch_id actor comment now))
              batch_id
              (approved b actor now))
  eligible_approves s batch_id actor comment now b r found built eligible =
      let (ready, closed, apart) = eligible_facts s batch_id actor b r found built eligible in
      (approve_review_iff s _ batch_id actor comment now b found).1 (ready, closed, apart, refl)
