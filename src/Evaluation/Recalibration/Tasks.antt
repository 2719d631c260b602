-- ===== src/Evaluation/Recalibration/Tasks.antt =====
-- The retest tasks of recalibration.go against the unresolved points of coverage.go.
use benzhi_project_fe3ad.Prelude.{
  ◌≡◌, inl, inr, refl, ◌&&◌, true, some, String, List, [], ◌∷◌, any, map, select, length, ltb,
  str_eq, str_lt, Option-cases, arith,
}
use benzhi_project_fe3ad.Prelude.Sorting.{length-sort, length-map}
use benzhi_project_fe3ad.Prelude.Maps.{lookup, values}
use benzhi_project_fe3ad.Float64.{Float64, feq}
use benzhi_project_fe3ad.Calibration.Types.{Snapshot, SensorRevision, ReviewFinding}
use benzhi_project_fe3ad.Evaluation.Coverage.{is_problem, unresolved_problem_points}
use benzhi_project_fe3ad.Evaluation.Recalibration.{is_pending_finding, findings_at}

module _ (s : Snapshot) (sensor : SensorRevision) where
  -- All revisions with the sensor's code belong to its batch.
  abbrev pub OwnsCode : Type 0
  OwnsCode =
      (k : String) (old : SensorRevision)
      → lookup k s.sensors ≡ some old
      → str_eq old.sensor_code sensor.sensor_code ≡ true
      → str_eq old.batch_id sensor.batch_id ≡ true

  problem-pending :
      OwnsCode → (f : ReviewFinding) → is_problem s sensor f ≡ is_pending_finding s sensor f
  problem-pending own f = elim (Option-cases (lookup f.sensor_revision_id s.sensors)) [
    | inl q ↦ ground arith
    | inr (old, q) ↦ ground (arith, own f.sensor_revision_id old q)
  ]

  any-unresolved :
      OwnsCode
      → (point : Float64) (fs : List ReviewFinding)
      → any (λ p. feq p point) (map (λ f. f.point) (select (is_problem s sensor) fs))
        ≡ ltb 0 (length (select (λ f. is_pending_finding s sensor f && feq f.point point) fs))
  any-unresolved own point [] = refl
  any-unresolved own point (f ∷ fs) =
      ground (arith, problem-pending own f, any-unresolved own point fs)

  -- Where no other batch has a sensor with the same code, a point is unresolved for the coverage of a
  -- sensor exactly when the retest task of that point has findings to close.
  pub unresolved-findings_at :
      OwnsCode
      → (point : Float64)
      → any (λ p. feq p point) (unresolved_problem_points s sensor)
        ≡ ltb 0 (length (findings_at s sensor point))
  unfolding unresolved_problem_points findings_at
  unresolved-findings_at own point =
      let chosen =
        select (λ f. is_pending_finding s sensor f && feq f.point point) (values s.findings) in
      rw (length-sort str_lt (map (λ f. f.id) chosen))
        (rw (length-map (λ f. f.id) chosen) (any-unresolved own point (values s.findings)))
