-- ===== src/Workflow/Readiness/Counts.antt =====
-- The counts, the permissions and the blockers of the report of readiness.go.
use benzhi_project_fe3ad.Prelude.{
  ◌≤◌, ◌≡◌, ◌==◌, refl, ◌∙◌, inl, inr, Bool, true, false, String, List, [], ◌∷◌, str_eq, str_lt,
  every, select, sort, length, Option-cases, arith, map,
}
use benzhi_project_fe3ad.Prelude.Sorting.{length-sort}
use benzhi_project_fe3ad.Prelude.Maps.{lookup}
use benzhi_project_fe3ad.Float64.{Float64}
use benzhi_project_fe3ad.Calibration.Errors.{ok, Result-cases}
use benzhi_project_fe3ad.Calibration.Types.{
  Snapshot, CalibrationBatch, CalibrationProfile, SensorRevision, ReviewFinding,
}
use benzhi_project_fe3ad.Calibration.Lifecycle.{capabilities}
use benzhi_project_fe3ad.Calibration.Lifecycle.Paths.{is_sealed}
use benzhi_project_fe3ad.Calibration.Snapshot.{find_batch, batch_findings, current_sensors}
use benzhi_project_fe3ad.Evaluation.Coverage.{
  PointCoverage, SensorCoverage, CoverageReport, build_coverage, cover_sensor, by_code,
}
use benzhi_project_fe3ad.Workflow.Readiness.{
  ReadinessReport, opening_report, count_point, count_points, count_sensors, closing_report,
  build_readiness, block_if,
}

length-select :
    (p : ReviewFinding → Bool) (fs : List ReviewFinding) → length (select p fs) ≤ length fs
length-select p [] = omega arith
length-select p (f ∷ fs) = ground (arith, length-select p fs)

-- The flags of the report follow the capabilities of the batch.
abbrev pub Permits : ReadinessReport → CalibrationBatch → Type 0
Permits r b =
    (r.can_submit_sample ≡ (capabilities b).submit_reading)
    × (r.can_recalibrate ≡ (capabilities b).recalibrate)
    × (r.immutable ≡ is_sealed b.status)
    × (r.can_review ≡ true → (capabilities b).approve_review ≡ true)
    × (r.can_issue_credential ≡ true → (capabilities b).issue_credential ≡ true)

-- No more is complete than is required, no more is critical than is open.
abbrev pub IsCounted : ReadinessReport → Type 0
IsCounted r = (r.complete_points ≤ r.required_points) × (r.critical_findings ≤ r.open_findings)

module _ (show : Float64 → String) where
  -- What the loops over the coverage keep.
  abbrev SameFlags : ReadinessReport → ReadinessReport → Type 0
  SameFlags r q =
      (q.can_submit_sample ≡ r.can_submit_sample)
      × (q.can_recalibrate ≡ r.can_recalibrate)
      × (q.immutable ≡ r.immutable)
      × (q.can_issue_credential ≡ r.can_issue_credential)
      × (q.sampling_actors ≡ r.sampling_actors)

  count_points-SameFlags :
      (code : String) (r : ReadinessReport) (ps : List PointCoverage)
      → SameFlags r (count_points show code r ps)
  unfolding count_points count_point
  count_points-SameFlags code r [] = (refl, refl, refl, refl, refl)
  count_points-SameFlags code r (p ∷ ps) =
      count_points-SameFlags code (count_point show code r p) ps

  count_sensors-SameFlags :
      (r : ReadinessReport) (cs : List SensorCoverage) → SameFlags r (count_sensors show r cs)
  unfolding count_sensors
  count_sensors-SameFlags r [] = (refl, refl, refl, refl, refl)
  count_sensors-SameFlags r (c ∷ cs) =
      let (a₀, a₁, a₂, a₃, a₄) = count_points-SameFlags c.sensor_code r c.points in
      let (b₀, b₁, b₂, b₃, b₄) =
        count_sensors-SameFlags (count_points show c.sensor_code r c.points) cs in
      (b₀ ∙ a₀, b₁ ∙ a₁, b₂ ∙ a₂, b₃ ∙ a₃, b₄ ∙ a₄)

  count_points-le :
      (code : String) (r : ReadinessReport) (ps : List PointCoverage)
      → r.complete_points ≤ r.required_points
      → (count_points show code r ps).complete_points
        ≤ (count_points show code r ps).required_points
  unfolding count_points count_point
  count_points-le code r [] h = h
  count_points-le code r (p ∷ ps) h =
      count_points-le code (count_point show code r p) ps (ground arith)

  count_sensors-le :
      (r : ReadinessReport) (cs : List SensorCoverage)
      → r.complete_points ≤ r.required_points
      → (count_sensors show r cs).complete_points ≤ (count_sensors show r cs).required_points
  unfolding count_sensors
  count_sensors-le r [] h = h
  count_sensors-le r (c ∷ cs) h =
      count_sensors-le (count_points show c.sensor_code r c.points) cs
        (count_points-le c.sensor_code r c.points h)

  -- The report of a batch counts no more complete points than points and no more critical findings
  -- than open ones, and permits what the capabilities of the batch permit: sampling and recalibration
  -- in exactly these states, the review and the issue in no others.
  pub build_readiness-Permits :
      (s : Snapshot) (batch_id : String) (b : CalibrationBatch) (r : ReadinessReport)
      → find_batch s batch_id ≡ ok b
      → build_readiness show s batch_id ≡ ok r
      → Permits r b × IsCounted r
  unfolding build_readiness opening_report closing_report capabilities
  build_readiness-Permits s batch_id b r found built =
      elim (Result-cases (build_coverage s batch_id)) [
        | inr (e, q) ↦ ground arith
        | inl (coverage, q) ↦ ground (
          arith,
          count_sensors-SameFlags (opening_report s batch_id b) coverage.sensors,
          count_sensors-le (opening_report s batch_id b) coverage.sensors,
          length-select (λ f. str_eq f.severity "critical") (batch_findings s batch_id true),
        )
      ]

  all_complete-count :
      (code : String) (r : ReadinessReport) (ps : List PointCoverage)
      → every (λ p. p.complete) ps ≡ true
      → (count_points show code r ps).blockers ≡ r.blockers
  unfolding count_points count_point
  all_complete-count code r [] h = refl
  all_complete-count code r (p ∷ ps) h =
      all_complete-count code (count_point show code r p) ps (ground arith) ∙ ground arith

  all_complete-sensors :
      (r : ReadinessReport) (cs : List SensorCoverage)
      → every (λ c. every (λ p. p.complete) c.points) cs ≡ true
      → (count_sensors show r cs).blockers ≡ r.blockers
  unfolding count_sensors
  all_complete-sensors r [] h = refl
  all_complete-sensors r (c ∷ cs) h =
      all_complete-sensors (count_points show c.sensor_code r c.points) cs (ground arith)
      ∙ all_complete-count c.sensor_code r c.points (ground arith)

-- A complete coverage has sensors, and each of their points is complete.
cover-complete :
    (s : Snapshot) (profile : CalibrationProfile) (es : List SensorRevision)
    → every (λ c. c.complete) (map (cover_sensor s profile) es) ≡ true
    → every (λ c. every (λ p. p.complete) c.points) (map (cover_sensor s profile) es) ≡ true
unfolding cover_sensor
cover-complete s profile [] h = refl
cover-complete s profile (e ∷ es) h = ground (arith, cover-complete s profile es)

coverage_complete :
    (s : Snapshot) (batch_id : String) (c : CoverageReport)
    → build_coverage s batch_id ≡ ok c
    → c.complete ≡ true
    → (every (λ c. every (λ p. p.complete) c.points) c.sensors ≡ true)
      × ((length (current_sensors s batch_id) == 0) ≡ false)
unfolding build_coverage
coverage_complete s batch_id c h full = elim (Result-cases (find_batch s batch_id)) [
  | inr (e, q) ↦ ground arith
  | inl (b, q) ↦ elim (Option-cases (lookup b.profile_id s.profiles)) [
    | inl missing ↦ ground arith
    | inr (profile, found) ↦
        let current = sort by_code (current_sensors s batch_id) in
        ground (
          arith,
          cover-complete s profile current,
          length-sort by_code (current_sensors s batch_id),
        )
  ]
]

-- A batch that can be reviewed has no blocker, but that nobody may have captured a reading of it.
pub can_review-blockers :
    (show : Float64 → String) (s : Snapshot) (batch_id : String) (b : CalibrationBatch)
    (r : ReadinessReport)
    → find_batch s batch_id ≡ ok b
    → build_readiness show s batch_id ≡ ok r
    → r.can_review ≡ true
    → r.blockers ≡ block_if (length b.sampled_by == 0) "no_sampling_actor" "尚无采样提交人，无法校验职责分离" []
unfolding build_readiness opening_report closing_report
can_review-blockers show s batch_id b r found built can =
    elim (Result-cases (build_coverage s batch_id)) [
      | inr (e, q) ↦ ground arith
      | inl (coverage, q) ↦
          let opening = opening_report s batch_id b in
          ground (
            arith,
            coverage_complete s batch_id coverage q,
            all_complete-sensors show opening coverage.sensors,
            count_sensors-SameFlags show opening coverage.sensors,
            length-sort str_lt b.sampled_by,
          )
    ]
