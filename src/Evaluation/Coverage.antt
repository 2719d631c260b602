-- ===== src/Evaluation/Coverage.antt =====
-- internal/policy/evaluation/coverage.go: which measurement stands for each point of a sensor, its
-- own or one of an earlier revision.
use benzhi_project_fe3ad.Prelude.{
  ℕ, Bool, true, false, not, ◌&&◌, ◌==◌, ltb, Option, none, some, String, List, [], str_eq, str_lt,
  any, every, map, select, sort, length, if◌then◌else◌,
}
use mathlib.Core.List.{foldl}
use benzhi_project_fe3ad.Prelude.Int64.{Int64, slt}
use benzhi_project_fe3ad.Prelude.Maps.{Map, MapOf, lookup, insert, values, lookup_by, insert_by}
use benzhi_project_fe3ad.Float64.{Float64, feq}
use benzhi_project_fe3ad.Calibration.Errors.{Result, ok, ◌>>=◌, required, validation}
use benzhi_project_fe3ad.Calibration.Types.{
  Snapshot, CalibrationProfile, SensorRevision, MeasurementSet, ReviewFinding, is_open,
}
use benzhi_project_fe3ad.Calibration.Snapshot.{find_batch, current_sensors}

pub record PointCoverage : Type 0 where
  pub reference_point : Float64
  pub required_readings : Int64
  pub observed_readings : ℕ
  pub evidence_revision : String
  pub inherited : Bool
  pub complete : Bool

pub record SensorCoverage : Type 0 where
  pub sensor_code : String
  pub current_revision : String
  pub points : List PointCoverage
  pub complete : Bool

pub record CoverageReport : Type 0 where
  pub batch_id : String
  pub sensors : List SensorCoverage
  pub complete : Bool

-- `map[float64]*MeasurementSet`
abbrev pub PointMap : Type 0
PointMap = MapOf Float64 MeasurementSet

abbrev pub at_point : Float64 → PointMap → Option MeasurementSet
at_point = lookup_by feq

abbrev pub is_present {ℓ} : {A : Type ℓ} → Option A → Bool
is_present none = false
is_present (some a) = true

-- An earlier revision of the sensor in its batch.
abbrev pub precedes : SensorRevision → SensorRevision → Bool
precedes candidate sensor =
    str_eq candidate.batch_id sensor.batch_id
    && str_eq candidate.sensor_code sensor.sensor_code
    && slt candidate.revision sensor.revision

-- `revisions`: the numbers of the earlier revisions by their ids.
earlier_revisions : Snapshot → SensorRevision → Map Int64
unfolding insert_by
earlier_revisions s sensor =
    foldl (λ m c. if precedes c sensor then insert c.id c.revision m else m) [] (values s.sensors)

-- `old == nil || revisions[old.SensorRevisionID] < revision`
abbrev is_older : Map Int64 → Int64 → Option MeasurementSet → Bool
is_older revisions revision none = true
is_older revisions revision (some old) = elim (lookup old.sensor_revision_id revisions) [
  | none ↦ slt 0 revision
  | some r ↦ slt r revision
]

evidence_step : Map Int64 → PointMap → MeasurementSet → PointMap
unfolding lookup_by insert_by feq
evidence_step revisions out set = elim (lookup set.sensor_revision_id revisions) [
  | none ↦ out
  | some revision ↦
      if is_older revisions revision (at_point set.reference_point out)
      then insert_by feq set.reference_point set out
      else out
]

unfoldable pub previous_evidence_by_point : Snapshot → SensorRevision → PointMap
unfolding earlier_revisions evidence_step
previous_evidence_by_point s sensor =
    foldl (evidence_step (earlier_revisions s sensor)) [] (values s.measurements)

-- The test of the loop; it does not look at the batch of the old revision.
abbrev pub is_problem : Snapshot → SensorRevision → ReviewFinding → Bool
is_problem s sensor finding = elim (lookup finding.sensor_revision_id s.sensors) [
  | none ↦ false
  | some old ↦
      str_eq old.sensor_code sensor.sensor_code
      && slt old.revision sensor.revision
      && is_open finding.status
]

unfoldable pub unresolved_problem_points : Snapshot → SensorRevision → List Float64
unfolding lookup_by
unresolved_problem_points s sensor =
    map (λ f. f.point) (select (is_problem s sensor) (values s.findings))

unfoldable pub direct_evidence : Snapshot → SensorRevision → PointMap
unfolding insert_by feq
direct_evidence s sensor =
    foldl
      (λ m set.
        if str_eq set.sensor_revision_id sensor.id
        then insert_by feq set.reference_point set m
        else m)
      [] (values s.measurements)

-- One round of the loop over the evidence of earlier revisions.
unfoldable pub inherit : List Float64 → PointMap → Float64 × MeasurementSet → PointMap
unfolding lookup_by insert_by feq
inherit problems direct (point, set) =
    if not (is_present (at_point point direct)) && not (any (λ p. feq p point) problems)
    then insert_by feq point set direct
    else direct

unfoldable pub effective_evidence : Snapshot → SensorRevision → PointMap
unfolding direct_evidence unresolved_problem_points previous_evidence_by_point inherit
effective_evidence s sensor =
    if sensor.revision == 1
    then direct_evidence s sensor
    else foldl (inherit (unresolved_problem_points s sensor)) (direct_evidence s sensor)
        (previous_evidence_by_point s sensor)

-- The item of one point.
unfoldable pub cover_point :
    CalibrationProfile → SensorRevision → Float64 → Option MeasurementSet → PointCoverage
cover_point profile sensor point none = record {
  reference_point = point;
  required_readings = profile.repetitions_per_point;
  observed_readings = 0;
  evidence_revision = "";
  inherited = false;
  complete = false;
}
cover_point profile sensor point (some set) = record {
  reference_point = point;
  required_readings = profile.repetitions_per_point;
  observed_readings = length set.readings;
  evidence_revision = set.sensor_revision_id;
  inherited = not (str_eq set.sensor_revision_id sensor.id);
  complete = length set.readings == profile.repetitions_per_point;
}

unfoldable pub cover_sensor : Snapshot → CalibrationProfile → SensorRevision → SensorCoverage
unfolding effective_evidence cover_point
cover_sensor s profile sensor =
    let evidence = effective_evidence s sensor in
    let items = map (λ p. cover_point profile sensor p (at_point p evidence)) profile.points in
    record {
      sensor_code = sensor.sensor_code;
      current_revision = sensor.id;
      points = items;
      complete = every (λ i. i.complete) items;
    }

abbrev pub by_code : SensorRevision → SensorRevision → Bool
by_code a b = str_lt a.sensor_code b.sensor_code

unfoldable pub build_coverage : Snapshot → String → Result CoverageReport
unfolding find_batch current_sensors cover_sensor sort lookup_by
build_coverage s batch_id = do
  batch ← find_batch s batch_id
  profile ← required (lookup batch.profile_id s.profiles) (validation "批次尚未锁定方案")
  let current = sort by_code (current_sensors s batch_id)
  let covered = map (cover_sensor s profile) current
  ok (record {
    batch_id = batch_id;
    sensors = covered;
    complete = ltb 0 (length current) && every (λ c. c.complete) covered;
  })
