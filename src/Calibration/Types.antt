-- ===== src/Calibration/Types.antt =====
-- internal/domain/calibration/types.go and the `Snapshot` of snapshot.go. A string type of the
-- source with named constants is a data type with a constructor for any other text. An instant is
-- the nanoseconds since Go's zero time; `UTC()` keeps the instant.
use benzhi_project_fe3ad.Prelude.{ℕ, Bool, true, false, Option, String, List, str_eq, ◌==◌}
use benzhi_project_fe3ad.Prelude.Int64.{Int64}
use benzhi_project_fe3ad.Prelude.Maps.{Map}
use benzhi_project_fe3ad.Float64.{Float64}

abbrev pub Time : Type 0
Time = ℕ

-- `t.IsZero()`
abbrev pub is_zero_time : Time → Bool
is_zero_time t = t == 0

pub data BatchStatus : Type 0 where
  draft plan_locked sampling failed ready_review returned frozen released : BatchStatus
  other : String → BatchStatus

-- `a == b` on statuses.
abbrev pub status_eq : BatchStatus → BatchStatus → Bool
status_eq draft draft = true
status_eq plan_locked plan_locked = true
status_eq sampling sampling = true
status_eq failed failed = true
status_eq ready_review ready_review = true
status_eq returned returned = true
status_eq frozen frozen = true
status_eq released released = true
status_eq (other a) (other b) = str_eq a b
status_eq _ _ = false

pub data FindingStatus : Type 0 where
  open_finding resolved : FindingStatus
  other_finding : String → FindingStatus

-- `f.Status == FindingOpen`
abbrev pub is_open : FindingStatus → Bool
is_open open_finding = true
is_open resolved = false
is_open (other_finding s) = false

pub data RecalibrationTaskStatus : Type 0 where
  pending passed task_failed inherited : RecalibrationTaskStatus
  other_task : String → RecalibrationTaskStatus

pub record CalibrationBatch : Type 0 where
  pub id : String
  pub station_code : String
  pub title : String
  pub status : BatchStatus
  pub sensor_ids : List String
  pub profile_id : String
  pub version : Int64
  pub created_by : String
  pub created_at : Time
  pub frozen_at : Option Time
  pub sampled_by : List String
  pub reviewed_by : String

pub record SensorRevision : Type 0 where
  pub id : String
  pub batch_id : String
  pub sensor_code : String
  pub revision : Int64
  pub metric : String
  pub unit : String
  pub range_min : Float64
  pub range_max : Float64
  pub recalibration_note : String
  pub created_at : Time

pub record CalibrationProfile : Type 0 where
  pub id : String
  pub batch_id : String
  pub points : List Float64
  pub repetitions_per_point : Int64
  pub absolute_tolerance : Float64
  pub relative_tolerance : Float64
  pub repeatability_limit : Float64
  pub locked_at : Option Time

pub record MeasurementSet : Type 0 where
  pub id : String
  pub batch_id : String
  pub sensor_revision_id : String
  pub reference_point : Float64
  pub readings : List Float64
  pub mean : Float64
  pub absolute_error : Float64
  pub relative_error : Float64
  pub spread : Float64
  pub captured_by : String
  pub captured_at : Time

pub record ReviewFinding : Type 0 where
  pub id : String
  pub batch_id : String
  pub sensor_revision_id : String
  pub point : Float64
  pub kind : String
  pub severity : String
  pub message : String
  pub origin : String
  pub created_by : String
  pub status : FindingStatus
  pub resolved_by_revision : String
  pub reviewed_at : Option Time

pub record RecalibrationTask : Type 0 where
  pub id : String
  pub batch_id : String
  pub sensor_revision_id : String
  pub reference_point : Float64
  pub required : Bool
  pub status : RecalibrationTaskStatus
  pub finding_ids : List String
  pub source_revision_id : String
  pub evidence_measurement_id : String
  pub failure_reasons : List String
  pub updated_at : Time

pub record ReleaseCredential : Type 0 where
  pub id : String
  pub batch_id : String
  pub batch_version : Int64
  pub sensor_revision_ids : List String
  pub decision : String
  pub content_digest : String
  pub issued_by : String
  pub issued_at : Time

pub record ReviewRecord : Type 0 where
  pub batch_id : String
  pub reviewer : String
  pub decision : String
  pub comment : String
  pub finding_ids : List String
  pub at : Time

pub record Snapshot : Type 0 where
  pub schema_version : Int64
  pub batches : Map CalibrationBatch
  pub sensors : Map SensorRevision
  pub profiles : Map CalibrationProfile
  pub measurements : Map MeasurementSet
  pub findings : Map ReviewFinding
  pub recalibration_tasks : Map RecalibrationTask
  pub credentials : Map ReleaseCredential
  pub reviews : List ReviewRecord
