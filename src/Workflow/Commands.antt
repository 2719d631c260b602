-- ===== src/Workflow/Commands.antt =====
-- internal/application/workflow/commands.go, with each command without its `CommandMeta`, which stands
-- beside it in a `Request`.
use benzhi_project_fe3ad.Prelude.{ℕ, Bool, String, List}
use benzhi_project_fe3ad.Prelude.Int64.{Int64}
use benzhi_project_fe3ad.Float64.{Float64}
use benzhi_project_fe3ad.Calibration.Types.{BatchStatus}

pub record CommandMeta : Type 0 where
  pub actor : String
  pub expected_version : Int64
  pub idempotency_key : String

pub record MeasurementInput : Type 0 where
  pub reference_point : Float64
  pub readings : List Float64

pub record CorrectionInput : Type 0 where
  pub sensor_revision_id : String
  pub reference_point : Float64
  pub problem_type : String
  pub severity : String
  pub description : String

pub record SensorInput : Type 0 where
  pub sensor_code : String
  pub metric : String
  pub unit : String
  pub range_min : Float64
  pub range_max : Float64

pub record ProfileInput : Type 0 where
  pub points : List Float64
  pub repetitions_per_point : Int64
  pub absolute_tolerance : Float64
  pub relative_tolerance : Float64
  pub repeatability_limit : Float64

pub record ReviewInput : Type 0 where
  pub decision : String
  pub comment : String
  pub corrections : List CorrectionInput

-- The service's methods that change a batch; a single measurement is a batch of one.
pub data Command : Type 0 where
  create_batch : (station_code title : String) → Command
  register_sensor : SensorInput → Command
  lock_profile : ProfileInput → Command
  submit_measurement : (sensor_revision_id : String) → MeasurementInput → Command
  submit_measurements : (sensor_revision_id : String) → List MeasurementInput → Command
  recalibrate : (sensor_revision_id note : String) → Command
  review : ReviewInput → Command
  resubmit_review : (comment : String) → Command
  issue : Command

pub record MeasurementResult : Type 0 where
  pub id : String
  pub reference_point : Float64
  pub mean : Float64
  pub absolute_error : Float64
  pub relative_error : Float64
  pub spread : Float64

-- `MutationResponse` and `MeasurementBatchResponse` in one record: the latter has measurements and a
-- sensor revision, and no `id` nor `findingIDs`.
pub record Response : Type 0 where
  pub batch_id : String
  pub id : String
  pub sensor_revision_id : String
  pub measurements : List MeasurementResult
  pub version : Int64
  pub status : BatchStatus
  pub replayed : Bool
  pub pending_retest_points : ℕ
  pub finding_ids : List String
  pub resolved_finding_ids : List String
