-- ===== src/Workflow/Queries.antt =====
-- internal/application/workflow/queries.go: the views of a batch, of its retest tasks and of its
-- credential. `show` is the `%.6g` of `fmt`; `now` is the time of the call.
use benzhi_project_fe3ad.Prelude.{
  ℕ, ltb, ◌==◌, Bool, true, false, not, ◌||◌, Option, none, some, String, List, [], ◌∷◌, str_eq,
  str_lt, select, sort, length, is_empty, if◌then◌else◌,
}
use benzhi_project_fe3ad.Prelude.Int64.{Int64, slt}
use benzhi_project_fe3ad.Prelude.Maps.{lookup, values}
use benzhi_project_fe3ad.Float64.{Float64, flt}
use benzhi_project_fe3ad.Calibration.Errors.{
  Error, domain, plain, Result, ok, err, ◌>>=◌, ◌>>◌, reject, required, validation, not_found,
  integrity,
}
use benzhi_project_fe3ad.Calibration.Types.{
  Time, Snapshot, CalibrationBatch, SensorRevision, CalibrationProfile, MeasurementSet,
  ReviewFinding, ReviewRecord, RecalibrationTask, RecalibrationTaskStatus, pending, passed,
  task_failed, inherited, ReleaseCredential,
}
use benzhi_project_fe3ad.Calibration.Snapshot.{
  find_batch, current_sensors, batch_findings, credential_for_batch, is_current_revision,
  recalibration_tasks_for_revision,
}
use benzhi_project_fe3ad.Evaluation.Coverage.{CoverageReport, build_coverage}
use benzhi_project_fe3ad.Ledger.Event.{Event}
use benzhi_project_fe3ad.Ledger.Chain.{verify_chain}
use benzhi_project_fe3ad.Ledger.Projection.{validate_projections}
use benzhi_project_fe3ad.Ledger.Credential.{FrozenMaterial, verify_credential}
use benzhi_project_fe3ad.JsonStore.Model.{Codec, Store, clone_snapshot}
use benzhi_project_fe3ad.JsonStore.Reads.{events_of, read_state}
use benzhi_project_fe3ad.Workflow.Commands.{Response}
use benzhi_project_fe3ad.Workflow.Readiness.{ReadinessReport, build_readiness}
pub mod Verdicts
pub mod Tasks

pub record BatchView : Type 0 where
  pub batch : CalibrationBatch
  pub sensors : List SensorRevision
  pub profile : Option CalibrationProfile
  pub measurements : List MeasurementSet
  pub findings : List ReviewFinding
  pub reviews : List ReviewRecord
  pub credential : Option ReleaseCredential
  pub coverage : CoverageReport
  pub readiness : ReadinessReport

pub record RecalibrationTaskView : Type 0 where
  pub batch_id : String
  pub sensor_revision_id : String
  pub tasks : List RecalibrationTask
  pub required_points : ℕ
  pub completed_points : ℕ
  pub pending_points : ℕ
  pub failed_points : ℕ
  pub inherited_points : ℕ

pub record CredentialDevice : Type 0 where
  pub sensor_code : String
  pub revision : Int64
  pub metric : String
  pub unit : String
  pub range_min : Float64
  pub range_max : Float64

pub record CredentialVerificationFailure : Type 0 where
  pub code : String
  pub message : String

pub record CredentialSummary : Type 0 where
  pub batch_version : Int64
  pub decision : String
  pub issued_by : String
  pub issued_at : Time

pub record CredentialVerification : Type 0 where
  pub valid : Bool
  pub verified_at : Time
  pub batch_id : String
  pub credential_id : String
  pub credential_digest : String
  pub credential : Option CredentialSummary
  pub failures : List CredentialVerificationFailure
  pub devices : List CredentialDevice

-- `CoverageReport{}`
abbrev no_coverage : CoverageReport
no_coverage = record { batch_id = ""; sensors = []; complete = false }

-- The coverage of a batch, once it has a profile.
unfoldable pub coverage_of : Snapshot → String → CalibrationBatch → Result CoverageReport
coverage_of s batch_id b =
    if not (is_empty b.profile_id) then build_coverage s batch_id else ok no_coverage

abbrev pub captured_before : MeasurementSet → MeasurementSet → Bool
captured_before a b = ltb a.captured_at b.captured_at

-- One `switch task.Status`, as four tests.
abbrev pub is_completed : RecalibrationTask → Bool
is_completed t = elim t.status [ passed ↦ true | _ ↦ false ]

abbrev pub is_pending : RecalibrationTask → Bool
is_pending t = elim t.status [ pending ↦ true | _ ↦ false ]

abbrev pub is_failed : RecalibrationTask → Bool
is_failed t = elim t.status [ task_failed ↦ true | _ ↦ false ]

abbrev pub is_inherited_task : RecalibrationTask → Bool
is_inherited_task t = elim t.status [ inherited ↦ true | _ ↦ false ]

-- The loop that counts the tasks.
unfoldable pub count_tasks :
    (batch_id revision_id : String) → List RecalibrationTask → RecalibrationTaskView
count_tasks batch_id revision_id tasks = record {
  batch_id = batch_id;
  sensor_revision_id = revision_id;
  tasks = tasks;
  required_points = length (select (λ t. t.required) tasks);
  completed_points = length (select is_completed tasks);
  pending_points = length (select is_pending tasks);
  failed_points = length (select is_failed tasks);
  inherited_points = length (select is_inherited_task tasks);
}

abbrev error_message : Error → String
error_message (domain d) = d.message
error_message (plain m) = m

abbrev pub device_of : SensorRevision → CredentialDevice
device_of e = record {
  sensor_code = e.sensor_code;
  revision = e.revision;
  metric = e.metric;
  unit = e.unit;
  range_min = e.range_min;
  range_max = e.range_max;
}

-- The loop over the revisions of the credential.
unfoldable pub devices_of : Snapshot → List String → Result (List CredentialDevice)
devices_of s [] = ok []
devices_of s (id ∷ ids) = do
  e ← required (lookup id s.sensors) (integrity "凭据引用的传感器修订 %s 不存在")
  rest ← devices_of s ids
  ok (device_of e ∷ rest)

abbrev pub summary_of : ReleaseCredential → CredentialSummary
summary_of c = record {
  batch_version = c.batch_version;
  decision = c.decision;
  issued_by = c.issued_by;
  issued_at = c.issued_at;
}

abbrev pub fail : CredentialVerification → (code message : String) → CredentialVerification
fail v code message = record v { failures = record { code = code; message = message } ∷ [] }

-- `%v` of an error in an error of its own.
abbrev as_integrity {ℓ} : {A : Type ℓ} → String → Result A → Result A
as_integrity message (ok a) = ok a
as_integrity message (err e) = err (integrity message)

-- The part that compares the credential with the digest that was handed in.
unfoldable pub judge_credential :
    (FrozenMaterial → Result String)
    → (String → String)
    → Snapshot
    → ReleaseCredential
    → String
    → CredentialVerification
    → Result CredentialVerification
judge_credential marshal sha256 s credential provided v =
    let described : CredentialVerification = record v {
      credential_digest = credential.content_digest;
      credential = some (summary_of credential);
    } in
    elim (verify_credential marshal sha256 s credential) [
      | err e ↦ ok (fail described "credential_projection_mismatch" (error_message e))
      | ok u ↦
          if not (str_eq credential.content_digest provided)
          then ok (fail described "content_digest_mismatch" "调用方提供的 contentDigest 与凭据不匹配")
          else (devices_of s credential.sensor_revision_ids >>= λ devices. ok (record described {
            devices = sort (λ a b. str_lt a.sensor_code b.sensor_code) devices;
            valid = true;
          }))
    ]

abbrev pub blank_verification : Time → (batch_id credential_id : String) → CredentialVerification
blank_verification now batch_id credential_id = record {
  valid = false;
  verified_at = now;
  batch_id = batch_id;
  credential_id = credential_id;
  credential_digest = "";
  credential = none;
  failures = [];
  devices = [];
}

module _ (c : Codec Response) (marshal : FrozenMaterial → Result String)
    (sha256 : String → String) where
  unfoldable pub get_batch : (Float64 → String) → Store → String → Result BatchView
  get_batch show store batch_id = do
    s ← clone_snapshot c store.projection
    b ← find_batch s batch_id
    coverage ← coverage_of s batch_id b
    readiness ← build_readiness show s batch_id
    ok (record {
      batch = b;
      sensors = sort (λ a b. str_lt a.sensor_code b.sensor_code) (current_sensors s batch_id);
      profile = lookup b.profile_id s.profiles;
      measurements =
          sort captured_before (select (λ m. str_eq m.batch_id batch_id) (values s.measurements));
      findings = sort (λ a b. str_lt a.id b.id) (batch_findings s batch_id false);
      reviews = select (λ r. str_eq r.batch_id batch_id) s.reviews;
      credential = credential_for_batch s batch_id;
      coverage = coverage;
      readiness = readiness;
    })

  unfoldable pub open_findings : Store → String → Result (List ReviewFinding)
  open_findings store batch_id = do
    s ← clone_snapshot c store.projection
    b ← find_batch s batch_id
    ok (batch_findings s batch_id true)

  -- `sensor.Revision` of a current revision, which is never nil.
  unfoldable pub recalibration_tasks :
      Store → (batch_id revision_id : String) → Result RecalibrationTaskView
  recalibration_tasks store batch_id revision_id = do
    s ← clone_snapshot c store.projection
    b ← find_batch s batch_id
    reject (not (is_current_revision s revision_id batch_id)) (validation "返校任务查询必须使用本批次当前传感器修订")
    sensor ← required (lookup revision_id s.sensors) (plain "nil pointer dereference")
    reject (slt sensor.revision 2) (validation "当前传感器修订不是返校修订")
    let tasks = recalibration_tasks_for_revision s batch_id revision_id
    reject (length tasks == 0) (not_found "当前返校修订没有复验任务")
    ok (
        count_tasks batch_id revision_id
          (sort (λ a b. flt a.reference_point b.reference_point) tasks))

  unfoldable pub get_credential : Store → String → Result ReleaseCredential
  get_credential store batch_id = do
    s ← clone_snapshot c store.projection
    b ← find_batch s batch_id
    credential ← required (credential_for_batch s batch_id) (not_found "批次尚未签发凭据")
    verify_credential marshal sha256 s credential
    ok credential

  -- From the read state on.
  unfoldable pub verify_in :
      Snapshot → CredentialVerification → String → Result CredentialVerification
  verify_in s v provided = do
    b ← find_batch s v.batch_id
    elim (lookup v.credential_id s.credentials) [
      | none ↦ ok (fail v "credential_not_found" "凭据不存在")
      | some credential ↦
          if not (str_eq credential.batch_id v.batch_id)
          then ok (fail v "credential_batch_mismatch" "凭据不属于指定批次")
          else judge_credential marshal sha256 s credential provided v
    ]

  unfoldable pub verify_credential_of :
      Time → Store → (batch_id credential_id provided : String) → Result CredentialVerification
  verify_credential_of now store batch_id credential_id provided = do
    reject (is_empty batch_id || is_empty credential_id || is_empty provided)
        (validation "batchID、credentialID 和 contentDigest 不能为空")
    state ← as_integrity "读取核验快照失败: %v" (read_state c store)
    as_integrity "审计账本完整性校验失败: %v" (verify_chain c.marshal_material c.sha256 state.1)
    checks ← as_integrity "审计投影完整性校验失败: %v" (validate_projections c.unmarshal_snapshot state.1)
    verify_in state.0 (blank_verification now batch_id credential_id) provided

  unfoldable pub audit_trail : Store → String → Result (List Event)
  audit_trail store batch_id = do
    s ← clone_snapshot c store.projection
    b ← find_batch s batch_id
    ok (events_of store batch_id)
