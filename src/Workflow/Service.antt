-- ===== src/Workflow/Service.antt =====
-- internal/application/workflow/service.go, and what its methods share: the checks of the command,
-- the commit request, and the answer that is read back from the store.
use benzhi_project_fe3ad.Prelude.{ℕ, String, List, [], ◌∷◌, is_empty}
use Prim.Native.String.{◌++◌ as str_append}
use benzhi_project_fe3ad.Prelude.Int64.{slt}
use benzhi_project_fe3ad.Calibration.Errors.{Result, ok, err, ◌>>=◌, ◌>>◌, reject, validation}
use benzhi_project_fe3ad.Calibration.Types.{Snapshot, Time}
use benzhi_project_fe3ad.JsonStore.Model.{Codec, CommitRequest, CommitResult, Store, Faults}
use benzhi_project_fe3ad.JsonStore.Commit.{commit}
use benzhi_project_fe3ad.Workflow.Commands.{
  CommandMeta, Command, create_batch, register_sensor, lock_profile, submit_measurement,
  submit_measurements, recalibrate, review, resubmit_review, issue, MeasurementResult, Response,
}
use benzhi_project_fe3ad.Workflow.Answers.{Library}
use benzhi_project_fe3ad.Workflow.BatchCommands
use benzhi_project_fe3ad.Workflow.CalibrationCommands
use benzhi_project_fe3ad.Workflow.ReleaseCommands

unfoldable pub validate_meta : CommandMeta → Result (Unit {0})
validate_meta m = do
  reject (is_empty m.actor) (validation "actor 不能为空")
  reject (is_empty m.idempotency_key) (validation "idempotencyKey 不能为空")
  reject (slt m.expected_version 0) (validation "expectedVersion 不能为负数")

-- What the service needs besides the domain: the library, the JSON of a request and of an answer, and
-- the id that a new batch gets from its author and key.
pub record Host : Type 0 where
  pub library : Library
  pub codec : Codec Response
  pub marshal_command : CommandMeta → Command → Result String
  pub unmarshal_response : String → Result Response
  pub stable_batch_id : (actor key : String) → String

-- The type of the event that a command writes.
unfoldable pub event_type : Command → String
event_type (create_batch code title) = "batch.created"
event_type (register_sensor i) = "sensor.registered"
event_type (lock_profile i) = "profile.locked"
event_type (submit_measurement e i) = "measurement.submitted"
event_type (submit_measurements e is) = "measurements.batch_submitted"
event_type (recalibrate e note) = "sensor.recalibrated"
event_type (review i) = str_append "review." i.decision
event_type (resubmit_review comment) = "review.resubmitted"
event_type issue = "credential.issued"

-- The answer to a single measurement carries the id of the measurement in place of the list.
abbrev head_id : List MeasurementResult → String
head_id [] = ""
head_id (m ∷ ms) = m.id

abbrev pub single : Command → Response → Response
single (submit_measurement e i) r = record r {
  id = head_id r.measurements;
  measurements = [];
  sensor_revision_id = "";
}
single _ r = r

-- The service with the ids that `newID` draws in one call; no two calls draw the same.
abbrev pub drawing : (String → ℕ → String) → Host → Host
drawing fresh h = record h { library = record h.library { fresh = fresh } }

-- `requestFingerprint`
unfoldable pub request_fingerprint : Host → CommandMeta → Command → Result String
request_fingerprint h m cmd = do text ← h.marshal_command m cmd; ok (h.library.sha256 text)

module _ (h : Host) where
  -- A new batch has the id of its author and key; the other methods are given one.
  abbrev pub target : CommandMeta → String → Command → String
  target m batch_id (create_batch code title) = h.stable_batch_id m.actor m.idempotency_key
  target m batch_id _ = batch_id

  unfoldable pub mutate :
      CommandMeta → String → Command → Time → Snapshot → Result (Snapshot × Response)
  mutate m id (create_batch code title) now = BatchCommands.create_batch id code title m.actor now
  mutate m id (register_sensor i) now =
      BatchCommands.register_sensor id (h.library.fresh "sensor" 0) i now
  mutate m id (lock_profile i) now =
      BatchCommands.lock_profile id (h.library.fresh "profile" 0) i now
  mutate m id (submit_measurement e i) now =
      CalibrationCommands.submit_measurements h.library id e m.actor (i ∷ []) now
  mutate m id (submit_measurements e is) now =
      CalibrationCommands.submit_measurements h.library id e m.actor is now
  mutate m id (recalibrate e note) now = CalibrationCommands.recalibrate h.library id e note now
  mutate m id (review i) now = ReleaseCommands.review h.library id m.actor i now
  mutate m id (resubmit_review comment) now = ReleaseCommands.resubmit_review id m.actor comment now
  mutate m id issue now = ReleaseCommands.issue h.library id m.actor now

  -- The checks before the commit, and the request.
  unfoldable pub request_of :
      Time → CommandMeta → String → Command → Result (CommitRequest Response)
  request_of now m batch_id cmd = do
    validate_meta m
    digest ← request_fingerprint h m cmd
    ok (record {
      aggregate_id = target m batch_id cmd;
      expected_version = m.expected_version;
      idempotency_key = m.idempotency_key;
      command = event_type cmd;
      request_digest = digest;
      actor = m.actor;
      mutate = mutate m (target m batch_id cmd) cmd now;
    })

  abbrev pub decode : Command → Result CommitResult → Result Response
  decode cmd result = do
    r ← result
    response ← h.unmarshal_response r.response
    ok (single cmd (record response { replayed = r.replayed }))

  abbrev pub run_request :
      Faults → Time → Store → Command → Result (CommitRequest Response) → Store × Result Response
  run_request faults now s cmd (err e) = (s, err e)
  run_request faults now s cmd (ok req) =
      let done = commit h.codec faults now s req in (done.0, decode cmd done.1)

  -- One call of a method of the service.
  unfoldable pub serve :
      Faults → Time → Store → CommandMeta → String → Command → Store × Result Response
  serve faults now s m batch_id cmd = run_request faults now s cmd (request_of now m batch_id cmd)
