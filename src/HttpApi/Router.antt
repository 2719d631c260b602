-- ===== src/HttpApi/Router.antt =====
-- internal/transport/httpapi/router.go, handlers_mutation.go and handlers_query.go: the table of the
-- routes and their handlers. Which pattern a request matches is the multiplexer's, a parameter.
use benzhi_project_fe3ad.Prelude.{ℕ, Bool, Option, String, List, [], ◌∷◌}
use benzhi_project_fe3ad.Calibration.Errors.{Result, ok, err, ◌>>=◌}
use benzhi_project_fe3ad.Calibration.Types.{Time}
use benzhi_project_fe3ad.JsonStore.Model.{Store, Faults}
use benzhi_project_fe3ad.JsonStore.Reads.{verify_store}
use benzhi_project_fe3ad.Workflow.Commands.{
  CommandMeta, SensorInput, ProfileInput, MeasurementInput, ReviewInput, Command, create_batch,
  register_sensor, lock_profile, submit_measurement, submit_measurements, recalibrate, review,
  resubmit_review, issue,
}
use benzhi_project_fe3ad.Workflow.Service.{Host, serve}
use benzhi_project_fe3ad.Workflow.Queries.{
  get_batch, get_credential, recalibration_tasks, open_findings, audit_trail, verify_credential_of,
  CredentialVerification,
}
use benzhi_project_fe3ad.Workflow.WorkQueue.{CursorCodec, list_batches}
use benzhi_project_fe3ad.HttpApi.Codec.{
  Body, health, mutation, queue, batch, tasks, credential, verification, findings, events, Answer,
  respond, decode_body,
}
use benzhi_project_fe3ad.HttpApi.ListQuery.{QueryParser, parse_filter}

-- What the handlers read of a request; a name that the pattern has not is "".
pub record HttpRequest : Type 0 where
  pub batch_id : String
  pub revision_id : String
  pub query : String → String
  pub body : String

-- The decoders of the bodies (`none` for an error), and whether a body ends behind its first value.
pub record Bodies : Type 0 where
  pub create_batch : String → Option (CommandMeta × String × String)
  pub register_sensor : String → Option (CommandMeta × SensorInput)
  pub lock_profile : String → Option (CommandMeta × ProfileInput)
  pub submit_measurement : String → Option (CommandMeta × String × MeasurementInput)
  pub submit_measurements : String → Option (CommandMeta × String × List MeasurementInput)
  pub recalibrate : String → Option (CommandMeta × String × String)
  pub review : String → Option (CommandMeta × ReviewInput)
  pub resubmit_review : String → Option (CommandMeta × String)
  pub issue : String → Option CommandMeta
  pub verify_credential : String → Option (String × String)
  pub ends : String → Bool

pub record Api : Type 0 where
  pub host : Host
  pub bodies : Bodies
  pub parser : QueryParser
  pub cursors : CursorCodec

pub data Route : Type 0 where
  get_health post_batch get_batches get_one_batch post_sensor post_profile : Route
  post_measurement post_measurements post_recalibration get_tasks post_review : Route
  post_resubmission post_release get_release post_verification get_findings get_audit : Route

-- The patterns of `Handler`, and their handlers.
unfoldable pub routes : List (String × Route)
routes =
    ("GET /healthz", get_health)
    ∷ ("POST /v1/batches", post_batch)
    ∷ ("GET /v1/batches", get_batches)
    ∷ ("GET /v1/batches/{batchID}", get_one_batch)
    ∷ ("POST /v1/batches/{batchID}/sensors", post_sensor)
    ∷ ("POST /v1/batches/{batchID}/profile:lock", post_profile)
    ∷ ("POST /v1/batches/{batchID}/measurements", post_measurement)
    ∷ ("POST /v1/batches/{batchID}/measurements:batch", post_measurements)
    ∷ ("POST /v1/batches/{batchID}/recalibrations", post_recalibration)
    ∷ ("GET /v1/batches/{batchID}/recalibrations/{revisionID}/tasks", get_tasks)
    ∷ ("POST /v1/batches/{batchID}/reviews", post_review)
    ∷ ("POST /v1/batches/{batchID}/reviews:resubmit", post_resubmission)
    ∷ ("POST /v1/batches/{batchID}/release", post_release)
    ∷ ("GET /v1/batches/{batchID}/credential", get_release)
    ∷ ("POST /v1/batches/{batchID}/credential:verify", post_verification)
    ∷ ("GET /v1/batches/{batchID}/findings", get_findings)
    ∷ ("GET /v1/batches/{batchID}/audit", get_audit)
    ∷ []

module _ (a : Api) (faults : Faults) (now : Time) (s : Store) (req : HttpRequest) where
  abbrev body_of {ℓ} : {V : Type ℓ} → (String → Option V) → Result V
  body_of decode = decode_body decode a.bodies.ends req.body

  -- A call of the service.
  abbrev pub call : (success : ℕ) → String → CommandMeta → Command → Store × Answer
  call success batch_id m cmd =
      let done = serve a.host faults now s m batch_id cmd in
      (done.0, respond success mutation done.1)

  -- `decodeBody`, whose error is the answer, and the call.
  abbrev pub handle_command :
      (success : ℕ) → (batch_id : String) → Result (CommandMeta × Command) → Store × Answer
  handle_command success batch_id (err e) = (s, respond success mutation (err e))
  handle_command success batch_id (ok (m, cmd)) = call success batch_id m cmd

  abbrev pub answer_read {ℓ} : {V : Type ℓ} → (V → Body) → Result V → Store × Answer
  answer_read show r = (s, respond 200 show r)

  unfoldable pub create_batch_handler : Store × Answer
  create_batch_handler = handle_command 201 "" (do
    (m, station_code, title) ← body_of a.bodies.create_batch
    ok (m, create_batch station_code title))

  unfoldable pub register_sensor_handler : Store × Answer
  register_sensor_handler =
      handle_command 201 req.batch_id
        (do (m, sensor) ← body_of a.bodies.register_sensor; ok (m, register_sensor sensor))

  unfoldable pub lock_profile_handler : Store × Answer
  lock_profile_handler =
      handle_command 200 req.batch_id
        (do (m, profile) ← body_of a.bodies.lock_profile; ok (m, lock_profile profile))

  unfoldable pub submit_measurement_handler : Store × Answer
  submit_measurement_handler = handle_command 201 req.batch_id (do
    (m, sensor_revision_id, input) ← body_of a.bodies.submit_measurement
    ok (m, submit_measurement sensor_revision_id input))

  unfoldable pub submit_measurements_handler : Store × Answer
  submit_measurements_handler = handle_command 201 req.batch_id (do
    (m, sensor_revision_id, inputs) ← body_of a.bodies.submit_measurements
    ok (m, submit_measurements sensor_revision_id inputs))

  unfoldable pub recalibrate_handler : Store × Answer
  recalibrate_handler = handle_command 201 req.batch_id (do
    (m, sensor_revision_id, note) ← body_of a.bodies.recalibrate
    ok (m, recalibrate sensor_revision_id note))

  unfoldable pub review_handler : Store × Answer
  review_handler =
      handle_command 200 req.batch_id
        (do (m, input) ← body_of a.bodies.review; ok (m, review input))

  unfoldable pub resubmit_review_handler : Store × Answer
  resubmit_review_handler =
      handle_command 200 req.batch_id
        (do (m, comment) ← body_of a.bodies.resubmit_review; ok (m, resubmit_review comment))

  unfoldable pub issue_handler : Store × Answer
  issue_handler = handle_command 201 req.batch_id (do m ← body_of a.bodies.issue; ok (m, issue))

  abbrev sha : String → String
  sha = a.host.library.sha256

  unfoldable pub health_handler : Store × Answer
  health_handler = answer_read health (verify_store a.host.codec s)

  abbrev pub verify_posted : Result CredentialVerification
  verify_posted = do
    (credential_id, provided) ← body_of a.bodies.verify_credential
    verify_credential_of a.host.codec a.host.library.marshal_frozen sha now s req.batch_id
        credential_id provided

  unfoldable pub verify_credential_handler : Store × Answer
  verify_credential_handler = answer_read verification verify_posted

  unfoldable pub list_batches_handler : Store × Answer
  list_batches_handler = answer_read queue (do
    filter ← parse_filter a.parser req.query
    list_batches a.cursors a.host.codec a.host.library.format_6g s filter)

  unfoldable pub get_batch_handler : Store × Answer
  get_batch_handler = answer_read batch (
      get_batch a.host.codec a.host.library.marshal_frozen sha a.host.library.format_6g s
        req.batch_id)

  unfoldable pub get_credential_handler : Store × Answer
  get_credential_handler =
      answer_read credential
        (get_credential a.host.codec a.host.library.marshal_frozen sha s req.batch_id)

  unfoldable pub get_recalibration_tasks_handler : Store × Answer
  get_recalibration_tasks_handler = answer_read tasks (
      recalibration_tasks a.host.codec a.host.library.marshal_frozen sha s req.batch_id
        req.revision_id)

  unfoldable pub get_findings_handler : Store × Answer
  get_findings_handler =
      answer_read findings
        (open_findings a.host.codec a.host.library.marshal_frozen sha s req.batch_id)

  unfoldable pub get_audit_handler : Store × Answer
  get_audit_handler =
      answer_read events (audit_trail a.host.codec a.host.library.marshal_frozen sha s req.batch_id)

  -- The handler of a route.
  unfoldable pub handle : Route → Store × Answer
  handle get_health = health_handler
  handle post_batch = create_batch_handler
  handle get_batches = list_batches_handler
  handle get_one_batch = get_batch_handler
  handle post_sensor = register_sensor_handler
  handle post_profile = lock_profile_handler
  handle post_measurement = submit_measurement_handler
  handle post_measurements = submit_measurements_handler
  handle post_recalibration = recalibrate_handler
  handle get_tasks = get_recalibration_tasks_handler
  handle post_review = review_handler
  handle post_resubmission = resubmit_review_handler
  handle post_release = issue_handler
  handle get_release = get_credential_handler
  handle post_verification = verify_credential_handler
  handle get_findings = get_findings_handler
  handle get_audit = get_audit_handler
