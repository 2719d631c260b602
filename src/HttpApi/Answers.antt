-- ===== src/HttpApi/Answers.antt =====
-- internal/transport/httpapi/codec.go: the status of an answer and its body.
use benzhi_project_fe3ad.Prelude.Int64.{Int64}
use benzhi_project_fe3ad.Prelude.{
  Option, ℕ, ◌==◌, Bool, true, ◌&&◌, ◌||◌, ◌≡◌, refl, String, str_eq,
}
use benzhi_project_fe3ad.Calibration.Errors.{
  ErrorCode, code_validation, code_conflict, code_not_found, code_forbidden, code_integrity, Error,
  domain, plain, Result, ok, err, ◌>>=◌,
}
use benzhi_project_fe3ad.Calibration.Types.{Time}
use benzhi_project_fe3ad.JsonStore.Model.{Store, Faults}
use benzhi_project_fe3ad.Workflow.Commands.{CommandMeta, Command}
use benzhi_project_fe3ad.JsonStore.Reads.{verify_store}
use benzhi_project_fe3ad.Workflow.Service.{serve}
use benzhi_project_fe3ad.Workflow.Queries.{
  get_batch, get_credential, recalibration_tasks, open_findings, audit_trail,
}
use benzhi_project_fe3ad.Workflow.WorkQueue.{list_batches}
use benzhi_project_fe3ad.HttpApi.ListQuery.{parse_filter}
use benzhi_project_fe3ad.HttpApi.Codec.{Body, failure, status_of, write_error, respond}
use benzhi_project_fe3ad.HttpApi.Router.{
  HttpRequest, Api, Route, handle, handle_command, verify_posted, health_handler,
  create_batch_handler, list_batches_handler, get_batch_handler, register_sensor_handler,
  lock_profile_handler, submit_measurement_handler, submit_measurements_handler,
  recalibrate_handler, get_recalibration_tasks_handler, review_handler, resubmit_review_handler,
  issue_handler, get_credential_handler, verify_credential_handler, get_findings_handler,
  get_audit_handler,
}

-- The status and the code of an error go together, and one that is not the domain's tells nothing.
abbrev pub agrees : ℕ → Body → Bool
agrees status (failure e) =
    (status == 400 && str_eq e.code "validation")
    || (status == 409 && str_eq e.code "conflict")
    || (status == 404 && str_eq e.code "not_found")
    || (status == 403 && str_eq e.code "forbidden")
    || (status == 500 && str_eq e.code "integrity")
    || (status == 500 && str_eq e.code "internal" && str_eq e.message "服务内部错误")
agrees status _ = status == 200 || status == 201

domain-agrees :
    (code : ErrorCode) (message : String) (version : Option Int64)
    → let answer =
        write_error
          (domain (record { code = code; message = message; current_version = version })) in
      agrees answer.status answer.body ≡ true
unfolding write_error status_of
domain-agrees code_validation message version = refl
domain-agrees code_conflict message version = refl
domain-agrees code_not_found message version = refl
domain-agrees code_forbidden message version = refl
domain-agrees code_integrity message version = refl

write_error-agrees : (e : Error) → agrees (write_error e).status (write_error e).body ≡ true
unfolding write_error status_of
write_error-agrees (plain m) = refl
write_error-agrees (domain e) = domain-agrees e.code e.message e.current_version

respond-agrees {ℓ} :
    {V : Type ℓ} (success : ℕ) (show : V → Body) (r : Result V)
    → ((v : V) → agrees success (show v) ≡ true)
    → agrees (respond success show r).status (respond success show r).body ≡ true
respond-agrees success show (err e) shown = write_error-agrees e
respond-agrees success show (ok v) shown = shown v

module _ (a : Api) (faults : Faults) (now : Time) (s : Store) (req : HttpRequest) where
  handle_command-agrees :
      (success : ℕ) (batch_id : String) (decoded : Result (CommandMeta × Command))
      → success == 200 || success == 201 ≡ true
      → let answer = (handle_command a faults now s req success batch_id decoded).1 in
        agrees answer.status answer.body ≡ true
  handle_command-agrees success batch_id (err e) known = write_error-agrees e
  handle_command-agrees success batch_id (ok (m, cmd)) known =
      respond-agrees success Body.mutation ((serve a.host faults now s m batch_id cmd).1)
        (λ r. known)

  -- Every answer has status 200 or 201 and a result, or it has an error: 400 with the code validation,
  -- 409 with conflict, 404 with not_found, 403 with forbidden, 500 with integrity, or 500 with internal
  -- and the one message that tells nothing of the cause.
  pub handle-agrees :
      (r : Route)
      → let answer = (handle a faults now s req r).1 in agrees answer.status answer.body ≡ true
  unfolding handle health_handler create_batch_handler list_batches_handler get_batch_handler
      register_sensor_handler lock_profile_handler submit_measurement_handler
      submit_measurements_handler recalibrate_handler get_recalibration_tasks_handler review_handler
      resubmit_review_handler issue_handler get_credential_handler verify_credential_handler
      get_findings_handler get_audit_handler
  handle-agrees Route.get_health =
      respond-agrees 200 Body.health (verify_store a.host.codec s) (λ v. refl)
  handle-agrees Route.post_batch = handle_command-agrees 201 "" _ refl
  handle-agrees Route.get_batches =
      respond-agrees 200 Body.queue
        (parse_filter a.parser req.query
          >>= list_batches a.cursors a.host.codec a.host.library.format_6g s)
        (λ v. refl)
  handle-agrees Route.get_one_batch =
      respond-agrees 200 Body.batch
        (get_batch a.host.codec a.host.library.marshal_frozen a.host.library.sha256
          a.host.library.format_6g s req.batch_id)
        (λ v. refl)
  handle-agrees Route.post_sensor = handle_command-agrees 201 req.batch_id _ refl
  handle-agrees Route.post_profile = handle_command-agrees 200 req.batch_id _ refl
  handle-agrees Route.post_measurement = handle_command-agrees 201 req.batch_id _ refl
  handle-agrees Route.post_measurements = handle_command-agrees 201 req.batch_id _ refl
  handle-agrees Route.post_recalibration = handle_command-agrees 201 req.batch_id _ refl
  handle-agrees Route.get_tasks =
      respond-agrees 200 Body.tasks
        (recalibration_tasks a.host.codec a.host.library.marshal_frozen a.host.library.sha256 s
          req.batch_id req.revision_id)
        (λ v. refl)
  handle-agrees Route.post_review = handle_command-agrees 200 req.batch_id _ refl
  handle-agrees Route.post_resubmission = handle_command-agrees 200 req.batch_id _ refl
  handle-agrees Route.post_release = handle_command-agrees 201 req.batch_id _ refl
  handle-agrees Route.get_release =
      respond-agrees 200 Body.credential
        (get_credential a.host.codec a.host.library.marshal_frozen a.host.library.sha256 s
          req.batch_id)
        (λ v. refl)
  handle-agrees Route.post_verification =
      respond-agrees 200 Body.verification (verify_posted a faults now s req) (λ v. refl)
  handle-agrees Route.get_findings =
      respond-agrees 200 Body.findings
        (open_findings a.host.codec a.host.library.marshal_frozen a.host.library.sha256 s
          req.batch_id)
        (λ v. refl)
  handle-agrees Route.get_audit =
      respond-agrees 200 Body.events
        (audit_trail a.host.codec a.host.library.marshal_frozen a.host.library.sha256 s
          req.batch_id)
        (λ v. refl)
