-- ===== src/HttpApi/Rejections.antt =====
-- internal/transport/httpapi/codec.go: the errors of the client's, and the store behind them.
use benzhi_project_fe3ad.Prelude.{
  ℕ, ltb, leb, Bool, true, false, ◌&&◌, ◌≡◌, refl, inl, inr, String, arith,
}
use benzhi_project_fe3ad.Calibration.Errors.{Error, Result, ok, err, Result-cases}
use benzhi_project_fe3ad.Calibration.Types.{Time}
use benzhi_project_fe3ad.JsonStore.Model.{Codec, CommitRequest, Store, Faults}
use benzhi_project_fe3ad.JsonStore.Commit.{commit, prepare, persist, finish, check_request}
use benzhi_project_fe3ad.Workflow.Commands.{CommandMeta, Command}
use benzhi_project_fe3ad.Workflow.Service.{Host, serve, request_of}
use benzhi_project_fe3ad.HttpApi.Codec.{Answer, write_error}
use benzhi_project_fe3ad.HttpApi.Router.{
  HttpRequest, Api, Route, handle, handle_command, health_handler, create_batch_handler,
  list_batches_handler, get_batch_handler, register_sensor_handler, lock_profile_handler,
  submit_measurement_handler, submit_measurements_handler, recalibrate_handler,
  get_recalibration_tasks_handler, review_handler, resubmit_review_handler, issue_handler,
  get_credential_handler, verify_credential_handler, get_findings_handler, get_audit_handler,
}

-- The request is refused for a reason of the client's.
abbrev pub is_rejected : Answer → Bool
is_rejected a = leb 400 a.status && ltb a.status 500

abbrev rejects : Error → Bool
rejects e = is_rejected (write_error e)

module _ {R : Type 0} (c : Codec R) where
  -- After the line of a commit the errors are not the client's.
  persist_rejected :
      (faults : Faults) (s : Store) (req : CommitRequest R) (e : Error)
      → (p : _) → (persist c faults s req p).1 ≡ err e
      → rejects e ≡ true
      → (persist c faults s req p).0 ≡ s
  unfolding persist finish write_error
  persist_rejected faults s req e p failed rejected = ground arith

  commit_rejected :
      (faults : Faults) (now : Time) (s : Store) (req : CommitRequest R) (e : Error)
      → (commit c faults now s req).1 ≡ err e
      → rejects e ≡ true
      → (commit c faults now s req).0 ≡ s
  unfolding commit
  commit_rejected faults now s req e failed rejected = elim (Result-cases (prepare c now s req)) [
    | inl (p, q) ↦
        ground (arith, persist_rejected faults s req e p, Result-cases (check_request c req))
    | inr (_, q) ↦ ground (arith, Result-cases (check_request c req))
  ]

module _ (h : Host)
    (json : (text : String) (e : Error)
      → h.unmarshal_response text ≡ err e
      → rejects e ≡ false) where
  serve_rejected :
      (faults : Faults) (now : Time) (s : Store) (m : CommandMeta) (batch_id : String)
      (cmd : Command) (e : Error)
      → (serve h faults now s m batch_id cmd).1 ≡ err e
      → rejects e ≡ true
      → (serve h faults now s m batch_id cmd).0 ≡ s
  unfolding serve
  serve_rejected faults now s m batch_id cmd e failed rejected =
      elim (Result-cases (request_of h now m batch_id cmd)) [
        | inr (_, q) ↦ rw q refl
        | inl (req, q) ↦ elim (Result-cases ((commit h.codec faults now s req).1)) [
          | inr (e', q') ↦ rw q (commit_rejected h.codec faults now s req e (ground arith) rejected)
          | inl (r, q') ↦ elim (Result-cases (h.unmarshal_response r.response)) [
            | inr (e', q'') ↦ let never = json r.response e' q'' in absurd (ground arith)
            | inl (answered, q'') ↦ absurd (ground arith)
          ]
        ]
      ]

module _ (a : Api)
    (json : (text : String) (e : Error)
      → a.host.unmarshal_response text ≡ err e
      → rejects e ≡ false)
    (faults : Faults) (now : Time) (s : Store) (req : HttpRequest) where
  handle_command_rejected :
      (success : ℕ) (batch_id : String) (decoded : Result (CommandMeta × Command))
      → ltb success 400 ≡ true
      → is_rejected ((handle_command a faults now s req success batch_id decoded).1) ≡ true
      → (handle_command a faults now s req success batch_id decoded).0 ≡ s
  handle_command_rejected success batch_id (err e) low rejected = refl
  handle_command_rejected success batch_id (ok (m, cmd)) low rejected =
      elim (Result-cases ((serve a.host faults now s m batch_id cmd).1)) [
        | inr (e, failed) ↦
            serve_rejected a.host json faults now s m batch_id cmd e failed (ground arith)
        | inl (r, done) ↦ absurd (ground arith)
      ]

  -- Where the JSON of a stored answer that cannot be read is no error of the client's, a request that is
  -- answered with a status from 400 to 499 leaves the store and its files as they were.
  pub handle_rejected :
      (r : Route)
      → is_rejected ((handle a faults now s req r).1) ≡ true
      → (handle a faults now s req r).0 ≡ s
  unfolding handle health_handler create_batch_handler list_batches_handler get_batch_handler
      register_sensor_handler lock_profile_handler submit_measurement_handler
      submit_measurements_handler recalibrate_handler get_recalibration_tasks_handler review_handler
      resubmit_review_handler issue_handler get_credential_handler verify_credential_handler
      get_findings_handler get_audit_handler
  handle_rejected Route.get_health rejected = refl
  handle_rejected Route.post_batch rejected = handle_command_rejected 201 "" _ refl rejected
  handle_rejected Route.get_batches rejected = refl
  handle_rejected Route.get_one_batch rejected = refl
  handle_rejected Route.post_sensor rejected =
      handle_command_rejected 201 req.batch_id _ refl rejected
  handle_rejected Route.post_profile rejected =
      handle_command_rejected 200 req.batch_id _ refl rejected
  handle_rejected Route.post_measurement rejected =
      handle_command_rejected 201 req.batch_id _ refl rejected
  handle_rejected Route.post_measurements rejected =
      handle_command_rejected 201 req.batch_id _ refl rejected
  handle_rejected Route.post_recalibration rejected =
      handle_command_rejected 201 req.batch_id _ refl rejected
  handle_rejected Route.get_tasks rejected = refl
  handle_rejected Route.post_review rejected =
      handle_command_rejected 200 req.batch_id _ refl rejected
  handle_rejected Route.post_resubmission rejected =
      handle_command_rejected 200 req.batch_id _ refl rejected
  handle_rejected Route.post_release rejected =
      handle_command_rejected 201 req.batch_id _ refl rejected
  handle_rejected Route.get_release rejected = refl
  handle_rejected Route.post_verification rejected = refl
  handle_rejected Route.get_findings rejected = refl
  handle_rejected Route.get_audit rejected = refl
