-- ===== src/Tests/Selfcheck.antt =====
-- The scenario of internal/transport/httpapi/selfcheck.go, run against the handlers, and the theorems on
-- it, applied.
use benzhi_project_fe3ad.Prelude.{ℕ, ◌≡◌, refl, ap, arith, is_blank}
use benzhi_project_fe3ad.Prelude.Maps.{lookup_by, insert_by}
use benzhi_project_fe3ad.Calibration.Errors.{Result, ok}
use benzhi_project_fe3ad.Calibration.Snapshot.{current_sensors, recalibration_tasks_for_revision}
use benzhi_project_fe3ad.JsonStore.Model.{Store, clone_snapshot}
use benzhi_project_fe3ad.JsonStore.Commit.{commit, prepare, persist, finish, replay}
use benzhi_project_fe3ad.Workflow.Service.{
  request_fingerprint, Host, serve, request_of, validate_meta, event_type,
}
use benzhi_project_fe3ad.Workflow.Durability.{new_store}
use benzhi_project_fe3ad.HttpApi.Codec.{write_error}
use benzhi_project_fe3ad.HttpApi.Router.{
  handle, create_batch_handler, register_sensor_handler, lock_profile_handler,
  submit_measurement_handler, submit_measurements_handler, review_handler, recalibrate_handler,
  get_recalibration_tasks_handler, issue_handler, get_credential_handler, verify_credential_handler,
  list_batches_handler, get_batch_handler, get_findings_handler, get_audit_handler,
}
use benzhi_project_fe3ad.HttpApi.Client.{
  Leaf, Value, leaf, Fields, MutationResult, ClientJson, call,
}
use benzhi_project_fe3ad.HttpApi.Selfcheck.{Client, run}
use benzhi_project_fe3ad.HttpApi.Selfcheck.Network.{api_web}
use benzhi_project_fe3ad.HttpApi.Selfcheck.Released.{IsServed, IsReleased, run-IsReleased}
use benzhi_project_fe3ad.Calibration.Validation.Records.{validate_snapshot}
use benzhi_project_fe3ad.Ledger.Chain.{seal, verify_chain}
use benzhi_project_fe3ad.Calibration.Profile.{check_points, uncovered}
use benzhi_project_fe3ad.Float64.{is_nan}
use benzhi_project_fe3ad.Calibration.Measurement.{put_measurements}
use benzhi_project_fe3ad.Workflow.CalibrationCommands.{measured, judge_sets, judge_set}
use benzhi_project_fe3ad.Evaluation.Evaluator.{apply_statistics, evaluate_batch}
use benzhi_project_fe3ad.Calibration.Review.{
  replace_automatic_findings, set_evaluation_status, approve_review,
}
use benzhi_project_fe3ad.Evaluation.Findings.{materialize}
use benzhi_project_fe3ad.Evaluation.Recalibration.{
  update_recalibration_task, build_recalibration_tasks,
}
use benzhi_project_fe3ad.Calibration.Sensor.{recalibrate_sensor}
use benzhi_project_fe3ad.Workflow.Queries.{
  recalibration_tasks, get_credential, verify_credential_of, verify_in, judge_credential,
  devices_of, get_batch, coverage_of, open_findings, audit_trail,
}
use benzhi_project_fe3ad.Ledger.Credential.{frozen_digest}
use benzhi_project_fe3ad.Calibration.Credential.{issue_credential}
use benzhi_project_fe3ad.JsonStore.Reads.{read_state, batch_read_snapshot}
use benzhi_project_fe3ad.Ledger.Projection.{validate_projections, validate_from, check_projection}
use benzhi_project_fe3ad.HttpApi.ListQuery.{parse_filter, status_of_text}
use benzhi_project_fe3ad.Workflow.WorkQueue.{
  list_batches, check_filter, read_cursor, items_of, start_of, item_of,
}
use benzhi_project_fe3ad.Workflow.Readiness.{build_readiness}
use benzhi_project_fe3ad.Evaluation.Coverage.{build_coverage}
use benzhi_project_fe3ad.Tests.Scenario.{environment}
use benzhi_project_fe3ad.Tests.Server.{scenario_host, json, render, bodies, api, request, route}

abbrev outcome : (ℕ × Store) × Result Client
unfolding run
outcome = run (api_web api route render environment) json (0, new_store)

abbrev last : Store
last = outcome.0.1

abbrev client : Client
client = record { batch_id = "b1"; version = 9; sensor_id = "sensor*******-" }

served : IsServed api json route client
served = record {
  gets = λ path r req found. ground arith;
  credential_request = request;
  credential_routed = refl;
  credential_id = refl;
  verify_request = request;
  verify_routed = refl;
  verify_id = refl;
}

run_passes : outcome.1 ≡ ok client
unfolding scenario_host run benzhi_project_fe3ad.HttpApi.Client.mutate call json bodies handle
    create_batch_handler serve request_of request_fingerprint validate_meta commit event_type
    lookup_by prepare clone_snapshot benzhi_project_fe3ad.Workflow.Service.mutate
    benzhi_project_fe3ad.Workflow.BatchCommands.create_batch
    benzhi_project_fe3ad.Calibration.Batch.create_batch is_blank validate_snapshot insert_by seal
    persist finish register_sensor_handler
    benzhi_project_fe3ad.Workflow.BatchCommands.register_sensor
    benzhi_project_fe3ad.Calibration.Sensor.register_sensor lock_profile_handler
    benzhi_project_fe3ad.Workflow.BatchCommands.lock_profile
    benzhi_project_fe3ad.Calibration.Profile.lock_profile check_points is_nan current_sensors
    uncovered submit_measurement_handler
    benzhi_project_fe3ad.Workflow.CalibrationCommands.submit_measurements put_measurements measured
    apply_statistics evaluate_batch judge_sets judge_set replace_automatic_findings materialize
    update_recalibration_task set_evaluation_status replay submit_measurements_handler
    review_handler write_error recalibrate_handler
    benzhi_project_fe3ad.Workflow.CalibrationCommands.recalibrate recalibrate_sensor
    build_recalibration_tasks get_recalibration_tasks_handler recalibration_tasks
    recalibration_tasks_for_revision benzhi_project_fe3ad.Workflow.ReleaseCommands.review
    approve_review issue_handler benzhi_project_fe3ad.Workflow.ReleaseCommands.issue frozen_digest
    issue_credential get_credential_handler get_credential
    benzhi_project_fe3ad.Ledger.Credential.verify_credential verify_credential_handler
    verify_credential_of read_state verify_chain validate_projections validate_from check_projection
    verify_in judge_credential devices_of list_batches_handler parse_filter list_batches
    check_filter status_of_text read_cursor batch_read_snapshot items_of start_of item_of
    build_readiness build_coverage get_batch_handler get_batch coverage_of get_findings_handler
    open_findings get_audit_handler audit_trail
run_passes = refl

passed : run (api_web api route render environment) json (0, new_store) ≡ (outcome.0, ok client)
unfolding run
passed = ap (λ r. (outcome.0, r)) run_passes

run-IsReleased_example : IsReleased api route render environment json last "b1"
run-IsReleased_example =
    run-IsReleased api route render environment json 0 _ new_store last client served passed
