-- ===== src/Tests/Queries.antt =====
-- The theorems on the service's queries, applied.
use benzhi_project_fe3ad.Prelude.{ℕ, ◌≡◌, refl, true, sort, str_lt, String, List, [], ◌∷◌, some}
use benzhi_project_fe3ad.Float64.{zero_float}
use benzhi_project_fe3ad.Calibration.Errors.{ok}
use benzhi_project_fe3ad.Calibration.Types.{
  Snapshot, MeasurementSet, ready_review, frozen, released,
}
use benzhi_project_fe3ad.Calibration.Snapshot.{
  find_batch, put_batch, batch_findings, credential_for_batch,
}
use benzhi_project_fe3ad.Calibration.Review.{approve_review, append_review}
use benzhi_project_fe3ad.Calibration.Review.Duties.{approved, approval}
use benzhi_project_fe3ad.Ledger.Credential.Issued.{issued}
use benzhi_project_fe3ad.Calibration.Validation.Records.{validate_snapshot}
use benzhi_project_fe3ad.JsonStore.Model.{Codec, clone_snapshot}
use benzhi_project_fe3ad.Workflow.Commands.{Response}
use benzhi_project_fe3ad.Workflow.Readiness.{
  ReadinessReport, build_readiness, reviewer_eligible, opening_report, closing_report,
  count_sensors, count_points, count_point,
}
use benzhi_project_fe3ad.Workflow.Readiness.Reviewer.{eligible_approves}
use benzhi_project_fe3ad.Workflow.Readiness.Counts.{Permits, IsCounted, build_readiness-Permits}
use benzhi_project_fe3ad.Workflow.Queries.{
  RecalibrationTaskView, recalibration_tasks, count_tasks, CredentialVerification, CredentialDevice,
  blank_verification, verify_credential_of, verify_in, judge_credential, device_of, devices_of,
  summary_of,
}
use benzhi_project_fe3ad.Workflow.Queries.Verdicts.{
  IsVerdict, IsGenuine, verify_credential_of-IsVerdict, issue-verify_in,
}
use benzhi_project_fe3ad.Ledger.Event.{Event}
use benzhi_project_fe3ad.Ledger.Chain.{verify_chain}
use benzhi_project_fe3ad.Ledger.Projection.{ProjectionCheck, validate_projections, validate_from}
use benzhi_project_fe3ad.Ledger.Credential.{frozen_digest, verify_credential}
use benzhi_project_fe3ad.Evaluation.Coverage.{build_coverage}
use benzhi_project_fe3ad.JsonStore.Reads.{read_state}
use benzhi_project_fe3ad.Calibration.Credential.{issue_credential}
use benzhi_project_fe3ad.Tests.Service.{recalibrated}
use benzhi_project_fe3ad.Calibration.Batch.{freeze}
use benzhi_project_fe3ad.Calibration.Lifecycle.{move_to, allowed_transition}
use benzhi_project_fe3ad.Workflow.Release.{issue-approve_review}
use benzhi_project_fe3ad.Workflow.ReleaseCommands.{issue}
use benzhi_project_fe3ad.Tests.Samples.{
  degrees, batch_at, sensor, measurement, snapshot_at, library, host, empty_store, value,
  credential, released_snapshot,
}

-- Its measurements are within the thresholds.
abbrev good : String → ℕ → MeasurementSet
good id n = record measurement {
  id = id;
  reference_point = degrees n;
  readings = degrees n ∷ degrees n ∷ [];
  mean = degrees n;
  absolute_error = zero_float;
}

abbrev pub ready : Snapshot
ready = record (snapshot_at ready_review) {
  measurements = ("m1", good "m1" 10) ∷ ("m2", good "m2" 20) ∷ [];
}

-- A store whose projection is read as that snapshot.
abbrev pub codec_of : Snapshot → Codec Response
codec_of s = record host.codec { unmarshal_snapshot = λ t. ok s }

pub ready-valid : validate_snapshot ready ≡ ok tt
unfolding validate_snapshot
ready-valid = refl

abbrev blank_report : ReadinessReport
blank_report = opening_report ready "b1" (batch_at ready_review)

abbrev report : ReadinessReport
report = value blank_report (build_readiness library.format_6g ready "b1")

eligible_approves_example :
    approve_review ready "b1" "eve" "fine" 300
    ≡ ok (
        put_batch
          (append_review ready (approval "b1" "eve" "fine" 300))
          "b1"
          (approved (batch_at ready_review) "eve" 300))
unfolding find_batch build_readiness reviewer_eligible build_coverage closing_report batch_findings
    count_sensors count_points count_point opening_report
eligible_approves_example =
    eligible_approves library.format_6g ready "b1" "eve" "fine" 300 (batch_at ready_review) report
      refl refl refl

abbrev approved_snapshot : Snapshot
approved_snapshot =
    put_batch (append_review ready (approval "b1" "eve" "fine" 300)) "b1"
      (approved (batch_at ready_review) "eve" 300)

issue-approve_review_example :
    (u : Snapshot) × (r : Response) × (issue library "b1" "dan" 400 approved_snapshot ≡ ok (u, r))
    × (r.status ≡ released)
unfolding find_batch approve_review freeze move_to allowed_transition batch_findings
    credential_for_batch
issue-approve_review_example =
    issue-approve_review library ready approved_snapshot "b1" "eve" "fine" "dan" 300 400
      (batch_at ready_review) "frozen" refl refl refl refl refl

build_readiness-Permits_example : Permits report (batch_at ready_review) × IsCounted report
unfolding find_batch build_readiness build_coverage
build_readiness-Permits_example =
    build_readiness-Permits library.format_6g ready "b1" (batch_at ready_review) report refl refl

-- The answer of a store that holds the released batch.
abbrev verdict : CredentialVerification
verdict = value (blank_verification 500 "b1" "c1") (
    verify_credential_of (codec_of released_snapshot) library.marshal_frozen library.sha256 500
      empty_store "b1" "c1" "#frozen")

verify_credential_of-IsVerdict_example :
    (s : Snapshot) × (events : List Event) × (read_state (codec_of released_snapshot) empty_store
      ≡ ok (s, events))
    × (verify_chain host.codec.marshal_material host.codec.sha256 events ≡ ok tt)
    × ((checks : List ProjectionCheck) × (validate_projections
            (codec_of released_snapshot).unmarshal_snapshot
            events
          ≡ ok checks))
    × IsVerdict (codec_of released_snapshot) library.marshal_frozen library.sha256 verdict
    × (verdict.valid ≡ true
        → IsGenuine
            (codec_of released_snapshot)
            library.marshal_frozen
            library.sha256
            s
            "b1"
            "c1"
            "#frozen")
unfolding verify_credential_of read_state clone_snapshot verify_chain validate_projections
    validate_from verify_in find_batch issue_credential judge_credential verify_credential
    devices_of
verify_credential_of-IsVerdict_example =
    verify_credential_of-IsVerdict (codec_of released_snapshot) library.marshal_frozen
      library.sha256 500 empty_store "b1" "c1" "#frozen" verdict refl

abbrev device : CredentialDevice
device = device_of sensor

issue-verify_in_example :
    verify_in host.codec library.marshal_frozen library.sha256 released_snapshot
      (blank_verification 500 "b1" "c1")
      "#frozen"
    ≡ ok (record (blank_verification 500 "b1" "c1") {
      valid = true;
      credential_digest = "#frozen";
      credential = some (summary_of (issued (batch_at frozen) 400 credential));
      devices = sort (λ a b. str_lt a.sensor_code b.sensor_code) (device ∷ []);
    })
unfolding find_batch frozen_digest issue_credential devices_of
issue-verify_in_example =
    issue-verify_in host.codec library.marshal_frozen library.sha256 (snapshot_at frozen)
      released_snapshot credential 400 500 (batch_at frozen) (device ∷ []) refl refl refl refl refl

abbrev tasks_view : RecalibrationTaskView
tasks_view = value (count_tasks "b1" "e1" []) (
    recalibration_tasks (codec_of recalibrated.0) library.marshal_frozen library.sha256 empty_store
      "b1" recalibrated.1.id)
