-- ===== src/Tests/Http.antt =====
-- The theorems on repeated calls and on the HTTP interface, applied.
use Prim.Native.String.{◌++◌ as ◌<>◌}
use benzhi_project_fe3ad.Prelude.{ℕ, String, ◌≡◌, refl, true, none, some, is_blank}
use benzhi_project_fe3ad.Calibration.Errors.{ok}
use benzhi_project_fe3ad.JsonStore.Model.{Store, no_faults, clone_snapshot}
use benzhi_project_fe3ad.JsonStore.Commit.{commit, prepare, persist, finish}
use benzhi_project_fe3ad.Prelude.Maps.{lookup_by, insert_by}
use benzhi_project_fe3ad.Ledger.Chain.{seal}
use benzhi_project_fe3ad.Calibration.Batch
use benzhi_project_fe3ad.Calibration.Validation.Records.{validate_snapshot}
use benzhi_project_fe3ad.Workflow.BatchCommands
use benzhi_project_fe3ad.Workflow.Commands.{CommandMeta, Command, Response}
use benzhi_project_fe3ad.Workflow.Answers.{blank_response}
use benzhi_project_fe3ad.Workflow.Service.{
  drawing, request_fingerprint, Host, serve, request_of, validate_meta, event_type, mutate,
}
use benzhi_project_fe3ad.Workflow.Retries.{serve_again}
use benzhi_project_fe3ad.HttpApi.Codec.{write_error, status_of}
use benzhi_project_fe3ad.HttpApi.Router.{
  HttpRequest, Api, Bodies, Route, handle, create_batch_handler,
}
use benzhi_project_fe3ad.HttpApi.Rejections.{handle_rejected}
use benzhi_project_fe3ad.HttpApi.Answers.{agrees, handle-agrees}
use benzhi_project_fe3ad.Tests.Samples.{host, meta, empty_store, value}
use benzhi_project_fe3ad.Tests.Cursors.{cursors}

abbrev pub answering : Host
answering = record host { unmarshal_response = λ t. ok (blank_response "b1" "b1") }

abbrev pub first_time : CommandMeta
first_time = record meta { expected_version = 0 }

abbrev pub creating : Command
creating = Command.create_batch "st" "spring"

abbrev answer : Response
answer =
    value (blank_response "" "")
      ((serve answering no_faults 100 empty_store first_time "" creating).1)

abbrev after : Store
after = (serve answering no_faults 100 empty_store first_time "" creating).0

abbrev new_ids : String → ℕ → String
new_ids kind n = kind <> "-again"

serve_again_example :
    serve (drawing new_ids answering) no_faults 200 after first_time "" creating
    ≡ (after, ok (record answer { replayed = true }))
unfolding serve request_of request_fingerprint validate_meta commit event_type lookup_by prepare
    clone_snapshot mutate BatchCommands.create_batch Batch.create_batch is_blank validate_snapshot
    insert_by seal persist finish
serve_again_example =
    serve_again answering answering.library.fresh new_ids no_faults no_faults 100 200 empty_store
      first_time "" creating answer refl refl

-- Every body decodes to the creation of a batch at version 5, and to nothing else.
abbrev bodies : Bodies
bodies = record {
  create_batch = λ t. some (meta, "st", "spring");
  register_sensor = λ t. none;
  lock_profile = λ t. none;
  submit_measurement = λ t. none;
  submit_measurements = λ t. none;
  recalibrate = λ t. none;
  review = λ t. none;
  resubmit_review = λ t. none;
  issue = λ t. none;
  verify_credential = λ t. none;
  ends = λ t. true;
}

abbrev api : Api
api = record {
  host = answering;
  bodies = bodies;
  parser = record { atoi = λ t. none; parse_time = λ t. none };
  cursors = cursors;
}

abbrev request : HttpRequest
request = record { batch_id = ""; revision_id = ""; query = λ name. ""; body = "{}" }

handle_rejected_example :
    (handle api no_faults 100 empty_store request Route.post_batch).0 ≡ empty_store
unfolding handle create_batch_handler serve request_of request_fingerprint validate_meta commit
    event_type lookup_by prepare write_error status_of
handle_rejected_example =
    handle_rejected api (λ text e failed. cc) no_faults 100 empty_store request Route.post_batch
      refl

handle-agrees_example :
    agrees
      (handle api no_faults 100 empty_store request Route.post_batch).1.status
      (handle api no_faults 100 empty_store request Route.post_batch).1.body
    ≡ true
handle-agrees_example = handle-agrees api no_faults 100 empty_store request Route.post_batch
