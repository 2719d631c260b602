-- ===== src/Tests/Durability.antt =====
-- The theorem on the files behind the calls of the service, applied.
use benzhi_project_fe3ad.Calibration.Types.{CalibrationBatch, draft}
use benzhi_project_fe3ad.Calibration.Snapshot.{find_batch}
use benzhi_project_fe3ad.Calibration.Validation.Records.{validate_snapshot}
use benzhi_project_fe3ad.JsonStore.Model.{clone_snapshot}
use benzhi_project_fe3ad.JsonStore.Commit.{commit, prepare, persist, finish, unsealed}
use benzhi_project_fe3ad.Ledger.Chain.{seal}
use benzhi_project_fe3ad.Workflow.Service.{
  Host, drawing, request_of, request_fingerprint, validate_meta, event_type,
}
use benzhi_project_fe3ad.Workflow.Queries.{BatchView, get_batch}
use benzhi_project_fe3ad.Workflow.Views.{get_batch-Reached}
use benzhi_project_fe3ad.Tests.Samples.{batch_at}
use Prim.Native.String.{◌++◌ as ◌<>◌}
use benzhi_project_fe3ad.Prelude.{
  ℕ, String, Option, none, some, List, ◌∷◌, [], ◌≡◌, refl, subst, is_blank, is_empty, false, arith,
}
use benzhi_project_fe3ad.Calibration.Batch
use benzhi_project_fe3ad.Calibration.Errors.{ok}
use benzhi_project_fe3ad.Calibration.Types.{Snapshot}
use benzhi_project_fe3ad.Calibration.Snapshot.{new_snapshot}
use benzhi_project_fe3ad.Prelude.Maps.{lookup_by, insert_by}
use benzhi_project_fe3ad.JsonStore.Model.{Store, SnapshotFile, no_faults, replaced}
use benzhi_project_fe3ad.JsonStore.Files.{
  FileJson, Files, Envelope, holding, read_events, disk_of, open_store,
}
use benzhi_project_fe3ad.JsonStore.Lines.{decode_json_lines}
use benzhi_project_fe3ad.Ledger.Event.{Event}
use benzhi_project_fe3ad.JsonStore.Recovery.Restart.{SameState}
use benzhi_project_fe3ad.Workflow.BatchCommands
use benzhi_project_fe3ad.Workflow.Commands.{Response}
use benzhi_project_fe3ad.Workflow.Service.{serve, mutate}
use benzhi_project_fe3ad.Workflow.Durability.{
  IsReadable, IsOrderly, new_store, Reached, new, call, open_store-Reached,
}
use benzhi_project_fe3ad.Tests.Samples.{created, creation}
use benzhi_project_fe3ad.Tests.Http.{answering, first_time, creating}

new_snapshot-IsReadable : IsReadable answering.codec new_snapshot
new_snapshot-IsReadable text written =
    let same : "empty" ≡ text = cc in
    subst (λ t. (answering.codec.unmarshal_snapshot t ≡ ok new_snapshot) × (is_empty t ≡ false))
      same (refl, refl)

created-IsReadable : IsReadable answering.codec created
created-IsReadable text written =
    let same : "created" ≡ text = cc in
    subst (λ t. (answering.codec.unmarshal_snapshot t ≡ ok created) × (is_empty t ≡ false)) same
      (refl, refl)

-- The host of the call, with the ids that are drawn for it.
abbrev ids : String → ℕ → String
ids kind n = kind <> "-new"

abbrev caller : Host
caller = drawing ids answering

creation-made :
    (t : Snapshot) (r : Response)
    → mutate caller first_time "b1" creating 100 new_snapshot ≡ ok (t, r)
    → created ≡ t
unfolding mutate BatchCommands.create_batch Batch.create_batch is_blank lookup_by insert_by
creation-made t r made = cc

orderly : IsOrderly caller no_faults 100 new_store first_time "" creating
unfolding lookup_by
orderly = record {
  confirmed = λ e. cc;
  bound = omega arith;
  dated = refl;
  readable = new_snapshot-IsReadable;
  version = omega arith;
  reads =
      λ t r made. subst (IsReadable answering.codec) (creation-made t r made) created-IsReadable;
}

abbrev after : Store
after = (serve caller no_faults 100 new_store first_time "" creating).0

-- What stands in the two files then.
abbrev first_event : List Event → Event
first_event [] = unsealed 0 new_store creation 0 "" ""
first_event (e ∷ es) = e

abbrev envelope_of : Option SnapshotFile → Envelope
envelope_of none = record { schema_version = 0; sequence = 0; last_digest = ""; projection = none }
envelope_of (some f) = record {
  schema_version = f.schema_version;
  sequence = f.sequence;
  last_digest = f.last_digest;
  projection = some f.projection;
}

abbrev json : FileJson
json = record {
  unmarshal_event = λ line. ok (first_event after.disk.ledger);
  unmarshal_envelope = λ text. ok (envelope_of after.disk.snapshot_file);
}

abbrev files : Files
files = record { ledger_file = holding ("{}" ∷ []); snapshot_text = holding "{}" }

reached : Reached answering json after
reached = call ids no_faults 100 new_store first_time "" creating orderly new

held : disk_of json files ≡ ok after.disk
unfolding disk_of read_events decode_json_lines serve request_of request_fingerprint validate_meta
    commit event_type lookup_by prepare clone_snapshot mutate BatchCommands.create_batch
    Batch.create_batch is_blank validate_snapshot insert_by seal persist finish
held = refl

open_store-Reached_example :
    (t : Store) × (open_store json answering.codec replaced "data" (ok tt) files ≡ ok t)
    × SameState answering.codec after t
open_store-Reached_example = open_store-Reached answering json "data" files after refl held reached

abbrev created_batch : CalibrationBatch
created_batch = record (batch_at draft) {
  sensor_ids = [];
  profile_id = "";
  version = 1;
  sampled_by = [];
}

get_batch-Reached_example :
    (v : BatchView) × (get_batch answering.codec answering.library.marshal_frozen
        answering.library.sha256 answering.library.format_6g after "b1"
      ≡ ok v)
    × (v.batch ≡ created_batch)
    × (validate_snapshot after.projection ≡ ok tt)
unfolding serve request_of request_fingerprint validate_meta commit event_type lookup_by prepare
    clone_snapshot mutate BatchCommands.create_batch Batch.create_batch is_blank validate_snapshot
    insert_by seal persist finish find_batch
get_batch-Reached_example =
    get_batch-Reached answering json after "b1" created_batch reached refl refl
