-- ===== src/JsonStore/Recovery.antt =====
-- internal/storage/jsonstore/recovery.go: what `Open` makes of the two files.
use benzhi_project_fe3ad.Prelude.{
  Bool, not, ◌&&◌, ◌==◌, Option, none, some, List, [], ◌∷◌, str_eq, last, is_empty, if◌then◌else◌,
}
use benzhi_project_fe3ad.Prelude.Maps.{Map, insert}
use benzhi_project_fe3ad.Calibration.Errors.{Result, ok, err, ◌>>=◌, ◌>>◌, plain}
use benzhi_project_fe3ad.Calibration.Types.{Snapshot}
use benzhi_project_fe3ad.Calibration.Snapshot.{new_snapshot}
use benzhi_project_fe3ad.Calibration.Validation.Records.{validate_snapshot}
use benzhi_project_fe3ad.Ledger.Event.{Event}
use benzhi_project_fe3ad.Ledger.Chain.{verify_chain}
use benzhi_project_fe3ad.Ledger.Projection.{validate_projections}
use benzhi_project_fe3ad.JsonStore.Model.{
  Codec, SnapshotFile, IdempotentResult, Disk, Store, SnapshotOutcome, replaced, kept,
  replaced_unconfirmed,
}
use benzhi_project_fe3ad.JsonStore.Commit.{idempotency_index}
pub mod Restart
pub mod Durable

abbrev pub index_event : Map IdempotentResult → Event → Map IdempotentResult
index_event m e =
    if not (is_empty e.idempotency_key)
    then insert (idempotency_index e.aggregate_id e.idempotency_key)
        (record {
          aggregate_id = e.aggregate_id;
          command = e.type;
          request_digest = e.request_digest;
          response = e.response;
        })
        m
    else m

-- The loop that fills `s.idempotency`.
unfoldable pub index_events : Map IdempotentResult → List Event → Map IdempotentResult
index_events m [] = m
index_events m (e ∷ es) = index_events (index_event m e) es

-- The tests of `readSnapshot` on the envelope.
abbrev pub is_fresh : SnapshotFile → Event → Bool
is_fresh f e = f.schema_version == 1 && f.sequence == e.sequence && str_eq f.last_digest e.digest

module _ {R : Type 0} (c : Codec R) where
  -- `readSnapshot`: a file that is missing, unreadable or stale is an error, which the caller takes
  -- as a reason to rebuild.
  unfoldable pub read_snapshot : Option SnapshotFile → Event → Result Snapshot
  read_snapshot none e = err (plain "open snapshot.json")
  read_snapshot (some f) e =
      if is_fresh f e then c.unmarshal_snapshot f.projection else err (plain "快照与事件账本不一致")

  abbrev pub rebuilt_file : Event → SnapshotFile
  rebuilt_file e = record {
    schema_version = 1;
    sequence = e.sequence;
    last_digest = e.digest;
    projection = e.projection;
  }

  abbrev after_write : SnapshotOutcome → Store → SnapshotFile → Result Store
  after_write replaced s f = ok (record s { disk = record s.disk { snapshot_file = some f } })
  after_write kept s f = err (plain "重建投影快照: %w")
  after_write replaced_unconfirmed s f = err (plain "重建投影快照: %w")

  -- From the last event, when the snapshot file does not serve.
  unfoldable pub rebuild : SnapshotOutcome → Disk → Map IdempotentResult → Event → Result Store
  rebuild outcome disk idempotency e = do
    projection ← c.unmarshal_snapshot e.projection
    validate_snapshot projection
    after_write outcome
        (record {
          projection = projection;
          events = disk.ledger;
          idempotency = idempotency;
          disk = disk;
        })
        (rebuilt_file e)

  unfoldable pub load :
      SnapshotOutcome → Disk → Map IdempotentResult → Event → Result Snapshot → Result Store
  load outcome disk idempotency e (err stale) = rebuild outcome disk idempotency e
  load outcome disk idempotency e (ok projection) = do
    validate_snapshot projection
    ok (record {
      projection = projection;
      events = disk.ledger;
      idempotency = idempotency;
      disk = disk;
    })

  unfoldable pub without_events : Disk → Map IdempotentResult → Option SnapshotFile → Result Store
  without_events disk idempotency (some f) = err (plain "存在无账本支撑的快照")
  without_events disk idempotency none = ok (record {
    projection = new_snapshot;
    events = disk.ledger;
    idempotency = idempotency;
    disk = disk;
  })

  unfoldable pub recover : SnapshotOutcome → Disk → Result Store
  recover outcome disk = do
    verify_chain c.marshal_material c.sha256 disk.ledger
    checks ← validate_projections c.unmarshal_snapshot disk.ledger
    let idempotency = index_events [] disk.ledger
    elim (last disk.ledger) [
      | none ↦ without_events disk idempotency disk.snapshot_file
      | some e ↦ load outcome disk idempotency e (read_snapshot disk.snapshot_file e)
    ]
