-- ===== src/JsonStore/Model.antt =====
-- internal/storage/jsonstore/model.go and the state of store.go: what the process holds in memory,
-- and the two files. JSON and SHA-256 are a record of functions.
use benzhi_project_fe3ad.Prelude.{Bool, Option, String, List}
use benzhi_project_fe3ad.Prelude.Int64.{Int64}
use benzhi_project_fe3ad.Prelude.Maps.{Map}
use benzhi_project_fe3ad.Calibration.Errors.{Result, ◌>>=◌}
use benzhi_project_fe3ad.Calibration.Types.{Snapshot}
use benzhi_project_fe3ad.Ledger.Event.{Event, EventHashMaterial}

-- `encoding/json` on the types that the store encodes, and `crypto/sha256` in hexadecimal. A response
-- of type `R` is encoded as it is after the mutation.
pub record Codec (R : Type 0) : Type 0 where
  pub marshal_snapshot : Snapshot → Result String
  pub unmarshal_snapshot : String → Result Snapshot
  pub marshal_material : EventHashMaterial → Result String
  pub marshal_response : R → Result String
  pub sha256 : String → String

-- The snapshot file; its projection is JSON.
pub record SnapshotFile : Type 0 where
  pub schema_version : Int64
  pub sequence : Int64
  pub last_digest : String
  pub projection : String

pub record IdempotentResult : Type 0 where
  pub aggregate_id : String
  pub command : String
  pub request_digest : String
  pub response : String

-- `Mutate` returns the new snapshot with the response, which the source fills in through a pointer.
pub record CommitRequest (R : Type 0) : Type 0 where
  pub aggregate_id : String
  pub expected_version : Int64
  pub idempotency_key : String
  pub command : String
  pub request_digest : String
  pub actor : String
  pub mutate : Snapshot → Result (Snapshot × R)

pub record CommitResult : Type 0 where
  pub response : String
  pub replayed : Bool
  pub version : Int64

-- `events.jsonl`, line by line, and `snapshot.json`.
pub record Disk : Type 0 where
  pub ledger : List Event
  pub snapshot_file : Option SnapshotFile

pub record Store : Type 0 where
  pub projection : Snapshot
  pub events : List Event
  pub idempotency : Map IdempotentResult
  pub disk : Disk

-- How `appendEvent` ends: with the line written; with an error and no line; or with an error of
-- `Sync` or `Close` after the line was written.
pub data AppendOutcome : Type 0 where
  appended refused unconfirmed : AppendOutcome

-- How `writeSnapshot` ends: with the new file; with an error and the old file; or with an error of
-- the directory's `Sync` after the rename.
pub data SnapshotOutcome : Type 0 where
  replaced kept replaced_unconfirmed : SnapshotOutcome

pub record Faults : Type 0 where
  pub append : AppendOutcome
  pub snapshot : SnapshotOutcome

abbrev pub no_faults : Faults
no_faults = record { append = appended; snapshot = replaced }

-- `cloneSnapshot`
unfoldable pub clone_snapshot : {R : Type 0} → Codec R → Snapshot → Result Snapshot
clone_snapshot c s = do text ← c.marshal_snapshot s; c.unmarshal_snapshot text
