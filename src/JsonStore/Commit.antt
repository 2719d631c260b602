-- ===== src/JsonStore/Commit.antt =====
-- internal/storage/jsonstore/store.go: `Commit`, `appendEvent` and `writeSnapshot`. The lock makes
-- each call one step. The end of each file operation is a parameter.
use benzhi_project_fe3ad.Prelude.{
  ℕ, ◌+◌, Bool, true, false, not, ◌&&◌, ◌||◌, ◌==◌, Option, none, some, String, List, [], ◌∷◌, ◌++◌,
  str_eq, length, last, is_empty, if◌then◌else◌,
}
use Prim.Native.String.{◌++◌ as str_append}
use benzhi_project_fe3ad.Prelude.Int64.{Int64}
use benzhi_project_fe3ad.Prelude.Maps.{Map, lookup, insert, lookup_by, insert_by}
use benzhi_project_fe3ad.Calibration.Errors.{
  Result, ok, err, ◌>>=◌, ◌>>◌, reject, required, validation, conflict, version_conflict, plain,
}
use benzhi_project_fe3ad.Calibration.Types.{Snapshot, CalibrationBatch, Time}
use benzhi_project_fe3ad.Calibration.Validation.Records.{validate_snapshot}
use benzhi_project_fe3ad.Ledger.Event.{Event, EventHashMaterial}
use benzhi_project_fe3ad.Ledger.Chain.{seal}
use benzhi_project_fe3ad.JsonStore.Model.{
  Codec, SnapshotFile, IdempotentResult, CommitRequest, CommitResult, Disk, Store, AppendOutcome,
  appended, refused, unconfirmed, SnapshotOutcome, replaced, kept, replaced_unconfirmed, Faults,
  clone_snapshot,
}
pub mod Outcomes
pub mod Chained

-- `aggregateID + "\x00" + idempotencyKey`
abbrev pub idempotency_index : String → String → String
idempotency_index aggregate_id key = str_append aggregate_id (str_append "\0" key)

abbrev pub version_of : Option CalibrationBatch → Int64
version_of none = 0
version_of (some b) = b.version

abbrev pub current_version : Snapshot → String → Int64
current_version s aggregate_id = version_of (lookup aggregate_id s.batches)

abbrev pub last_digest : Option Event → String
last_digest none = ""
last_digest (some e) = e.digest

-- What a commit is about to write.
pub record Prepared : Type 0 where
  pub next : Snapshot
  pub event : Event
  pub response : String
  pub version : Int64

-- The answer for a key that was used before.
unfoldable pub replay :
    {R : Type 0} → Store → CommitRequest R → IdempotentResult → Result CommitResult
replay s req old = do
  reject (not (str_eq old.command req.command)) (conflict "idempotencyKey 已用于其他命令")
  reject (not (is_empty old.request_digest) && not (str_eq old.request_digest req.request_digest))
      (conflict "idempotencyKey 已用于不同请求内容")
  ok (record {
    response = old.response;
    replayed = true;
    version = current_version s.projection req.aggregate_id;
  })

-- The event before `Seal`.
abbrev pub unsealed :
    {R : Type 0} → Time → Store → CommitRequest R → Int64 → (projection response : String) → Event
unsealed now s req version projection response = record {
  material = record {
    schema_version = 1;
    sequence = length s.events + 1;
    aggregate_id = req.aggregate_id;
    aggregate_version = version;
    type = req.command;
    actor = req.actor;
    at = now;
    idempotency_key = req.idempotency_key;
    request_digest = req.request_digest;
    previous_digest = last_digest (last s.events);
    projection = projection;
    response = response;
  };
  digest = "";
}

module _ {R : Type 0} (c : Codec R) where
  -- From the test of the version to the sealed event; nothing is written yet.
  unfoldable pub prepare : Time → Store → CommitRequest R → Result Prepared
  prepare now s req = do
    let current = current_version s.projection req.aggregate_id
    reject (not (current == req.expected_version)) (version_conflict req.expected_version current)
    copy ← clone_snapshot c s.projection
    (next, answer) ← req.mutate copy
    validate_snapshot next
    batch ← required (lookup req.aggregate_id next.batches) (validation "提交后批次不存在")
    response ← c.marshal_response answer
    projection ← c.marshal_snapshot next
    event ← seal c.marshal_material c.sha256 (unsealed now s req batch.version projection response)
    ok (record { next = next; event = event; response = response; version = batch.version })

  abbrev pub append_line : Disk → Event → Disk
  append_line d event = record d { ledger = d.ledger ++ event ∷ [] }

  abbrev pub write_snapshot : Disk → Prepared → Disk
  write_snapshot d p = record d {
    snapshot_file = some (record {
      schema_version = 1;
      sequence = p.event.sequence;
      last_digest = p.event.digest;
      projection = p.event.projection;
    });
  }

  abbrev pub entry_of : CommitRequest R → Prepared → IdempotentResult
  entry_of req p = record {
    aggregate_id = req.aggregate_id;
    command = req.command;
    request_digest = req.request_digest;
    response = p.response;
  }

  -- The assignments to `s.projection`, `s.events` and `s.idempotency`, the line being written.
  abbrev pub adopt : Store → CommitRequest R → Prepared → Store
  adopt s req p = record {
    projection = p.next;
    events = s.events ++ p.event ∷ [];
    idempotency =
        insert (idempotency_index req.aggregate_id req.idempotency_key) (entry_of req p)
          s.idempotency;
    disk = append_line s.disk p.event;
  }

  unfoldable pub finish : SnapshotOutcome → Prepared → Store → Store × Result CommitResult
  finish replaced p s = (
    record s { disk = write_snapshot s.disk p },
    ok (record { response = p.response; replayed = false; version = p.version }),
  )
  finish kept p s = (s, err (plain "原子替换快照: %w"))
  finish replaced_unconfirmed p s =
      (record s { disk = write_snapshot s.disk p }, err (plain "sync"))

  unfoldable pub persist : Faults → Store → CommitRequest R → Prepared → Store × Result CommitResult
  persist faults s req p = elim faults.append [
    | refused ↦ (s, err (plain "追加事件: %w"))
    | unconfirmed ↦ (record s { disk = append_line s.disk p.event }, err (plain "同步事件账本: %w"))
    | appended ↦ finish faults.snapshot p (adopt s req p)
  ]

  abbrev run_prepared :
      Faults → Store → CommitRequest R → Result Prepared → Store × Result CommitResult
  run_prepared faults s req (err e) = (s, err e)
  run_prepared faults s req (ok p) = persist faults s req p

  -- `CommitRequest`'s own checks.
  abbrev pub check_request : CommitRequest R → Result (Unit {0})
  check_request req = do
    reject (is_empty req.aggregate_id || is_empty req.actor || is_empty req.command)
        (validation "提交缺少批次、操作者或命令")
    reject (is_empty req.idempotency_key) (validation "idempotencyKey 不能为空")

  abbrev after_check :
      Faults → Time → Store → CommitRequest R → Result (Unit {0}) → Store × Result CommitResult
  after_check faults now s req (err e) = (s, err e)
  after_check faults now s req (ok u) =
      elim (lookup (idempotency_index req.aggregate_id req.idempotency_key) s.idempotency) [
        | some old ↦ (s, replay s req old)
        | none ↦ run_prepared faults s req (prepare now s req)
      ]

  unfoldable pub commit : Faults → Time → Store → CommitRequest R → Store × Result CommitResult
  commit faults now s req = after_check faults now s req (check_request req)
