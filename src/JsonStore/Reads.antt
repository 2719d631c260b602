-- ===== src/JsonStore/Reads.antt =====
-- internal/storage/jsonstore/store.go and verify.go: the queries of the store.
use benzhi_project_fe3ad.Prelude.{
  ℕ, Bool, true, not, ◌||◌, ◌==◌, ltb, String, List, str_eq, str_lt, length, last, select, sort,
  is_empty, if◌then◌else◌,
}
use benzhi_project_fe3ad.Prelude.Maps.{Map, values}
use benzhi_project_fe3ad.Calibration.Errors.{Result, ok, ◌>>=◌, ◌>>◌, reject, plain}
use benzhi_project_fe3ad.Calibration.Types.{Snapshot, CalibrationBatch}
use benzhi_project_fe3ad.Ledger.Event.{Event}
use benzhi_project_fe3ad.Ledger.Chain.{verify_chain}
use benzhi_project_fe3ad.Ledger.Projection.{validate_projections}
use benzhi_project_fe3ad.Ledger.Inspection.{inspect}
use benzhi_project_fe3ad.JsonStore.Model.{Codec, Store, clone_snapshot}
use benzhi_project_fe3ad.JsonStore.Commit.{last_digest}

-- `Events(aggregateID)`
unfoldable pub events_of : Store → String → List Event
events_of s aggregate_id =
    select (λ e. is_empty aggregate_id || str_eq e.aggregate_id aggregate_id) s.events

-- Newest first, then by id.
abbrev pub newer_batch : CalibrationBatch → CalibrationBatch → Bool
newer_batch a b =
    if a.created_at == b.created_at then str_lt a.id b.id else ltb b.created_at a.created_at

pub record IntegrityReport : Type 0 where
  pub event_count : ℕ
  pub last_digest : String
  pub aggregate_count : ℕ
  pub events_by_type : Map ℕ
  pub valid : Bool

module _ {R : Type 0} (c : Codec R) where
  unfoldable pub batch_read_snapshot : Store → Result (Snapshot × List CalibrationBatch)
  batch_read_snapshot s = do
    projection ← clone_snapshot c s.projection
    ok (projection, sort newer_batch (values projection.batches))

  -- `ReadState`: the events are those of the file, which have to be those in memory.
  unfoldable pub read_state : Store → Result (Snapshot × List Event)
  read_state s = do
    let events = s.disk.ledger
    reject (not (length events == length s.events)) (plain "磁盘账本事件数量与当前投影位置不一致")
    reject (not (str_eq (last_digest (last events)) (last_digest (last s.events))))
        (plain "磁盘账本摘要与当前投影位置不一致")
    projection ← clone_snapshot c s.projection
    ok (projection, events)

  unfoldable pub verify_store : Store → Result IntegrityReport
  verify_store s = do
    verify_chain c.marshal_material c.sha256 s.events
    checks ← validate_projections c.unmarshal_snapshot s.events
    let inspection = inspect s.events
    ok (record {
      event_count = length s.events;
      last_digest = last_digest (last s.events);
      aggregate_count = inspection.aggregate_count;
      events_by_type = inspection.events_by_type;
      valid = true;
    })
