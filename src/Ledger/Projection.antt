-- ===== src/Ledger/Projection.antt =====
-- internal/audit/ledger/projection.go: the projection that every event carries. `json.Unmarshal`
-- into a new snapshot is a parameter. The list of checks is returned only when all of them pass.
use benzhi_project_fe3ad.Prelude.{
  Bool, true, false, not, ◌&&◌, ◌||◌, ◌==◌, Option, none, some, String, List, [], ◌∷◌, is_empty,
}
use benzhi_project_fe3ad.Prelude.Int64.{Int64, slt}
use benzhi_project_fe3ad.Prelude.Maps.{Map, lookup, insert}
use benzhi_project_fe3ad.Calibration.Errors.{Result, ok, ◌>>=◌, ◌>>◌, reject, required, plain}
use benzhi_project_fe3ad.Calibration.Types.{Snapshot, is_zero_time}
use benzhi_project_fe3ad.Calibration.Validation.Records.{validate_snapshot}
use benzhi_project_fe3ad.Ledger.Event.{Event}
pub mod Versions

pub record ProjectionCheck : Type 0 where
  pub sequence : Int64
  pub aggregate_id : String
  pub aggregate_version : Int64
  pub valid : Bool

-- `previous > 0 && batch.Version <= previous`, on `versions[event.AggregateID]`.
abbrev pub not_increasing : Option Int64 → Int64 → Bool
not_increasing none version = false
not_increasing (some previous) version = slt 0 previous && not (slt previous version)

module _ (unmarshal : String → Result Snapshot) where
  -- The checks of one event, which give the version of its batch.
  unfoldable pub check_projection : Map Int64 → Event → Result Int64
  check_projection versions event = do
    reject (is_empty event.projection) (plain "审计事件 %d 缺少投影")
    projection ← unmarshal event.projection
    validate_snapshot projection
    batch ← required (lookup event.aggregate_id projection.batches) (plain "审计事件 %d 的聚合不存在于投影")
    reject (not (batch.version == event.aggregate_version)) (plain "审计事件 %d 的聚合版本与投影不一致")
    reject (not_increasing (lookup event.aggregate_id versions) batch.version)
        (plain "审计事件 %d 的聚合版本未递增")
    reject (is_empty event.actor || is_empty event.type || is_zero_time event.at)
        (plain "审计事件 %d 元数据不完整")
    ok batch.version

  unfoldable pub validate_from : Map Int64 → List Event → Result (List ProjectionCheck)
  validate_from versions [] = ok []
  validate_from versions (event ∷ events) = do
    version ← check_projection versions event
    rest ← validate_from (insert event.aggregate_id version versions) events
    ok (
        record {
          sequence = event.sequence;
          aggregate_id = event.aggregate_id;
          aggregate_version = event.aggregate_version;
          valid = true;
        }
        ∷ rest)

  unfoldable pub validate_projections : List Event → Result (List ProjectionCheck)
  validate_projections events = validate_from [] events
