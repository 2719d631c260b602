-- ===== src/Ledger/Event.antt =====
-- internal/audit/ledger/event.go. The raw JSON of an event is a text, empty where it is missing.
use benzhi_project_fe3ad.Prelude.{String}
use benzhi_project_fe3ad.Prelude.Int64.{Int64}
use benzhi_project_fe3ad.Calibration.Types.{Time}

-- What the digest of an event covers: all of its fields but the digest.
pub record EventHashMaterial : Type 0 where
  pub schema_version : Int64
  pub sequence : Int64
  pub aggregate_id : String
  pub aggregate_version : Int64
  pub type : String
  pub actor : String
  pub at : Time
  pub idempotency_key : String
  pub request_digest : String
  pub previous_digest : String
  pub projection : String
  pub response : String

-- The fields of the source in two parts: those that are hashed, and the digest.
pub record Event : Type 0 where
  pub material : EventHashMaterial
  pub open material use *
  pub digest : String
