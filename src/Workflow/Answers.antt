-- ===== src/Workflow/Answers.antt =====
-- internal/application/workflow: what the commands draw from outside, and the answer of each. `fresh
-- prefix k` is the k-th `newID(prefix)` of a call, and one `now` stands for every `now()` of it.
use benzhi_project_fe3ad.Prelude.{ℕ, false, String, []}
use benzhi_project_fe3ad.Float64.{Float64}
use benzhi_project_fe3ad.Calibration.Errors.{Result, ok, ◌>>=◌}
use benzhi_project_fe3ad.Calibration.Types.{Snapshot, BatchStatus}
use benzhi_project_fe3ad.Calibration.Snapshot.{find_batch}
use benzhi_project_fe3ad.Ledger.Credential.{FrozenMaterial}
use benzhi_project_fe3ad.Workflow.Commands.{Response}

-- Go's formatting of floats, JSON of the frozen material, SHA-256, and the ids drawn by the service.
pub record Library : Type 0 where
  pub format_float : Float64 → String
  pub format_6g : Float64 → String
  pub marshal_frozen : FrozenMaterial → Result String
  pub sha256 : String → String
  pub fresh : String → ℕ → String

-- The answer before the mutation fills it in; an enclosing batch has no status yet.
abbrev pub blank_response : String → String → Response
blank_response batch_id id = record {
  batch_id = batch_id;
  id = id;
  sensor_revision_id = "";
  measurements = [];
  version = 0;
  status = BatchStatus.other "";
  replayed = false;
  pending_retest_points = 0;
  finding_ids = [];
  resolved_finding_ids = [];
}

-- `response.Version, response.Status = batch.Version, string(batch.Status)`, with the batch as it now
-- stands in the snapshot.
abbrev pub answer : Snapshot → String → Response → Result (Snapshot × Response)
answer s batch_id r = do
  b ← find_batch s batch_id
  ok (s, record r { version = b.version; status = b.status })
