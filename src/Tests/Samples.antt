-- ===== src/Tests/Samples.antt =====
-- A batch with one sensor, at the stages that the tests start from, and stand-ins for JSON, SHA-256
-- and the ids.
use benzhi_project_fe3ad.Prelude.{
  ℕ, ◌*◌, Bool, false, none, some, String, [], ◌∷◌, str_eq, ◌==◌, length, if◌then◌else◌,
}
use Prim.Native.String.{◌++◌ as str_append}
use benzhi_project_fe3ad.Float64.{Float64, finite, one, zero_float}
use benzhi_project_fe3ad.Calibration.Errors.{Result, ok, err, plain}
use benzhi_project_fe3ad.Calibration.Types.{
  Snapshot, CalibrationBatch, SensorRevision, CalibrationProfile, MeasurementSet, ReviewFinding,
  BatchStatus, draft, failed, frozen, open_finding, ReleaseCredential,
}
use benzhi_project_fe3ad.Calibration.Snapshot.{new_snapshot}
use benzhi_project_fe3ad.Calibration.Credential.{issue_credential}
use benzhi_project_fe3ad.Workflow.Commands.{CommandMeta}
use benzhi_project_fe3ad.Workflow.Answers.{Library}
use benzhi_project_fe3ad.Workflow.Service.{Host}
use benzhi_project_fe3ad.JsonStore.Model.{Codec, CommitRequest, Store}

-- What a run returns, for one that succeeds.
abbrev pub value {ℓ} : {A : Type ℓ} → A → Result A → A
value d (ok x) = x
value d (err e) = d

-- n degrees.
abbrev pub degrees : ℕ → Float64
degrees n = finite false (n * one)

abbrev pub batch_at : BatchStatus → CalibrationBatch
batch_at status = record {
  id = "b1";
  station_code = "st";
  title = "spring";
  status = status;
  sensor_ids = "e1" ∷ [];
  profile_id = "p1";
  version = 5;
  created_by = "ann";
  created_at = 100;
  frozen_at = none;
  sampled_by = "bob" ∷ [];
  reviewed_by = "";
}

abbrev pub sensor : SensorRevision
sensor = record {
  id = "e1";
  batch_id = "b1";
  sensor_code = "T-1";
  revision = 1;
  metric = "temperature";
  unit = "C";
  range_min = degrees 0;
  range_max = degrees 50;
  recalibration_note = "";
  created_at = 101;
}

abbrev pub profile : CalibrationProfile
profile = record {
  id = "p1";
  batch_id = "b1";
  points = degrees 10 ∷ degrees 20 ∷ [];
  repetitions_per_point = 2;
  absolute_tolerance = degrees 1;
  relative_tolerance = degrees 1;
  repeatability_limit = degrees 1;
  locked_at = some 102;
}

abbrev pub measurement : MeasurementSet
measurement = record {
  id = "m1";
  batch_id = "b1";
  sensor_revision_id = "e1";
  reference_point = degrees 10;
  readings = degrees 13 ∷ degrees 13 ∷ [];
  mean = degrees 13;
  absolute_error = degrees 3;
  relative_error = zero_float;
  spread = zero_float;
  captured_by = "bob";
  captured_at = 103;
}

abbrev pub finding : ReviewFinding
finding = record {
  id = "f1";
  batch_id = "b1";
  sensor_revision_id = "e1";
  point = degrees 10;
  kind = "absolute_error";
  severity = "critical";
  message = "3 > 1";
  origin = "automatic";
  created_by = "";
  status = open_finding;
  resolved_by_revision = "";
  reviewed_at = none;
}

-- One batch of that status with its sensor and its profile.
abbrev pub snapshot_at : BatchStatus → Snapshot
snapshot_at status = record new_snapshot {
  batches = ("b1", batch_at status) ∷ [];
  sensors = ("e1", sensor) ∷ [];
  profiles = ("p1", profile) ∷ [];
}

abbrev pub failed_snapshot : Snapshot
failed_snapshot = record (snapshot_at failed) {
  measurements = ("m1", measurement) ∷ [];
  findings = ("f1", finding) ∷ [];
}

abbrev pub library : Library
library = record {
  format_float = λ x. "float";
  format_6g = λ x. "float";
  marshal_frozen = λ m. ok "frozen";
  sha256 = λ t. str_append "#" t;
  fresh = λ prefix k. str_append prefix (if k == 0 then "_0" else "_n");
}

abbrev pub meta : CommandMeta
meta = record { actor = "ann"; expected_version = 5; idempotency_key = "k1" }

abbrev is_blank_snapshot : Snapshot → Bool
is_blank_snapshot s = length s.batches == 0

-- A batch that has just been created.
abbrev pub created : Snapshot
created = record new_snapshot {
  batches =
      (
        "b1",
        record (batch_at draft) { sensor_ids = []; profile_id = ""; version = 1; sampled_by = [] },
      )
      ∷ [];
}

-- JSON that tells an empty snapshot from that one.
abbrev pub codec : Codec (Unit {0})
codec = record {
  marshal_snapshot = λ s. ok (if is_blank_snapshot s then "empty" else "created");
  unmarshal_snapshot = λ t. ok (if str_eq t "empty" then new_snapshot else created);
  marshal_material = λ m. ok m.previous_digest;
  marshal_response = λ r. ok "answer";
  sha256 = λ t. str_append "#" t;
}

abbrev pub empty_store : Store
empty_store = record {
  projection = new_snapshot;
  events = [];
  idempotency = [];
  disk = record { ledger = []; snapshot_file = none };
}

abbrev pub creation : CommitRequest (Unit {0})
creation = record {
  aggregate_id = "b1";
  expected_version = 0;
  idempotency_key = "k1";
  command = "batch.created";
  request_digest = "d1";
  actor = "ann";
  mutate = λ s. ok (created, tt);
}

-- Another command on the same batch; it leaves the batch as it is.
abbrev pub second : String → CommitRequest (Unit {0})
second key = record creation {
  idempotency_key = key;
  command = "batch.touched";
  expected_version = 0;
}

abbrev pub host : Host
host = record {
  library = library;
  codec = record {
    marshal_snapshot = codec.marshal_snapshot;
    unmarshal_snapshot = codec.unmarshal_snapshot;
    marshal_material = codec.marshal_material;
    marshal_response = λ r. ok "answer";
    sha256 = codec.sha256;
  };
  marshal_command = λ m c. ok "print";
  unmarshal_response = λ t. err (plain "no answer");
  stable_batch_id = λ actor key. "b1";
}

abbrev pub credential : ReleaseCredential
credential = record {
  id = "c1";
  batch_id = "b1";
  batch_version = 0;
  sensor_revision_ids = "e1" ∷ [];
  content_digest = "#frozen";
  decision = "";
  issued_by = "ann";
  issued_at = 0;
}

abbrev pub released_snapshot : Snapshot
released_snapshot =
    value (snapshot_at frozen) (issue_credential (snapshot_at frozen) credential 400)
