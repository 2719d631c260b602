-- ===== src/Ledger/Credential.antt =====
-- internal/audit/ledger/credential.go: the digest of a frozen batch, and the check of a credential
-- against it. JSON encoding of the material and SHA-256 in hexadecimal are parameters.
use benzhi_project_fe3ad.Prelude.{
  ℕ, Bool, true, false, not, ◌&&◌, ◌||◌, ◌==◌, Option, none, some, String, List, [], ◌∷◌, str_eq,
  str_lt, map, select, sort, length, if◌then◌else◌,
}
use benzhi_project_fe3ad.Prelude.Int64.{Int64, slt, inc}
use benzhi_project_fe3ad.Prelude.Maps.{lookup, values, lookup_by}
use benzhi_project_fe3ad.Calibration.Errors.{Result, ok, err, ◌>>=◌, ◌>>◌, reject, conflict}
use benzhi_project_fe3ad.Calibration.Types.{
  Snapshot, CalibrationBatch, SensorRevision, CalibrationProfile, MeasurementSet, ReviewFinding,
  RecalibrationTask, ReleaseCredential, ReviewRecord, frozen, released, status_eq,
}
use benzhi_project_fe3ad.Calibration.Snapshot.{find_batch, current_sensors}
pub mod Issued

pub record FrozenMaterial : Type 0 where
  pub batch : CalibrationBatch
  pub sensors : List SensorRevision
  pub profile : Option CalibrationProfile
  pub measurements : List MeasurementSet
  pub findings : List ReviewFinding
  pub recalibration_tasks : List RecalibrationTask
  pub reviews : List ReviewRecord

-- The material of the batch, written with the status and the version that it was frozen with.
unfoldable pub frozen_material : Snapshot → String → CalibrationBatch → Int64 → FrozenMaterial
unfolding current_sensors sort lookup_by
frozen_material s batch_id b version = record {
  batch = record b { status = frozen; version = if slt 0 version then version else b.version };
  sensors = sort (λ a c. str_lt a.id c.id) (current_sensors s batch_id);
  profile = lookup b.profile_id s.profiles;
  measurements =
      sort (λ a c. str_lt a.id c.id)
        (select (λ m. str_eq m.batch_id batch_id) (values s.measurements));
  findings =
      sort (λ a c. str_lt a.id c.id) (select (λ f. str_eq f.batch_id batch_id) (values s.findings));
  recalibration_tasks =
      sort (λ a c. str_lt a.id c.id)
        (select (λ t. str_eq t.batch_id batch_id) (values s.recalibration_tasks));
  reviews = select (λ r. str_eq r.batch_id batch_id) s.reviews;
}

-- `len(ids) != len(credential.SensorRevisionIDs)` and the loop over both.
unfoldable pub same_ids : List String → List String → Bool
same_ids [] [] = true
same_ids (a ∷ as') (b ∷ bs) = str_eq a b && same_ids as' bs
same_ids _ _ = false

module _ (marshal : FrozenMaterial → Result String) (sha256 : String → String) where
  unfoldable pub frozen_digest_at_version :
      Snapshot → String → Int64 → Result (String × List String)
  unfolding find_batch frozen_material
  frozen_digest_at_version s batch_id version = do
    b ← find_batch s batch_id
    reject (not (status_eq b.status frozen) && not (status_eq b.status released))
        (conflict "批次尚未冻结")
    let material = frozen_material s batch_id b version
    text ← marshal material
    ok (sha256 text, map (λ e. e.id) material.sensors)

  unfoldable pub frozen_digest : Snapshot → String → Result (String × List String)
  unfolding frozen_digest_at_version
  frozen_digest s batch_id = frozen_digest_at_version s batch_id 0

  unfoldable pub verify_credential : Snapshot → ReleaseCredential → Result (Unit {0})
  unfolding find_batch frozen_digest_at_version same_ids
  verify_credential s credential = do
    batch ← find_batch s credential.batch_id
    reject (status_eq batch.status released && not (batch.version == inc credential.batch_version))
        (conflict "凭据批次版本与已放行投影不一致")
    (digest, ids) ← frozen_digest_at_version s credential.batch_id credential.batch_version
    reject (not (str_eq digest credential.content_digest)) (conflict "凭据摘要与冻结批次内容不一致")
    reject (not (same_ids ids credential.sensor_revision_ids)) (conflict "凭据传感器修订集合不一致")
