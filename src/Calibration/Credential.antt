-- ===== src/Calibration/Credential.antt =====
-- internal/domain/calibration/credential.go: issuing the credential of a frozen batch.
use benzhi_project_fe3ad.Prelude.{Bool, true, false, not, none, some, String}
use benzhi_project_fe3ad.Prelude.Maps.{insert, insert_by}
use benzhi_project_fe3ad.Calibration.Errors.{Result, ok, ◌>>=◌, ◌>>◌, reject, validation, conflict}
use benzhi_project_fe3ad.Calibration.Types.{
  Snapshot, ReleaseCredential, Time, frozen, released, status_eq,
}
use benzhi_project_fe3ad.Calibration.Lifecycle.{move_to}
use benzhi_project_fe3ad.Calibration.Snapshot.{
  find_batch, put_batch, batch_findings, credential_for_batch,
}
use benzhi_project_fe3ad.Calibration.Review.{has_open}

abbrev pub has_credential : Snapshot → (batch_id : String) → Bool
has_credential s batch_id = elim (credential_for_batch s batch_id) [ none ↦ false | some _ ↦ true ]

unfoldable pub issue_credential : Snapshot → ReleaseCredential → Time → Result Snapshot
unfolding find_batch batch_findings credential_for_batch insert_by move_to
issue_credential s credential now = do
  b ← find_batch s credential.batch_id
  reject (not (status_eq b.status frozen)) (conflict "只有已冻结批次可以签发凭据")
  reject (has_credential s b.id) (conflict "该批次已签发凭据")
  reject (has_open s b.id) (validation "存在未闭环问题")
  let issued : ReleaseCredential = record credential {
    batch_version = b.version;
    decision = "approved_for_deployment";
    issued_at = now;
  }
  b' ← move_to b released
  ok (
      put_batch (record s { credentials = insert credential.id issued s.credentials })
        credential.batch_id b')
