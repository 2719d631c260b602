-- ===== src/Ledger/Credential/Issued.antt =====
-- The credential that `IssueCredential` stores, before `VerifyCredential` of
-- internal/audit/ledger/credential.go.
use benzhi_project_fe3ad.Prelude.{◌≡◌, refl, true, some, String, List, [], ◌∷◌, eq_refl, arith}
use benzhi_project_fe3ad.Prelude.Int64.{slt, inc}
use benzhi_project_fe3ad.Prelude.Maps.{lookup, insert}
use benzhi_project_fe3ad.Calibration.Errors.{Result, ok, Result-cases}
use benzhi_project_fe3ad.Calibration.Types.{
  Snapshot, CalibrationBatch, ReleaseCredential, Time, released, frozen,
}
use benzhi_project_fe3ad.Calibration.Snapshot.{find_batch, put_batch}
use benzhi_project_fe3ad.Calibration.Credential.{issue_credential}
use benzhi_project_fe3ad.Calibration.Effects.{lookup-insert_self}
use benzhi_project_fe3ad.Ledger.Credential.{
  FrozenMaterial, frozen_material, same_ids, frozen_digest_at_version, frozen_digest,
  verify_credential,
}

same_ids_refl : (ids : List String) → same_ids ids ids ≡ true
unfolding same_ids
same_ids_refl [] = refl
same_ids_refl (i ∷ is) = ground (arith, eq_refl i, same_ids_refl is)

-- What `IssueCredential` adds to a credential, and to the batch.
abbrev pub issued : CalibrationBatch → Time → ReleaseCredential → ReleaseCredential
issued b now c = record c {
  batch_version = b.version;
  decision = "approved_for_deployment";
  issued_at = now;
}

abbrev pub released_batch : CalibrationBatch → CalibrationBatch
released_batch b = record b { status = released; version = inc b.version }

pub issue_credential-eq-ok :
    (s t : Snapshot) (c : ReleaseCredential) (now : Time) (b : CalibrationBatch)
    → find_batch s c.batch_id ≡ ok b
    → issue_credential s c now ≡ ok t
    → (b.status ≡ frozen)
      × (t
          ≡ put_batch
              (record s { credentials = insert c.id (issued b now c) s.credentials })
              c.batch_id
              (released_batch b))
unfolding issue_credential
issue_credential-eq-ok s t c now b found h = ground arith

pub find_batch-put_batch :
    (s : Snapshot) (id : String) (b : CalibrationBatch) → find_batch (put_batch s id b) id ≡ ok b
unfolding find_batch
find_batch-put_batch s id b = ground (arith, lookup-insert_self id b s.batches)

frozen_material-released :
    (s : Snapshot) (id : String) (c : ReleaseCredential) (now : Time) (b : CalibrationBatch)
    → slt 0 b.version ≡ true
    → frozen_material
        (put_batch
          (record s { credentials = insert c.id (issued b now c) s.credentials })
          id
          (released_batch b))
        id
        (released_batch b)
        b.version
      ≡ frozen_material s id b 0
unfolding frozen_material
frozen_material-released s id c now b positive = ground arith

module _ (marshal : FrozenMaterial → Result String) (sha256 : String → String) where
  -- When a credential over the frozen digest and its sensor revisions is issued for a batch with a
  -- positive version, it is stored with the version, the decision and the time of the issue, and
  -- verifies against the released batch.
  pub issue-verify :
      (s t : Snapshot) (c : ReleaseCredential) (now : Time) (b : CalibrationBatch)
      → find_batch s c.batch_id ≡ ok b
      → slt 0 b.version ≡ true
      → frozen_digest marshal sha256 s c.batch_id ≡ ok (c.content_digest, c.sensor_revision_ids)
      → issue_credential s c now ≡ ok t
      → (lookup c.id t.credentials ≡ some (issued b now c))
        × (verify_credential marshal sha256 t (issued b now c) ≡ ok tt)
  unfolding verify_credential frozen_digest frozen_digest_at_version
  issue-verify s t c now b found positive digest h =
      let (was_frozen, e) = issue_credential-eq-ok s t c now b found h in
      rw e (
        lookup-insert_self c.id (issued b now c) s.credentials,
        ground (
          arith,
          find_batch-put_batch
              (record s { credentials = insert c.id (issued b now c) s.credentials }) c.batch_id
              (released_batch b),
          frozen_material-released s c.batch_id c now b positive,
          same_ids_refl c.sensor_revision_ids,
          eq_refl c.content_digest,
          Result-cases (marshal (frozen_material s c.batch_id b 0)),
        ),
      )
