-- ===== src/Workflow/Queries/Verdicts.antt =====
-- What `VerifyCredential` of queries.go answers.
use benzhi_project_fe3ad.Prelude.{
  ◌≡◌, ◌⊎◌, refl, inl, inr, true, false, some, String, List, str_eq, eq_iff, eq_refl, Bool-cases,
  Option-cases, arith, length, sort, str_lt,
}
use benzhi_project_fe3ad.Prelude.Int64.{slt}
use benzhi_project_fe3ad.Prelude.Maps.{lookup, insert}
use benzhi_project_fe3ad.Calibration.Errors.{Result, ok, Result-cases}
use benzhi_project_fe3ad.Calibration.Types.{Time, Snapshot, CalibrationBatch, ReleaseCredential}
use benzhi_project_fe3ad.Calibration.Snapshot.{find_batch}
use benzhi_project_fe3ad.Calibration.Credential.{issue_credential}
use benzhi_project_fe3ad.Ledger.Event.{Event}
use benzhi_project_fe3ad.Ledger.Chain.{verify_chain}
use benzhi_project_fe3ad.Ledger.Projection.{validate_projections, ProjectionCheck}
use benzhi_project_fe3ad.Ledger.Credential.{FrozenMaterial, verify_credential, frozen_digest}
use benzhi_project_fe3ad.Ledger.Credential.Issued.{
  issue-verify, issued, released_batch, issue_credential-eq-ok, find_batch-put_batch,
}
use benzhi_project_fe3ad.JsonStore.Model.{Codec, Store}
use benzhi_project_fe3ad.JsonStore.Reads.{read_state}
use benzhi_project_fe3ad.Workflow.Commands.{Response}
use benzhi_project_fe3ad.Workflow.Queries.{
  CredentialVerification, CredentialDevice, judge_credential, devices_of, verify_in,
  verify_credential_of, blank_verification, summary_of,
}

-- After the issue the batch is there, as released.
released_exists :
    (s t : Snapshot) (cr : ReleaseCredential) (now : Time) (b : CalibrationBatch)
    → find_batch s cr.batch_id ≡ ok b
    → issue_credential s cr now ≡ ok t
    → find_batch t cr.batch_id ≡ ok (released_batch b)
released_exists s t cr now b found h =
    let (was_frozen, e) = issue_credential-eq-ok s t cr now b found h in
    rw e (
      find_batch-put_batch (record s { credentials = insert cr.id (issued b now cr) s.credentials })
        cr.batch_id (released_batch b))

module _ (c : Codec Response) (marshal : FrozenMaterial → Result String)
    (sha256 : String → String) where
  -- Either the credential is valid and there is no failure, or it is not and there is one.
  abbrev pub IsVerdict : CredentialVerification → Type 0
  IsVerdict v =
      ((v.valid ≡ true) × (length v.failures ≡ 0)) ⊎ ((v.valid ≡ false) × (length v.failures ≡ 1))

  -- What a valid credential has: it is stored under its id for its batch, it verifies against the
  -- projection, and its digest is the one that was handed in.
  pub record IsGenuine (s : Snapshot) (batch_id credential_id provided : String) : Type 0 where
    pub credential : ReleaseCredential
    pub stored : lookup credential_id s.credentials ≡ some credential
    pub batch : credential.batch_id ≡ batch_id
    pub verified : verify_credential marshal sha256 s credential ≡ ok tt
    pub digest : credential.content_digest ≡ provided

  judge_credential-IsVerdict :
      (s : Snapshot) (cr : ReleaseCredential) (provided : String) (v w : CredentialVerification)
      → v.valid ≡ false
      → length v.failures ≡ 0
      → judge_credential marshal sha256 s cr provided v ≡ ok w
      → IsVerdict w
        × (w.valid ≡ true
            → (verify_credential marshal sha256 s cr ≡ ok tt) × (cr.content_digest ≡ provided))
  unfolding judge_credential
  judge_credential-IsVerdict s cr provided v w fresh none_yet h =
      elim (Result-cases (verify_credential marshal sha256 s cr)) [
        | inr (e, q) ↦ ground arith
        | inl (u, q) ↦ elim (Bool-cases (str_eq cr.content_digest provided)) [
          | inr differ ↦ ground arith
          | inl same ↦ elim (Result-cases (devices_of s cr.sensor_revision_ids)) [
            | inr (e, q') ↦ ground arith
            | inl (ds, q') ↦ ground (arith, eq_iff cr.content_digest provided)
          ]
        ]
      ]

  verify_in-IsVerdict :
      (s : Snapshot) (now : Time) (batch_id credential_id provided : String)
      (v : CredentialVerification)
      → verify_in c marshal sha256 s (blank_verification now batch_id credential_id) provided ≡ ok v
      → IsVerdict v × (v.valid ≡ true → IsGenuine s batch_id credential_id provided)
  unfolding verify_in
  verify_in-IsVerdict s now batch_id credential_id provided v h =
      let blank = blank_verification now batch_id credential_id in
      elim (Result-cases (find_batch s batch_id)) [
        | inr (e, q) ↦ ground arith
        | inl (b, q) ↦ elim (Option-cases (lookup credential_id s.credentials)) [
          | inl missing ↦ ground arith
          | inr (cr, found) ↦ elim (Bool-cases (str_eq cr.batch_id batch_id)) [
            | inr other ↦ ground arith
            | inl same ↦
                let (verdict, genuine) =
                  judge_credential-IsVerdict s cr provided blank v refl refl (ground arith) in
                (
                  verdict,
                  λ valid. record {
                    credential = cr;
                    stored = found;
                    batch = (eq_iff cr.batch_id batch_id).0 same;
                    verified = (genuine valid).0;
                    digest = (genuine valid).1;
                  },
                )
          ]
        ]
      ]

  -- Whatever `VerifyCredential` answers is one of the two verdicts. It answers at all only where the
  -- ledger on the disk has as many events as the one in memory and the same last digest, its chain
  -- verifies and its projections validate; and a valid credential is genuine in the projection.
  pub verify_credential_of-IsVerdict :
      (now : Time) (store : Store) (batch_id credential_id provided : String)
      (v : CredentialVerification)
      → verify_credential_of c marshal sha256 now store batch_id credential_id provided ≡ ok v
      → (s : Snapshot) × (events : List Event) × (read_state c store ≡ ok (s, events))
        × (verify_chain c.marshal_material c.sha256 events ≡ ok tt)
        × ((checks : List ProjectionCheck) × (validate_projections c.unmarshal_snapshot events
              ≡ ok checks))
        × IsVerdict v
        × (v.valid ≡ true → IsGenuine s batch_id credential_id provided)
  unfolding verify_credential_of
  verify_credential_of-IsVerdict now store batch_id credential_id provided v h =
      elim (Result-cases (read_state c store)) [
        | inr (e, q) ↦ ground arith
        | inl ((s, events), q) ↦
            elim (Result-cases (verify_chain c.marshal_material c.sha256 events)) [
              | inr (e, q₁) ↦ ground arith
              | inl (u, q₁) ↦
                  elim (Result-cases (validate_projections c.unmarshal_snapshot events)) [
                    | inr (e, q₂) ↦ ground arith
                    | inl (checks, q₂) ↦
                        let (verdict, genuine) =
                          verify_in-IsVerdict s now batch_id credential_id provided v
                            (ground arith) in
                        (s, events, q, q₁, (checks, q₂), verdict, genuine)
                  ]
            ]
      ]

  -- A credential that has been issued over the frozen digest is valid for its own digest, where the
  -- sensor revisions that it names are stored; the answer lists them by their codes.
  pub issue-verify_in :
      (s t : Snapshot) (cr : ReleaseCredential) (now later : Time) (b : CalibrationBatch)
      (devices : List CredentialDevice)
      → find_batch s cr.batch_id ≡ ok b
      → slt 0 b.version ≡ true
      → frozen_digest marshal sha256 s cr.batch_id ≡ ok (cr.content_digest, cr.sensor_revision_ids)
      → issue_credential s cr now ≡ ok t
      → devices_of t cr.sensor_revision_ids ≡ ok devices
      → verify_in c marshal sha256 t (blank_verification later cr.batch_id cr.id) cr.content_digest
        ≡ ok (record (blank_verification later cr.batch_id cr.id) {
          valid = true;
          credential_digest = cr.content_digest;
          credential = some (summary_of (issued b now cr));
          devices = sort (λ a b. str_lt a.sensor_code b.sensor_code) devices;
        })
  unfolding verify_in judge_credential
  issue-verify_in s t cr now later b devices found positive digest h listed =
      let (stored, verified) = issue-verify marshal sha256 s t cr now b found positive digest h in
      ground (
        arith,
        released_exists s t cr now b found h,
        eq_refl cr.batch_id,
        eq_refl cr.content_digest,
      )
