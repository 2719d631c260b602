-- ===== src/Workflow/Release.antt =====
-- internal/application/workflow/release_commands.go: from the approval to the credential.
use benzhi_project_fe3ad.Prelude.{◌≡◌, refl, sym, false, String, List, subst, arith}
use benzhi_project_fe3ad.Prelude.Int64.{inc}
use benzhi_project_fe3ad.Prelude.Maps.{insert}
use benzhi_project_fe3ad.Calibration.Errors.{ok}
use benzhi_project_fe3ad.Calibration.Types.{Snapshot, CalibrationBatch, Time, frozen, released}
use benzhi_project_fe3ad.Calibration.Snapshot.{
  find_batch, put_batch, batch_findings, credential_for_batch,
}
use benzhi_project_fe3ad.Calibration.Lifecycle.{allowed_transition, move_to}
use benzhi_project_fe3ad.Calibration.Credential.{has_credential, issue_credential}
use benzhi_project_fe3ad.Calibration.Review.{approve_review, append_review, has_open}
use benzhi_project_fe3ad.Calibration.Review.Duties.{approve_review_iff, approved, approval}
use benzhi_project_fe3ad.Ledger.Credential.{
  frozen_material, frozen_digest, frozen_digest_at_version,
}
use benzhi_project_fe3ad.Ledger.Credential.Issued.{find_batch-put_batch, issued}
use benzhi_project_fe3ad.Workflow.Commands.{Response}
use benzhi_project_fe3ad.Workflow.Answers.{Library, blank_response}
use benzhi_project_fe3ad.Workflow.ReleaseCommands.{issue, credential_of}

module _ (l : Library) where
  frozen_digest_total :
      (s : Snapshot) (batch_id : String) (b : CalibrationBatch) (text : String)
      → l.marshal_frozen (frozen_material s batch_id b 0) ≡ ok text
      → find_batch s batch_id ≡ ok b
      → b.status ≡ frozen
      → (digest : String) × (ids : List String) × (frozen_digest l.marshal_frozen l.sha256 s
            batch_id
          ≡ ok (digest, ids))
  unfolding frozen_digest frozen_digest_at_version
  frozen_digest_total s batch_id b text written found sealed =
      rw (found, sealed, written) (_, _, refl)

  -- A frozen batch without a credential and without an open finding.
  issue_total :
      (s : Snapshot) (batch_id actor : String) (now : Time) (b : CalibrationBatch) (text : String)
      → l.marshal_frozen (frozen_material s batch_id b 0) ≡ ok text
      → find_batch s batch_id ≡ ok b
      → b.status ≡ frozen
      → has_credential s b.id ≡ false
      → has_open s b.id ≡ false
      → (t : Snapshot) × (r : Response) × (issue l batch_id actor now s ≡ ok (t, r))
        × (r.status ≡ released)
  unfolding issue issue_credential move_to allowed_transition
  issue_total s batch_id actor now b text marshalled found sealed unissued closed =
      let (digest, ids, digested) = frozen_digest_total s batch_id b text marshalled found sealed in
      let cr = credential_of l batch_id actor digest ids in
      let after : CalibrationBatch = record b { status = released; version = inc b.version } in
      let paid : Snapshot = record s {
        credentials = insert cr.id (issued b now cr) s.credentials;
      } in
      let written : issue_credential s cr now ≡ ok (put_batch paid batch_id after) = ground arith in
      (
        put_batch paid batch_id after,
        record (blank_response batch_id cr.id) { version = after.version; status = released },
        rw (digested, written, find_batch-put_batch paid batch_id after) refl,
        refl,
      )

  -- Once the approval of a batch that has no credential yet has succeeded, the issue of its credential
  -- succeeds, by anybody and at any time, and the batch is released; where the JSON of the
  -- frozen material of the approved batch can be written.
  pub issue-approve_review :
      (s t : Snapshot) (batch_id reviewer comment actor : String) (now later : Time)
      (b : CalibrationBatch) (text : String)
      → find_batch s batch_id ≡ ok b
      → b.id ≡ batch_id
      → has_credential s batch_id ≡ false
      → approve_review s batch_id reviewer comment now ≡ ok t
      → l.marshal_frozen (frozen_material t batch_id (approved b reviewer now) 0) ≡ ok text
      → (u : Snapshot) × (r : Response) × (issue l batch_id actor later t ≡ ok (u, r))
        × (r.status ≡ released)
  unfolding batch_findings credential_for_batch
  issue-approve_review s t batch_id reviewer comment actor now later b text found same_id unissued
        done written =
      let (ready, closed, apart, same) =
        (approve_review_iff s t batch_id reviewer comment now b found).0 done in
      let reviewed = append_review s (approval batch_id reviewer comment now) in
      subst
        (λ v.
          (u : Snapshot) × (r : Response) × (issue l batch_id actor later v ≡ ok (u, r))
          × (r.status ≡ released))
        (sym same)
        (issue_total (put_batch reviewed batch_id (approved b reviewer now)) batch_id actor later
          (approved b reviewer now) text
          (subst
            (λ v.
              l.marshal_frozen (frozen_material v batch_id (approved b reviewer now) 0) ≡ ok text)
            same written)
          (find_batch-put_batch reviewed batch_id (approved b reviewer now)) refl
          (rw same_id unissued) (rw same_id closed))
