-- ===== src/Calibration/Review/Duties.antt =====
-- Who may approve a batch, and when: `ApproveReview` of review.go.
use benzhi_project_fe3ad.Prelude.{◌≡◌, ◌↔◌, false, some, String, [], arith}
use benzhi_project_fe3ad.Prelude.Int64.{inc}
use benzhi_project_fe3ad.Calibration.Errors.{ok}
use benzhi_project_fe3ad.Calibration.Types.{
  Snapshot, CalibrationBatch, Time, ready_review, ReviewRecord, frozen,
}
use benzhi_project_fe3ad.Calibration.Lifecycle.{allowed_transition, move_to}
use benzhi_project_fe3ad.Calibration.Batch.{has_sampler, freeze}
use benzhi_project_fe3ad.Calibration.Snapshot.{find_batch, put_batch}
use benzhi_project_fe3ad.Calibration.Review.{has_open, append_review, approve_review}

-- The batch as the review leaves it.
abbrev pub approved : CalibrationBatch → (reviewer : String) → Time → CalibrationBatch
approved b reviewer now = record b {
  status = frozen;
  version = inc b.version;
  frozen_at = some now;
  reviewed_by = reviewer;
}

abbrev pub approval : (batch_id reviewer comment : String) → Time → ReviewRecord
approval batch_id reviewer comment now = record {
  batch_id = batch_id;
  reviewer = reviewer;
  decision = "approved";
  comment = comment;
  finding_ids = [];
  at = now;
}

pub approve_review_iff :
    (s t : Snapshot) (batch_id reviewer comment : String) (now : Time) (b : CalibrationBatch)
    → find_batch s batch_id ≡ ok b
    → (approve_review s batch_id reviewer comment now ≡ ok t) ↔ (
        (b.status ≡ ready_review)
        × (has_open s batch_id ≡ false)
        × (has_sampler b reviewer ≡ false)
        × (t
            ≡ put_batch
                (append_review s (approval batch_id reviewer comment now))
                batch_id
                (approved b reviewer now)))
unfolding approve_review freeze move_to allowed_transition
approve_review_iff s t batch_id reviewer comment now b found =
    ((λ h. ground arith), (λ h. ground (arith, h.0, h.1, h.2, h.3)))
