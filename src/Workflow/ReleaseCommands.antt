-- ===== src/Workflow/ReleaseCommands.antt =====
-- internal/application/workflow/release_commands.go: `Mutate` of the reviews and of the release.
use benzhi_project_fe3ad.Prelude.{
  ℕ, suc, Bool, not, ◌||◌, ltb, none, some, String, List, [], ◌∷◌, str_eq, any, map, length,
  if◌then◌else◌,
}
use benzhi_project_fe3ad.Calibration.Errors.{Result, err, ◌>>=◌, ◌>>◌, reject, validation, conflict}
use benzhi_project_fe3ad.Calibration.Types.{
  Snapshot, ReviewFinding, ReleaseCredential, returned, other_finding, status_eq, Time,
}
use benzhi_project_fe3ad.Calibration.Snapshot.{find_batch}
use benzhi_project_fe3ad.Calibration.Review
use benzhi_project_fe3ad.Calibration.Review.{
  replace_automatic_findings, set_evaluation_status, return_review, approve_review,
}
use benzhi_project_fe3ad.Calibration.Credential.{issue_credential}
use benzhi_project_fe3ad.Evaluation.Coverage.{CoverageReport, build_coverage}
use benzhi_project_fe3ad.Ledger.Credential.{frozen_digest}
use benzhi_project_fe3ad.Workflow.Commands.{CorrectionInput, ReviewInput, Response}
use benzhi_project_fe3ad.Workflow.Answers.{Library, blank_response, answer}

-- The findings of the corrections. `status` is not set yet.
unfoldable pub corrections_of : Library → String → ℕ → List CorrectionInput → List ReviewFinding
corrections_of l batch_id k [] = []
corrections_of l batch_id k (c ∷ cs) =
    record {
      id = l.fresh "finding" k;
      batch_id = batch_id;
      sensor_revision_id = c.sensor_revision_id;
      point = c.reference_point;
      kind = c.problem_type;
      severity = c.severity;
      message = c.description;
      origin = "";
      created_by = "";
      status = other_finding "";
      resolved_by_revision = "";
      reviewed_at = none;
    }
    ∷ corrections_of l batch_id (suc k) cs

unfoldable pub review :
    Library
    → (batch_id actor : String) → ReviewInput
    → Time
    → Snapshot
    → Result (Snapshot × Response)
review l batch_id actor i now s =
    if str_eq i.decision "approve"
    then (reject (ltb 0 (length i.corrections)) (validation "通过复核时不能提交补正要求")
        >> (approve_review s batch_id actor i.comment now >>= λ s'.
            answer s' batch_id (blank_response batch_id "")))
    else if str_eq i.decision "return"
    then (let findings = corrections_of l batch_id 0 i.corrections in
        return_review l.format_float s batch_id actor i.comment (map some findings) now >>= λ s'.
        answer s' batch_id
          (record (blank_response batch_id "") { finding_ids = map (λ f. f.id) findings }))
    else err (validation "decision 必须是 approve 或 return")

-- A point without complete evidence, or an open finding: `len(blockers) > 0`.
abbrev pub has_missing : CoverageReport → Bool
has_missing report = any (λ c. any (λ p. not p.complete) c.points) report.sensors

unfoldable pub resubmit_review :
    (batch_id actor comment : String) → Time → Snapshot → Result (Snapshot × Response)
resubmit_review batch_id actor comment now s = do
  batch ← find_batch s batch_id
  reject (not (status_eq batch.status returned)) (conflict "只有已退回批次可以再次送审")
  coverage ← build_coverage s batch_id
  reject (has_missing coverage || Review.has_open s batch_id) (validation "再次送审被阻止：%s")
  s' ← Review.resubmit_review s batch_id actor comment now
  answer s' batch_id (blank_response batch_id "")

abbrev pub credential_of :
    Library → (batch_id actor digest : String) → List String → ReleaseCredential
credential_of l batch_id actor digest sensor_ids = record {
  id = l.fresh "credential" 0;
  batch_id = batch_id;
  batch_version = 0;
  sensor_revision_ids = sensor_ids;
  decision = "";
  content_digest = digest;
  issued_by = actor;
  issued_at = 0;
}

unfoldable pub issue :
    Library → (batch_id actor : String) → Time → Snapshot → Result (Snapshot × Response)
issue l batch_id actor now s = do
  (digest, sensor_ids) ← frozen_digest l.marshal_frozen l.sha256 s batch_id
  s' ← issue_credential s (credential_of l batch_id actor digest sensor_ids) now
  answer s' batch_id (blank_response batch_id (l.fresh "credential" 0))
