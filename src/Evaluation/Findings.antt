-- ===== src/Evaluation/Findings.antt =====
-- internal/policy/evaluation/findings.go: the thresholds of a profile, and the findings that a point
-- beyond them gives. `fmt`'s `%.6g` is the parameter `show`; the k-th call of `id` is `ids k`.
use benzhi_project_fe3ad.Prelude.{
  ℕ, suc, Bool, true, false, none, String, List, [], ◌∷◌, ◌++◌, if◌then◌else◌,
}
use Prim.Native.String.{◌++◌ as str_append}
use benzhi_project_fe3ad.Float64.{Float64, flt}
use benzhi_project_fe3ad.Calibration.Types.{CalibrationProfile, ReviewFinding, open_finding}
use benzhi_project_fe3ad.Evaluation.Statistics.{Statistics}
pub mod Thresholds

pub record FindingDraft : Type 0 where
  pub point : Float64
  pub kind : String
  pub severity : String
  pub message : String

-- One `if` of `Compare`: the value against its threshold.
unfoldable pub draft_above :
    (Float64 → String) → Float64 → (kind label : String) → Float64 → Float64 → List FindingDraft
unfolding flt
draft_above show point kind label value limit =
    if flt limit value
    then record {
      point = point;
      kind = kind;
      severity = "critical";
      message = str_append label (str_append (show value) (str_append " 超过阈值 " (show limit)));
    }
      ∷ []
    else []

unfoldable pub compare :
    (Float64 → String) → Float64 → Statistics → CalibrationProfile → List FindingDraft
unfolding draft_above
compare show point stats profile =
    draft_above show point "absolute_error" "绝对误差 " stats.absolute_error profile.absolute_tolerance
    ++ (draft_above show point "relative_error" "相对误差 " stats.relative_error
          profile.relative_tolerance
        ++ draft_above show point "repeatability" "重复性极差 " stats.spread profile.repeatability_limit)

unfoldable pub materialize :
    (ids : ℕ → String)
    → ℕ
    → (batch_id revision_id : String) → List FindingDraft
    → List ReviewFinding
materialize ids k batch_id revision_id [] = []
materialize ids k batch_id revision_id (d ∷ ds) =
    record {
      id = ids k;
      batch_id = batch_id;
      sensor_revision_id = revision_id;
      point = d.point;
      kind = d.kind;
      severity = d.severity;
      message = d.message;
      origin = "automatic";
      created_by = "";
      status = open_finding;
      resolved_by_revision = "";
      reviewed_at = none;
    }
    ∷ materialize ids (suc k) batch_id revision_id ds
