-- ===== src/Evaluation/Findings/Thresholds.antt =====
-- The thresholds of findings.go's `Compare`.
use benzhi_project_fe3ad.Prelude.{◌≡◌, ◌↔◌, false, String, [], arith}
use benzhi_project_fe3ad.Float64.{Float64, flt}
use benzhi_project_fe3ad.Calibration.Types.{CalibrationProfile}
use benzhi_project_fe3ad.Evaluation.Statistics.{Statistics}
use benzhi_project_fe3ad.Evaluation.Findings.{compare, draft_above}

-- No error of a point is beyond its threshold; a NaN is beyond none.
abbrev pub IsWithin : Statistics → CalibrationProfile → Type 0
IsWithin stats profile =
    (flt profile.absolute_tolerance stats.absolute_error ≡ false)
    × (flt profile.relative_tolerance stats.relative_error ≡ false)
    × (flt profile.repeatability_limit stats.spread ≡ false)

-- `Compare` drafts no finding exactly when all three errors are within their thresholds.
pub compare-nil :
    (show : Float64 → String) (point : Float64) (stats : Statistics) (profile : CalibrationProfile)
    → (compare show point stats profile ≡ []) ↔ IsWithin stats profile
unfolding compare draft_above
compare-nil show point stats profile = ((λ h. ground arith), (λ h. ground arith))
