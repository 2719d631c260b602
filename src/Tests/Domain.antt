-- ===== src/Tests/Domain.antt =====
-- The theorems on the calibration, its evaluation and its ledger, applied.
use benzhi_project_fe3ad.Prelude.{
  ◌≡◌, ◌↔◌, ◌⊎◌, inl, inr, refl, Bool, true, false, some, String, [], ◌∷◌, any, All, Bool-cases,
  subst, str_eq, ltb, length,
}
use mathlib.Core.List.{Mem}
use benzhi_project_fe3ad.Prelude.Maps.{lookup, lookup_by}
use benzhi_project_fe3ad.Float64.{Float64, fsub, feq, flt, is_finite, zero_float}
use benzhi_project_fe3ad.Calibration.Errors.{ok}
use benzhi_project_fe3ad.Calibration.Types.{
  Snapshot, CalibrationProfile, SensorRevision, draft, sampling, ready_review, frozen, released,
}
use benzhi_project_fe3ad.Calibration.Lifecycle.{allowed_transition}
use benzhi_project_fe3ad.Calibration.Lifecycle.Paths.{
  Walk, here, next, join, sealed_after_review, sealed_for_good,
}
use benzhi_project_fe3ad.Calibration.Batch.{has_sampler}
use benzhi_project_fe3ad.Calibration.Snapshot.{find_batch, put_batch, current_sensors}
use benzhi_project_fe3ad.Calibration.Review.{approve_review, has_open, append_review}
use benzhi_project_fe3ad.Calibration.Review.Duties.{approve_review_iff, approved, approval}
use benzhi_project_fe3ad.Calibration.Profile.{lock_profile, uncovered, check_points}
use benzhi_project_fe3ad.Calibration.Profile.Locked.{lock_profile-Ascends, Ascends, WithinRange}
use benzhi_project_fe3ad.Evaluation.Statistics.{calculate, Statistics}
use benzhi_project_fe3ad.Evaluation.Statistics.Spread.{calculate-spread}
use benzhi_project_fe3ad.Evaluation.Findings.{compare}
use benzhi_project_fe3ad.Evaluation.Findings.Thresholds.{compare-nil}
use benzhi_project_fe3ad.Evaluation.Coverage.{unresolved_problem_points}
use benzhi_project_fe3ad.Evaluation.Recalibration.{findings_at}
use benzhi_project_fe3ad.Evaluation.Recalibration.Tasks.{unresolved-findings_at, OwnsCode}
use benzhi_project_fe3ad.Tests.Samples.{
  degrees, batch_at, sensor, profile, snapshot_at, failed_snapshot, value,
}

through_review : Walk sampling frozen
unfolding allowed_transition
through_review = next {b = ready_review} (next {b = sampling} here refl) refl

sealed_after_review_example :
    (p : Walk sampling ready_review) × (step : allowed_transition ready_review frozen ≡ true)
    × (q : Walk frozen frozen) × (through_review ≡ join (next p step) q)
sealed_after_review_example = sealed_after_review sampling frozen through_review refl refl

release : Walk frozen released
unfolding allowed_transition
release = next {b = frozen} here refl

sealed_for_good_example : (released ≡ frozen) ⊎ ((frozen ≡ frozen) × (released ≡ released))
sealed_for_good_example = sealed_for_good frozen released release refl

approve_review_iff_example :
    (approve_review (snapshot_at ready_review) "b1" "eve" "fine" 300
      ≡ ok (
          put_batch
            (append_review (snapshot_at ready_review) (approval "b1" "eve" "fine" 300))
            "b1"
            (approved (batch_at ready_review) "eve" 300)))
    ↔ ((ready_review ≡ ready_review)
        × (has_open (snapshot_at ready_review) "b1" ≡ false)
        × (has_sampler (batch_at ready_review) "eve" ≡ false)
        × (put_batch
              (append_review (snapshot_at ready_review) (approval "b1" "eve" "fine" 300))
              "b1"
              (approved (batch_at ready_review) "eve" 300)
            ≡ put_batch
                (append_review (snapshot_at ready_review) (approval "b1" "eve" "fine" 300))
                "b1"
                (approved (batch_at ready_review) "eve" 300)))
unfolding find_batch
approve_review_iff_example =
    approve_review_iff (snapshot_at ready_review)
      (put_batch (append_review (snapshot_at ready_review) (approval "b1" "eve" "fine" 300)) "b1"
        (approved (batch_at ready_review) "eve" 300))
      "b1" "eve" "fine" 300 (batch_at ready_review) refl

-- A draft, and a profile whose points are out of order.
abbrev plan : Snapshot
plan = record (snapshot_at draft) { profiles = [] }

abbrev unordered : CalibrationProfile
unordered = record profile { points = degrees 20 ∷ degrees 10 ∷ [] }

abbrev planned : Snapshot
planned = value plan (lock_profile plan unordered 102)

planned-eq : lock_profile plan unordered 102 ≡ ok planned
unfolding lock_profile flt check_points current_sensors uncovered
planned-eq = refl

lock_profile-Ascends_example :
    (locked : CalibrationProfile) × (lookup "p1" planned.profiles ≡ some locked)
    × ((q : Float64 → Bool) → any q locked.points ≡ any q (degrees 20 ∷ degrees 10 ∷ []))
    × Ascends locked.points
    × All (λ x. is_finite x ≡ true) locked.points
    × All (λ e. All (WithinRange e) locked.points) (current_sensors plan "b1")
lock_profile-Ascends_example = lock_profile-Ascends plan planned unordered 102 planned-eq

calculate-spread_example :
    (low : Float64) × (high : Float64) × Mem low (degrees 12 ∷ degrees 9 ∷ [])
    × Mem high (degrees 12 ∷ degrees 9 ∷ [])
    × All (λ v. (flt v low ≡ false) × (flt high v ≡ false)) (degrees 12 ∷ degrees 9 ∷ [])
    × ((calculate (degrees 10) (degrees 12 ∷ degrees 9 ∷ [])).spread ≡ fsub high low)
calculate-spread_example = calculate-spread (degrees 10) (degrees 12) (degrees 9 ∷ [])

abbrev exact : Statistics
exact = record {
  mean = degrees 10;
  absolute_error = zero_float;
  relative_error = zero_float;
  spread = degrees 2;
}

compare-nil_example : (compare (λ x. "x") (degrees 10) exact profile ≡ []) ↔ (
    (flt (degrees 1) zero_float ≡ false)
    × (flt (degrees 1) zero_float ≡ false)
    × (flt (degrees 1) (degrees 2) ≡ false))
compare-nil_example = compare-nil (λ x. "x") (degrees 10) exact profile

-- The revision after a recalibration of the failed sensor.
abbrev revision : SensorRevision
revision = record sensor { id = "e2"; revision = 2 }

only_sensor :
    (k : String) (old : SensorRevision) → lookup k (("e1", sensor) ∷ []) ≡ some old → sensor ≡ old
unfolding lookup_by
only_sensor k old found = elim (Bool-cases (str_eq "e1" k)) [
  | inl same ↦ cc (found, same)
  | inr differ ↦ cc (found, differ)
]

revision-OwnsCode : OwnsCode failed_snapshot revision
revision-OwnsCode k old found same =
    subst (λ (o : SensorRevision). str_eq o.batch_id "b1" ≡ true) (only_sensor k old found) refl

unresolved-findings_at_example :
    any (λ p. feq p (degrees 10)) (unresolved_problem_points failed_snapshot revision)
    ≡ ltb 0 (length (findings_at failed_snapshot revision (degrees 10)))
unresolved-findings_at_example =
    unresolved-findings_at failed_snapshot revision revision-OwnsCode (degrees 10)
