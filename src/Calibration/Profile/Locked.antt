-- ===== src/Calibration/Profile/Locked.antt =====
-- The points of a profile that `LockProfile` of profile.go accepts.
use benzhi_project_fe3ad.Prelude.{
  ◌≡◌, inl, inr, Bool, true, false, none, some, List, [], ◌∷◌, sort, any, All, arith,
}
use benzhi_project_fe3ad.Prelude.Sorting.{InOrder, IsSorted, sort-IsSorted, any-sort}
use benzhi_project_fe3ad.Prelude.Maps.{lookup}
use benzhi_project_fe3ad.Float64.{Float64, flt, feq, is_finite, is_nan}
use benzhi_project_fe3ad.Float64.Order.{flt_total, flt_trans}
use benzhi_project_fe3ad.Calibration.Errors.{ok, Result-cases}
use benzhi_project_fe3ad.Calibration.Types.{Snapshot, SensorRevision, CalibrationProfile, Time}
use benzhi_project_fe3ad.Calibration.Snapshot.{find_batch, current_sensors}
use benzhi_project_fe3ad.Calibration.Effects.{lookup-insert_self}
use benzhi_project_fe3ad.Calibration.Profile.{float_less, check_points, uncovered, lock_profile}

-- Each element is strictly below the next.
abbrev AscendsFrom : Float64 → List Float64 → Type 0
AscendsFrom x [] = Unit
AscendsFrom x (y ∷ ys) = (flt x y ≡ true) × AscendsFrom y ys

abbrev pub Ascends : List Float64 → Type 0
Ascends [] = Unit
Ascends (x ∷ xs) = AscendsFrom x xs

float_less_asymm : (x y : Float64) → float_less x y ≡ true → float_less y x ≡ false
unfolding flt is_nan
float_less_asymm x y h = ground arith

ascending :
    (x y : Float64)
    → is_finite x ≡ true
    → is_finite y ≡ true
    → feq y x ≡ false
    → float_less y x ≡ false
    → flt x y ≡ true
ascending x y p q d o = ground (arith, flt_total y x)

check_points-Ascends :
    (x : Float64) (xs : List Float64)
    → is_finite x ≡ true
    → check_points (some x) xs ≡ ok tt
    → InOrder float_less x xs
    → AscendsFrom x xs × All (λ p. is_finite p ≡ true) xs
unfolding check_points
check_points-Ascends x [] f h o = (tt, tt)
check_points-Ascends x (y ∷ ys) f h o =
    let finite : is_finite y ≡ true = ground arith in
    let differ : feq y x ≡ false = ground arith in
    let (a, b) = check_points-Ascends y ys finite (ground arith) o.1 in
    ((ascending x y f finite differ o.0, a), (finite, b))

check_points-Sorted :
    (xs : List Float64)
    → check_points none xs ≡ ok tt
    → IsSorted float_less xs
    → Ascends xs × All (λ p. is_finite p ≡ true) xs
unfolding check_points
check_points-Sorted [] h o = (tt, tt)
check_points-Sorted (x ∷ xs) h o =
    let finite : is_finite x ≡ true = ground arith in
    let (a, b) = check_points-Ascends x xs finite (ground arith) o in (a, (finite, b))

-- Neither below the range of the sensor nor above it.
abbrev pub WithinRange : SensorRevision → Float64 → Type 0
WithinRange e x = (flt x e.range_min ≡ false) × (flt e.range_max x ≡ false)

lower_bound_kept : (x y low : Float64) → flt x y ≡ true → flt x low ≡ false → flt y low ≡ false
lower_bound_kept x y low up h = ground (arith, flt_trans x y low)

upper_bound_kept : (x y high : Float64) → flt x y ≡ true → flt high y ≡ false → flt high x ≡ false
upper_bound_kept x y high up h = ground (arith, flt_trans high x y)

-- The test of the first and the last of ascending points is a test of all.
covered_from :
    (e : SensorRevision) (x : Float64) (xs : List Float64)
    → AscendsFrom x xs
    → uncovered (x ∷ xs) e ≡ false
    → All (WithinRange e) (x ∷ xs)
unfolding uncovered
covered_from e x [] a h = ((ground arith, ground arith), tt)
covered_from e x (y ∷ ys) (up, a) h =
    let low : flt x e.range_min ≡ false = ground arith in
    let raised : flt y e.range_min ≡ false = lower_bound_kept x y e.range_min up low in
    let rest = covered_from e y ys a (ground arith) in
    ((low, upper_bound_kept x y e.range_max up rest.0.1), rest)

covered_by :
    (e : SensorRevision) (points : List Float64)
    → Ascends points
    → uncovered points e ≡ false
    → All (WithinRange e) points
covered_by e [] a h = tt
covered_by e (x ∷ xs) a h = covered_from e x xs a h

covered_each :
    (points : List Float64) (es : List SensorRevision)
    → Ascends points
    → any (uncovered points) es ≡ false
    → All (λ e. All (WithinRange e) points) es
covered_each points [] a h = tt
covered_each points (e ∷ es) a h =
    (covered_by e points a (ground arith), covered_each points es a (ground arith))

-- A profile that `LockProfile` accepts is stored with the same points, now strictly ascending and
-- finite, and none of them is below the lower bound or above the upper bound of the range of a sensor
-- that `CurrentSensors` gives for the batch.
pub lock_profile-Ascends :
    (s t : Snapshot) (p : CalibrationProfile) (now : Time)
    → lock_profile s p now ≡ ok t
    → (locked : CalibrationProfile) × (lookup p.id t.profiles ≡ some locked)
      × ((q : Float64 → Bool) → any q locked.points ≡ any q p.points)
      × Ascends locked.points
      × All (λ x. is_finite x ≡ true) locked.points
      × All (λ e. All (WithinRange e) locked.points) (current_sensors s p.batch_id)
unfolding lock_profile
lock_profile-Ascends s t p now h =
    let points = sort float_less p.points in
    let locked : CalibrationProfile = record p { points = points; locked_at = some now } in
    elim (Result-cases (check_points none points)) [
      | inr (e, q) ↦ ground (arith, Result-cases (find_batch s p.batch_id))
      | inl (u, q) ↦
          let stored : lookup p.id t.profiles ≡ some locked = ground (
            arith,
            Result-cases (find_batch s p.batch_id),
            lookup-insert_self p.id locked s.profiles,
          ) in
          let covered : any (uncovered points) (current_sensors s p.batch_id) ≡ false =
            ground (arith, Result-cases (find_batch s p.batch_id)) in
          let (a, f) =
            check_points-Sorted points (ground arith)
              (sort-IsSorted float_less float_less_asymm p.points) in
          (
            locked,
            stored,
            (λ q. any-sort float_less q p.points),
            a,
            f,
            covered_each points _ a covered,
          )
    ]
