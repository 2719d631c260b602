-- ===== src/Calibration/Validation/Facts.antt =====
-- What a snapshot that `ValidateSnapshot` accepts gives for each of its entries.
use benzhi_project_fe3ad.Prelude.{
  ◌≡◌, inl, inr, false, some, String, [], ◌∷◌, All, is_empty, str_eq, eq_iff, Bool-cases,
  Option-cases, arith,
}
use benzhi_project_fe3ad.Prelude.Maps.{Map, lookup, values, lookup_by}
use benzhi_project_fe3ad.Calibration.Errors.{Result, ok, >>-eq-ok}
use benzhi_project_fe3ad.Calibration.Types.{
  Snapshot, CalibrationBatch, CalibrationProfile, is_zero_time,
}
use benzhi_project_fe3ad.Calibration.Validation.{each, validate_batch}
use benzhi_project_fe3ad.Calibration.Validation.Records.{
  keyed, validate_snapshot, validate_measurement, validate_recalibration_task,
}

module _ {ℓ} {V : Type ℓ} (id : V → String) (check : V → Result (Unit {0})) where
  pub each-keyed-All :
      (m : Map V)
      → each (keyed id check) m ≡ ok tt
      → All (λ e. (e.0 ≡ id e.1) × (check e.1 ≡ ok tt)) m
  each-keyed-All [] h = tt
  each-keyed-All ((k, v) ∷ m) h =
      let (first, rest) = >>-eq-ok (keyed id check (k, v)) (each (keyed id check) m) h in
      ((ground (arith, eq_iff k (id v)), ground arith), each-keyed-All m rest)

  pub All-lookup :
      (m : Map V) (k : String) (v : V)
      → All (λ e. (e.0 ≡ id e.1) × (check e.1 ≡ ok tt)) m
      → lookup k m ≡ some v
      → (k ≡ id v) × (check v ≡ ok tt)
  unfolding lookup_by
  All-lookup [] k v h found = cc
  All-lookup ((j, w) ∷ m) k v h found = elim (Bool-cases (str_eq j k)) [
    | inl same ↦ ground (arith, eq_iff j k)
    | inr other ↦ All-lookup m k v h.1 (ground arith)
  ]

  pub All-values :
      (m : Map V)
      → All (λ e. (e.0 ≡ id e.1) × (check e.1 ≡ ok tt)) m
      → All (λ v. check v ≡ ok tt) (values m)
  All-values [] h = tt
  All-values ((j, w) ∷ m) h = (h.0.1, All-values m h.1)

-- The checks of the batches, of the measurements and of the tasks, out of the whole.
pub record IsChecked (s : Snapshot) : Type 0 where
  pub batches : All (λ e. (e.0 ≡ e.1.id) × (validate_batch s e.1 ≡ ok tt)) s.batches
  pub measurements : All (λ e. (e.0 ≡ e.1.id) × (validate_measurement s e.1 ≡ ok tt)) s.measurements
  pub tasks :
      All (λ e. (e.0 ≡ e.1.id) × (validate_recalibration_task s e.1 ≡ ok tt)) s.recalibration_tasks

pub validate_snapshot-IsChecked : (s : Snapshot) → validate_snapshot s ≡ ok tt → IsChecked s
unfolding validate_snapshot
validate_snapshot-IsChecked s h =
    let (h₀, r₀) = >>-eq-ok _ _ h in
    let (batches, r₁) = >>-eq-ok _ _ r₀ in
    let (sensors, r₂) = >>-eq-ok _ _ r₁ in
    let (profiles, r₃) = >>-eq-ok _ _ r₂ in
    let (measurements, r₄) = >>-eq-ok _ _ r₃ in
    let (findings, r₅) = >>-eq-ok _ _ r₄ in
    let (tasks, r₆) = >>-eq-ok _ _ r₅ in
    record {
      batches = each-keyed-All (λ b. b.id) (validate_batch s) s.batches batches;
      measurements =
          each-keyed-All (λ m. m.id) (validate_measurement s) s.measurements measurements;
      tasks =
          each-keyed-All (λ t. t.id) (validate_recalibration_task s) s.recalibration_tasks tasks;
    }

-- The parts of a batch's check that others rely on.
pub validate_batch-facts :
    (s : Snapshot) (b : CalibrationBatch)
    → validate_batch s b ≡ ok tt
    → (is_empty b.id ≡ false)
      × (is_zero_time b.created_at ≡ false)
      × (is_empty b.profile_id ≡ false
          → (p : CalibrationProfile) × (lookup b.profile_id s.profiles ≡ some p))
unfolding validate_batch
validate_batch-facts s b h = elim (Option-cases (lookup b.profile_id s.profiles)) [
  | inl missing ↦ (ground arith, ground arith, λ has. absurd (ground arith))
  | inr (p, found) ↦ (ground arith, ground arith, λ has. (p, found))
]
