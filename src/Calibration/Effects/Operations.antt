-- ===== src/Calibration/Effects/Operations.antt =====
-- The effect of each operation that succeeds.
use benzhi_project_fe3ad.Prelude.{
  ◌≡◌, refl, inl, inr, ◌++◌, ◌∷◌, [], ◌∙◌, Bool, Option, none, some, String, List, arith,
}
use benzhi_project_fe3ad.Prelude.Int64.{inc}
use benzhi_project_fe3ad.Float64.{Float64}
use benzhi_project_fe3ad.Calibration.Errors.{ok, Result-cases}
use benzhi_project_fe3ad.Calibration.Types.{
  Snapshot, CalibrationBatch, SensorRevision, CalibrationProfile, ReviewFinding, ReleaseCredential,
  MeasurementSet, Time, BatchStatus, plan_locked, sampling, returned, ready_review, frozen,
  released,
}
use benzhi_project_fe3ad.Calibration.Snapshot.{find_batch}
use benzhi_project_fe3ad.Calibration.Batch.{add_sampler}
use benzhi_project_fe3ad.Calibration.Measurement.{put_measurements, store_sets}
use benzhi_project_fe3ad.Calibration.Sensor.{register_sensor, recalibrate_sensor}
use benzhi_project_fe3ad.Calibration.Profile.{lock_profile}
use benzhi_project_fe3ad.Calibration.Review.{
  return_review, resubmit_review, approve_review, set_evaluation_status, evaluation_status,
}
use benzhi_project_fe3ad.Calibration.Credential.{issue_credential}
use benzhi_project_fe3ad.Calibration.Effects.{Advances, insert-Advances, Keeps, insert-Keeps}

-- The status after a recalibration, and after an evaluation.
abbrev resumed : BatchStatus → BatchStatus
resumed returned = returned
resumed _ = sampling

abbrev evaluated : Snapshot → String → Bool → BatchStatus → BatchStatus
evaluated s batch_id complete returned = returned
evaluated s batch_id complete _ = evaluation_status s batch_id complete

pub register_sensor-Advances :
    (s : Snapshot) (batch_id id code metric unit : String) (min max : Float64) (now : Time)
    (t : Snapshot) (sensor : SensorRevision)
    → register_sensor s batch_id id code metric unit min max now ≡ ok (t, sensor)
    → Advances batch_id s t
unfolding register_sensor
register_sensor-Advances s batch_id id code metric unit min max now t sensor h =
    elim (Result-cases (find_batch s batch_id)) [
      | inl (b, q) ↦
          insert-Advances batch_id s t b
            (record b { sensor_ids = b.sensor_ids ++ id ∷ []; version = inc b.version }) q
            (ground arith) refl (inl refl)
      | inr (e, q) ↦ ground arith
    ]

pub recalibrate_sensor-Advances :
    (s : Snapshot) (batch_id old_id new_id note : String) (now : Time) (t : Snapshot)
    (sensor : SensorRevision)
    → recalibrate_sensor s batch_id old_id new_id note now ≡ ok (t, sensor)
    → Advances batch_id s t
unfolding recalibrate_sensor
recalibrate_sensor-Advances s batch_id old_id new_id note now t sensor h =
    elim (Result-cases (find_batch s batch_id)) [
      | inl (b, q) ↦
          insert-Advances batch_id s t b
            (record b {
              sensor_ids = b.sensor_ids ++ new_id ∷ [];
              status = resumed b.status;
              version = inc b.version;
            })
            q (ground arith) refl (ground arith)
      | inr (e, q) ↦ ground arith
    ]

pub lock_profile-Advances :
    (s : Snapshot) (p : CalibrationProfile) (now : Time) (t : Snapshot)
    → lock_profile s p now ≡ ok t
    → Advances p.batch_id s t
unfolding lock_profile
lock_profile-Advances s p now t h = elim (Result-cases (find_batch s p.batch_id)) [
  | inl (b, q) ↦
      insert-Advances p.batch_id s t b
        (record b { profile_id = p.id; status = plan_locked; version = inc b.version }) q
        (ground arith) refl (ground arith)
  | inr (e, q) ↦ ground arith
]

pub resubmit_review-Advances :
    (s : Snapshot) (batch_id actor comment : String) (now : Time) (t : Snapshot)
    → resubmit_review s batch_id actor comment now ≡ ok t
    → Advances batch_id s t
unfolding resubmit_review
resubmit_review-Advances s batch_id actor comment now t h =
    elim (Result-cases (find_batch s batch_id)) [
      | inl (b, q) ↦
          insert-Advances batch_id s t b
            (record b { status = ready_review; version = inc b.version }) q (ground arith) refl
            (ground arith)
      | inr (e, q) ↦ ground arith
    ]

pub approve_review-Advances :
    (s : Snapshot) (batch_id reviewer comment : String) (now : Time) (t : Snapshot)
    → approve_review s batch_id reviewer comment now ≡ ok t
    → Advances batch_id s t
unfolding approve_review
approve_review-Advances s batch_id reviewer comment now t h =
    elim (Result-cases (find_batch s batch_id)) [
      | inl (b, q) ↦
          insert-Advances batch_id s t b
            (record b {
              frozen_at = some now;
              reviewed_by = reviewer;
              status = frozen;
              version = inc b.version;
            })
            q (ground arith) refl (ground arith)
      | inr (e, q) ↦ ground arith
    ]

pub return_review-Advances :
    (format : Float64 → String) (s : Snapshot) (batch_id reviewer comment : String)
    (corrections : List (Option ReviewFinding)) (now : Time) (t : Snapshot)
    → return_review format s batch_id reviewer comment corrections now ≡ ok t
    → Advances batch_id s t
unfolding return_review
return_review-Advances format s batch_id reviewer comment corrections now t h =
    elim (Result-cases (find_batch s batch_id)) [
      | inl (b, q) ↦
          insert-Advances batch_id s t b (record b { status = returned; version = inc b.version }) q
            (ground arith) refl (ground arith)
      | inr (e, q) ↦ ground arith
    ]

pub set_evaluation_status-Advances :
    (s : Snapshot) (batch_id : String) (complete : Bool) (t : Snapshot)
    → set_evaluation_status s batch_id complete ≡ ok t
    → Advances batch_id s t
unfolding set_evaluation_status
set_evaluation_status-Advances s batch_id complete t h =
    elim (Result-cases (find_batch s batch_id)) [
      | inl (b, q) ↦
          insert-Advances batch_id s t b
            (record b { status = evaluated s batch_id complete b.status; version = inc b.version })
            q (ground arith) refl (ground arith)
      | inr (e, q) ↦ ground arith
    ]

pub issue_credential-Advances :
    (s : Snapshot) (credential : ReleaseCredential) (now : Time) (t : Snapshot)
    → issue_credential s credential now ≡ ok t
    → Advances credential.batch_id s t
unfolding issue_credential
issue_credential-Advances s credential now t h =
    elim (Result-cases (find_batch s credential.batch_id)) [
      | inl (b, q) ↦
          insert-Advances credential.batch_id s t b
            (record b { status = released; version = inc b.version }) q (ground arith) refl
            (ground arith)
      | inr (e, q) ↦ ground arith
    ]

-- `AddSampler` and the stored readings leave the status and the version of the batch.
store_sets-same :
    (now : Time) (sets : List (Option MeasurementSet)) (s : Snapshot) (b : CalibrationBatch)
    → let (t, b') = store_sets now sets s b in
      (t.batches ≡ s.batches) × (b'.version ≡ b.version) × (b'.status ≡ b.status)
unfolding store_sets
store_sets-same now [] s b = (refl, refl, refl)
store_sets-same now (none ∷ sets) s b = store_sets-same now sets s b
store_sets-same now (some set ∷ sets) s b =
    let (p, q, r) = store_sets-same now sets _ (add_sampler b set.captured_by) in
    (p, q ∙ ground arith, r ∙ ground arith)

-- The key of the batch is that of the first set.
pub put_measurements-Keeps :
    (s : Snapshot) (set : MeasurementSet) (sets : List (Option MeasurementSet)) (now : Time)
    (t : Snapshot)
    → put_measurements s (some set ∷ sets) now ≡ ok t
    → Keeps set.batch_id s t
unfolding put_measurements
put_measurements-Keeps s set sets now t h = elim (Result-cases (find_batch s set.batch_id)) [
  | inl (b, q) ↦
      let stored = store_sets now (some set ∷ sets) s b in
      let same = store_sets-same now (some set ∷ sets) s b in
      insert-Keeps set.batch_id s t b stored.1 q (ground (arith, same)) same.1 same.2
  | inr (e, q) ↦ ground arith
]
