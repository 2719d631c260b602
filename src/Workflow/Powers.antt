-- ===== src/Workflow/Powers.antt =====
-- The capabilities of lifecycle.go against the guards that the commands meet on their way.
use benzhi_project_fe3ad.Prelude.{
  ◌≡◌, refl, inl, inr, Bool, true, Option, some, String, List, [], ◌∷◌, map, arith, str_eq,
  if◌then◌else◌,
}
use benzhi_project_fe3ad.Calibration.Errors.{ok, Result-cases}
use benzhi_project_fe3ad.Calibration.Types.{
  Snapshot, CalibrationBatch, MeasurementSet, Time, frozen,
}
use benzhi_project_fe3ad.Calibration.Snapshot.{find_batch}
use benzhi_project_fe3ad.Calibration.Lifecycle.{Capabilities, capabilities}
use benzhi_project_fe3ad.Calibration.Lifecycle.Paths.{is_sealed}
use benzhi_project_fe3ad.Calibration.Sensor
use benzhi_project_fe3ad.Calibration.Profile
use benzhi_project_fe3ad.Calibration.Measurement.{put_measurements}
use benzhi_project_fe3ad.Calibration.Review
use benzhi_project_fe3ad.Calibration.Credential.{issue_credential}
use benzhi_project_fe3ad.Evaluation.Evaluator
use benzhi_project_fe3ad.Ledger.Credential.{frozen_digest}
use benzhi_project_fe3ad.Workflow.Commands.{CommandMeta, Command, MeasurementInput, Response}
use benzhi_project_fe3ad.Workflow.Service.{Host, mutate}
use benzhi_project_fe3ad.Workflow.BatchCommands
use benzhi_project_fe3ad.Workflow.CalibrationCommands
use benzhi_project_fe3ad.Workflow.ReleaseCommands
use benzhi_project_fe3ad.Workflow.Effects.{IsUpdate, put_measurements-nil}

-- The capability that a command stands for.
abbrev pub needed : Command → Capabilities → Bool
needed (Command.create_batch code title) c = true
needed (Command.register_sensor i) c = c.register_sensor
needed (Command.lock_profile i) c = c.lock_profile
needed (Command.submit_measurement e i) c = c.submit_reading
needed (Command.submit_measurements e is) c = c.submit_reading
needed (Command.recalibrate e note) c = c.recalibrate
needed (Command.review i) c =
    if str_eq i.decision "approve" then c.approve_review else c.return_review
needed (Command.resubmit_review comment) c = c.resubmit_review
needed Command.issue c = c.issue_credential

put_measurements-power :
    (s t : Snapshot) (set : MeasurementSet) (sets : List (Option MeasurementSet)) (now : Time)
    (b : CalibrationBatch)
    → find_batch s set.batch_id ≡ ok b
    → put_measurements s (some set ∷ sets) now ≡ ok t
    → (capabilities b).submit_reading ≡ true
unfolding put_measurements capabilities
put_measurements-power s t set sets now b found h = ground arith

submit-power :
    (h : Host) (m : CommandMeta) (id sensor : String) (is : List MeasurementInput) (now : Time)
    (s t : Snapshot) (r : Response) (b : CalibrationBatch)
    → find_batch s id ≡ ok b
    → CalibrationCommands.submit_measurements h.library id sensor m.actor is now s ≡ ok (t, r)
    → (capabilities b).submit_reading ≡ true
unfolding CalibrationCommands.submit_measurements CalibrationCommands.measured
    Evaluator.apply_statistics
submit-power h m id sensor [] now s t r b found q = ground (arith, put_measurements-nil s now)
submit-power h m id sensor (i ∷ is) now s t r b found q =
    let sets = CalibrationCommands.measured h.library id sensor m.actor 0 (i ∷ is) in
    elim (Result-cases (put_measurements s (map some sets) now)) [
      | inl (s₁, put) ↦ put_measurements-power s s₁ _ _ now b found put
      | inr (e, put) ↦ ground arith
    ]

-- A command on an existing batch that succeeds had the capability that `Capabilities` grants for the
-- status of the batch.
pub mutate-needed :
    (h : Host) (m : CommandMeta) (id : String) (cmd : Command) (now : Time) (s t : Snapshot)
    (r : Response) (b : CalibrationBatch)
    → IsUpdate cmd
    → find_batch s id ≡ ok b
    → mutate h m id cmd now s ≡ ok (t, r)
    → needed cmd (capabilities b) ≡ true
unfolding mutate capabilities BatchCommands.register_sensor Sensor.register_sensor
    BatchCommands.lock_profile Profile.lock_profile CalibrationCommands.recalibrate
    Sensor.recalibrate_sensor ReleaseCommands.review Review.approve_review Review.return_review
    ReleaseCommands.resubmit_review ReleaseCommands.issue issue_credential
mutate-needed h m id (Command.create_batch code title) now s t r b u found q = refl
mutate-needed h m id (Command.register_sensor i) now s t r b u found q = ground arith
mutate-needed h m id (Command.lock_profile i) now s t r b u found q = ground arith
mutate-needed h m id (Command.submit_measurement e i) now s t r b u found q =
    submit-power h m id e (i ∷ []) now s t r b found q
mutate-needed h m id (Command.submit_measurements e is) now s t r b u found q =
    submit-power h m id e is now s t r b found q
mutate-needed h m id (Command.recalibrate e note) now s t r b u found q = ground arith
mutate-needed h m id (Command.review i) now s t r b u found q = ground arith
mutate-needed h m id (Command.resubmit_review comment) now s t r b u found q = ground arith
mutate-needed h m id Command.issue now s t r b u found q =
    ground (arith, Result-cases (frozen_digest h.library.marshal_frozen h.library.sha256 s id))

-- A command on an existing batch that is frozen or released succeeds only where it is the issue of the
-- credential and the batch is frozen.
pub mutate-sealed :
    (h : Host) (m : CommandMeta) (id : String) (cmd : Command) (now : Time) (s t : Snapshot)
    (r : Response) (b : CalibrationBatch)
    → IsUpdate cmd
    → find_batch s id ≡ ok b
    → is_sealed b.status ≡ true
    → mutate h m id cmd now s ≡ ok (t, r)
    → (cmd ≡ Command.issue) × (b.status ≡ frozen)
unfolding capabilities
mutate-sealed h m id cmd now s t r b u found is_so q =
    let power = mutate-needed h m id cmd now s t r b u found q in ground (arith, u)
