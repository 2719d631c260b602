-- ===== src/Workflow/Effects.antt =====
-- internal/application/workflow: what each command does to the batches of the snapshot.
use benzhi_project_fe3ad.Prelude.{
  ◌≡◌, refl, sym, ap, subst, ◌∙◌, inl, inr, ℕ, Bool, some, String, List, [], ◌∷◌, map, arith,
  str_eq, Option-cases, Bool-cases,
}
use benzhi_project_fe3ad.Prelude.Maps.{lookup}
use benzhi_project_fe3ad.Calibration.Errors.{ok, err, validation, Result-cases}
use benzhi_project_fe3ad.Calibration.Types.{
  Snapshot, CalibrationBatch, CalibrationProfile, MeasurementSet, RecalibrationTask, Time,
}
use benzhi_project_fe3ad.Calibration.Snapshot.{find_batch}
use benzhi_project_fe3ad.Calibration.Sensor
use benzhi_project_fe3ad.Calibration.Profile
use benzhi_project_fe3ad.Calibration.Measurement.{put_measurements}
use benzhi_project_fe3ad.Calibration.Review
use benzhi_project_fe3ad.Calibration.Review.{replace_automatic_findings}
use benzhi_project_fe3ad.Evaluation.Evaluator
use benzhi_project_fe3ad.Evaluation.Coverage.{build_coverage}
use benzhi_project_fe3ad.Calibration.Effects.{Advances, Keeps, Advances-after_Keeps, Advances-same}
use benzhi_project_fe3ad.Calibration.Effects.Operations.{
  register_sensor-Advances, recalibrate_sensor-Advances, lock_profile-Advances,
  resubmit_review-Advances, approve_review-Advances, return_review-Advances,
  set_evaluation_status-Advances, issue_credential-Advances, put_measurements-Keeps,
}
use benzhi_project_fe3ad.Evaluation.Recalibration.{
  build_recalibration_tasks, update_recalibration_task,
}
use benzhi_project_fe3ad.Calibration.Credential.{issue_credential}
use benzhi_project_fe3ad.Ledger.Credential.{frozen_digest}
use benzhi_project_fe3ad.Workflow.Commands.{
  CommandMeta, Command, SensorInput, ProfileInput, ReviewInput, MeasurementInput, Response,
}
use benzhi_project_fe3ad.Workflow.Answers.{Library}
use benzhi_project_fe3ad.Workflow.Service.{Host, mutate}
use benzhi_project_fe3ad.Workflow.BatchCommands
use benzhi_project_fe3ad.Workflow.CalibrationCommands
use benzhi_project_fe3ad.Workflow.ReleaseCommands

pub put_measurements-nil :
    (s : Snapshot) (now : Time) → put_measurements s [] now ≡ err (validation "批量读数至少包含一个标准点")
unfolding put_measurements
put_measurements-nil s now = refl

-- A command on a batch that exists.
abbrev pub IsUpdate : Command → Type 0
IsUpdate (Command.create_batch code title) = ⊥
IsUpdate _ = Unit

judge_set-same :
    (l : Library) (batch_id : String) (profile : CalibrationProfile) (now : Time) (k : ℕ)
    (s : Snapshot) (set : MeasurementSet)
    → (CalibrationCommands.judge_set l batch_id profile now k s set).0.batches ≡ s.batches
unfolding CalibrationCommands.judge_set replace_automatic_findings update_recalibration_task
judge_set-same l batch_id profile now k s set = ground arith

build_tasks-same :
    (s : Snapshot) (id : String) (ids : ℕ → String) (now : Time) (t : Snapshot)
    (tasks : List RecalibrationTask)
    → build_recalibration_tasks s id ids now ≡ ok (t, tasks)
    → t.batches ≡ s.batches
unfolding build_recalibration_tasks
build_tasks-same s id ids now t tasks h = ground arith

judge_sets-same :
    (l : Library) (batch_id : String) (profile : CalibrationProfile) (now : Time)
    (sets : List MeasurementSet) (k : ℕ) (ids : List String) (s : Snapshot)
    → (CalibrationCommands.judge_sets l batch_id profile now k ids s sets).0.batches ≡ s.batches
unfolding CalibrationCommands.judge_sets
judge_sets-same l batch_id profile now [] k ids s = refl
judge_sets-same l batch_id profile now (set ∷ sets) k ids s =
    judge_sets-same l batch_id profile now sets _ _ _
    ∙ judge_set-same l batch_id profile now k s set

-- The answer reads the batch and leaves the snapshot as it is.
module _ (batch_id : String) (now : Time) (s t : Snapshot) (r : Response) where
  pub register_sensor-moves :
      (id : String) (i : SensorInput)
      → BatchCommands.register_sensor batch_id id i now s ≡ ok (t, r)
      → Advances batch_id s t
  unfolding BatchCommands.register_sensor
  register_sensor-moves id i h =
      elim (Result-cases (
        Sensor.register_sensor s batch_id id i.sensor_code i.metric i.unit i.range_min i.range_max
          now)) [
            | inl ((s', sensor), q) ↦
                subst (Advances batch_id s) {x = s'}
                  (ground (arith, Result-cases (find_batch s' batch_id)))
                  (register_sensor-Advances _ _ _ _ _ _ _ _ _ _ _ q)
            | inr (e, q) ↦ ground arith
          ]

  pub lock_profile-moves :
      (id : String) (i : ProfileInput)
      → BatchCommands.lock_profile batch_id id i now s ≡ ok (t, r)
      → Advances batch_id s t
  unfolding BatchCommands.lock_profile
  lock_profile-moves id i h =
      elim (Result-cases (Profile.lock_profile s (BatchCommands.profile_of batch_id id i) now)) [
        | inl (s', q) ↦
            subst (Advances batch_id s) {x = s'}
              (ground (arith, Result-cases (find_batch s' batch_id)))
              (lock_profile-Advances _ _ _ _ q)
        | inr (e, q) ↦ ground arith
      ]

  pub recalibrate-moves :
      (l : Library) (sensor_id note : String)
      → CalibrationCommands.recalibrate l batch_id sensor_id note now s ≡ ok (t, r)
      → Advances batch_id s t
  unfolding CalibrationCommands.recalibrate
  recalibrate-moves l sensor_id note h =
      elim (Result-cases
        (Sensor.recalibrate_sensor s batch_id sensor_id (l.fresh "sensor" 0) note now)) [
          | inl ((s', sensor), q) ↦
              elim (Result-cases (build_recalibration_tasks s' sensor.id (l.fresh "retest") now)) [
                | inl ((s'', tasks), q') ↦
                    subst (Advances batch_id s) {x = s''}
                      (ground (arith, Result-cases (find_batch s'' batch_id)))
                      (Advances-same batch_id s s s' s'' refl
                        (sym (build_tasks-same _ _ _ _ _ _ q'))
                        (recalibrate_sensor-Advances _ _ _ _ _ _ _ _ q))
                | inr (e, q') ↦ ground arith
              ]
          | inr (e, q) ↦ ground arith
        ]

  pub review-moves :
      (l : Library) (actor : String) (i : ReviewInput)
      → ReleaseCommands.review l batch_id actor i now s ≡ ok (t, r)
      → Advances batch_id s t
  unfolding ReleaseCommands.review
  review-moves l actor i h = elim (Bool-cases (str_eq i.decision "approve")) [
    | inl approve ↦ elim (Result-cases (Review.approve_review s batch_id actor i.comment now)) [
      | inl (s', q) ↦
          subst (Advances batch_id s) {x = s'}
            (ground (arith, Result-cases (find_batch s' batch_id)))
            (approve_review-Advances _ _ _ _ _ _ q)
      | inr (e, q) ↦ ground arith
    ]
    | inr other ↦
        elim (Result-cases (
          Review.return_review l.format_float s batch_id actor i.comment
            (map some (ReleaseCommands.corrections_of l batch_id 0 i.corrections)) now)) [
              | inl (s', q) ↦
                  subst (Advances batch_id s) {x = s'}
                    (ground (arith, Result-cases (find_batch s' batch_id)))
                    (return_review-Advances _ _ _ _ _ _ _ _ q)
              | inr (e, q) ↦ ground arith
            ]
  ]

  pub issue-moves :
      (l : Library) (actor : String)
      → ReleaseCommands.issue l batch_id actor now s ≡ ok (t, r)
      → Advances batch_id s t
  unfolding ReleaseCommands.issue
  issue-moves l actor h = elim (Result-cases (frozen_digest l.marshal_frozen l.sha256 s batch_id)) [
    | inl ((digest, ids), q) ↦
        elim (Result-cases
          (issue_credential s (ReleaseCommands.credential_of l batch_id actor digest ids) now)) [
            | inl (s', q') ↦
                subst (Advances batch_id s) {x = s'}
                  (ground (arith, Result-cases (find_batch s' batch_id)))
                  (issue_credential-Advances _ _ _ _ q')
            | inr (e, q') ↦ ground arith
          ]
    | inr (e, q) ↦ ground arith
  ]

  pub resubmit_review-moves :
      (actor comment : String)
      → ReleaseCommands.resubmit_review batch_id actor comment now s ≡ ok (t, r)
      → Advances batch_id s t
  unfolding ReleaseCommands.resubmit_review
  resubmit_review-moves actor comment h =
      elim (Result-cases (Review.resubmit_review s batch_id actor comment now)) [
        | inl (s', q) ↦
            subst (Advances batch_id s) {x = s'}
              (ground (
                arith,
                Result-cases (find_batch s' batch_id),
                Result-cases (find_batch s batch_id),
                Result-cases (build_coverage s batch_id),
              ))
              (resubmit_review-Advances _ _ _ _ _ _ q)
        | inr (e, q) ↦
            ground (
              arith,
              Result-cases (find_batch s batch_id),
              Result-cases (build_coverage s batch_id),
            )
      ]

  -- The tail of `submit_measurements`, from the stored sets on.
  after_put-Advances :
      (l : Library) (sensor_id : String) (set : MeasurementSet) (sets : List MeasurementSet)
      (s₁ : Snapshot) (batch : CalibrationBatch) (profile : CalibrationProfile) (complete : Bool)
      → set.batch_id ≡ batch_id
      → put_measurements s (map some (set ∷ sets)) now ≡ ok s₁
      → Review.set_evaluation_status
          (CalibrationCommands.judge_sets l batch_id profile now 0 [] s₁ (set ∷ sets)).0
          batch_id
          complete
        ≡ ok t
      → Advances batch_id s t
  after_put-Advances l sensor_id set sets s₁ batch profile complete own put set_status =
      Advances-after_Keeps batch_id s s₁ t
        (subst (λ i. Keeps i s s₁) own (put_measurements-Keeps s set (map some sets) now s₁ put))
        (Advances-same batch_id s₁ _ t t
          (sym (judge_sets-same l batch_id profile now (set ∷ sets) 0 [] s₁)) refl
          (set_evaluation_status-Advances _ _ _ _ set_status))

  -- The successful run, step by step.
  pub submit_measurements-moves :
      (l : Library) (sensor_id actor : String) (inputs : List MeasurementInput)
      → CalibrationCommands.submit_measurements l batch_id sensor_id actor inputs now s ≡ ok (t, r)
      → Advances batch_id s t
  unfolding CalibrationCommands.submit_measurements CalibrationCommands.measured
      Evaluator.apply_statistics
  submit_measurements-moves l sensor_id actor [] h = ground (arith, put_measurements-nil s now)
  submit_measurements-moves l sensor_id actor (i ∷ is) h =
      let sets = CalibrationCommands.measured l batch_id sensor_id actor 0 (i ∷ is) in
      elim (Result-cases (put_measurements s (map some sets) now)) [
        | inr (e, q) ↦ ground arith
        | inl (s₁, q) ↦ elim (Option-cases (lookup batch_id s₁.batches)) [
          | inl missing ↦ ground arith
          | inr (b, found) ↦ elim (Option-cases (lookup b.profile_id s₁.profiles)) [
            | inl missing ↦ ground arith
            | inr (p, locked) ↦
                let s₂ = (CalibrationCommands.judge_sets l batch_id p now 0 [] s₁ sets).0 in
                elim (Result-cases (Evaluator.evaluate_batch l.format_6g s₂ batch_id)) [
                  | inr (e, q₂) ↦ ground arith
                  | inl (ev, q₂) ↦
                      elim (Result-cases (Review.set_evaluation_status s₂ batch_id ev.complete)) [
                        | inr (e, q₃) ↦ ground arith
                        | inl (s₃, q₃) ↦
                            let same : s₃ ≡ t =
                              ground (arith, Result-cases (find_batch s₃ batch_id)) in
                            after_put-Advances l sensor_id _ _ s₁ b p ev.complete refl q
                              (q₃ ∙ ap ok same)
                      ]
                ]
          ]
        ]
      ]

-- Every command but the creation of a batch that succeeds moves its batch by one version, along a
-- legal transition or none, and leaves all other batches alone.
pub mutate-moves :
    (h : Host) (m : CommandMeta) (id : String) (cmd : Command) (now : Time) (s t : Snapshot)
    (r : Response)
    → IsUpdate cmd
    → mutate h m id cmd now s ≡ ok (t, r)
    → Advances id s t
unfolding mutate
mutate-moves h m id (Command.create_batch code title) now s t r u q = elim u [ ]
mutate-moves h m id (Command.register_sensor i) now s t r u q =
    register_sensor-moves id now s t r _ i q
mutate-moves h m id (Command.lock_profile i) now s t r u q = lock_profile-moves id now s t r _ i q
mutate-moves h m id (Command.submit_measurement e i) now s t r u q =
    submit_measurements-moves id now s t r h.library e m.actor (i ∷ []) q
mutate-moves h m id (Command.submit_measurements e is) now s t r u q =
    submit_measurements-moves id now s t r h.library e m.actor is q
mutate-moves h m id (Command.recalibrate e note) now s t r u q =
    recalibrate-moves id now s t r h.library e note q
mutate-moves h m id (Command.review i) now s t r u q =
    review-moves id now s t r h.library m.actor i q
mutate-moves h m id (Command.resubmit_review comment) now s t r u q =
    resubmit_review-moves id now s t r m.actor comment q
mutate-moves h m id Command.issue now s t r u q = issue-moves id now s t r h.library m.actor q
