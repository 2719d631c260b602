-- ===== src/Workflow/Queries/Tasks.antt =====
-- The counts of a retest view of queries.go.
use benzhi_project_fe3ad.Prelude.{
  ◌+◌, ◌≡◌, ◌≢◌, str_eq, sort, refl, inl, inr, not, ◌&&◌, ◌||◌, String, List, [], ◌∷◌, All, select,
  length, Option-cases, arith,
}
use benzhi_project_fe3ad.Prelude.Maps.{lookup, values}
use benzhi_project_fe3ad.Prelude.Sorting.{All-sort, All-select, length-sort}
use benzhi_project_fe3ad.Float64.{flt}
use benzhi_project_fe3ad.Calibration.Errors.{Result, ok, Result-cases}
use benzhi_project_fe3ad.Calibration.Types.{Snapshot, RecalibrationTask}
use benzhi_project_fe3ad.Calibration.Validation.Records.{
  validate_snapshot, validate_recalibration_task,
}
use benzhi_project_fe3ad.Calibration.Validation.Facts.{validate_snapshot-IsChecked, All-values}
use benzhi_project_fe3ad.Calibration.Snapshot.{find_batch, recalibration_tasks_for_revision}
use benzhi_project_fe3ad.Ledger.Credential.{FrozenMaterial}
use benzhi_project_fe3ad.JsonStore.Model.{Codec, Store, clone_snapshot}
use benzhi_project_fe3ad.Workflow.Commands.{Response}
use benzhi_project_fe3ad.Workflow.Queries.{
  recalibration_tasks, RecalibrationTaskView, count_tasks, is_completed, is_pending, is_failed,
  is_inherited_task,
}

abbrev TaskCounts : List RecalibrationTask → Type 0
TaskCounts ts =
    (length (select (λ t. t.required) ts)
      ≡ length (select is_completed ts)
        + length (select is_pending ts)
        + length (select is_failed ts))
    × (length ts ≡ length (select (λ t. t.required) ts) + length (select is_inherited_task ts))

task_kind :
    (s : Snapshot) (t : RecalibrationTask)
    → validate_recalibration_task s t ≡ ok tt
    → (t.required ≡ is_completed t || (is_pending t || is_failed t))
      × (is_inherited_task t ≡ not t.required)
unfolding validate_recalibration_task
task_kind s t h = elim (Option-cases (lookup t.sensor_revision_id s.sensors)) [
  | inl missing ↦ ground arith
  | inr (e, found) ↦ ground arith
]

tasks-counts :
    (s : Snapshot) (ts : List RecalibrationTask)
    → All (λ t. validate_recalibration_task s t ≡ ok tt) ts
    → TaskCounts ts
tasks-counts s [] h = (refl, refl)
tasks-counts s (t ∷ ts) h = ground (arith, task_kind s t h.0, tasks-counts s ts h.1)

-- A retest view of a valid projection is of at least one task. Its points to retest are those that
-- are done, that are pending and that have failed, and with the inherited ones they are all the tasks.
pub recalibration_tasks-total :
    (c : Codec Response) (marshal : FrozenMaterial → Result String) (sha256 : String → String)
    (store : Store) (s : Snapshot) (batch_id revision_id : String) (v : RecalibrationTaskView)
    → clone_snapshot c store.projection ≡ ok s
    → validate_snapshot s ≡ ok tt
    → recalibration_tasks c marshal sha256 store batch_id revision_id ≡ ok v
    → (length v.tasks ≢ 0)
      × (v.required_points ≡ v.completed_points + v.pending_points + v.failed_points)
      × (length v.tasks ≡ v.required_points + v.inherited_points)
unfolding recalibration_tasks recalibration_tasks_for_revision count_tasks
recalibration_tasks-total c marshal sha256 store s batch_id revision_id v cloned valid h =
    let Valid = λ (t : RecalibrationTask). validate_recalibration_task s t ≡ ok tt in
    let in_order = λ (a b : RecalibrationTask). flt a.reference_point b.reference_point in
    let own = λ (t : RecalibrationTask).
      str_eq t.batch_id batch_id && str_eq t.sensor_revision_id revision_id in
    let all =
      All-values (λ t. t.id) (validate_recalibration_task s) s.recalibration_tasks
        (validate_snapshot-IsChecked s valid).tasks in
    let tasks = select own (values s.recalibration_tasks) in
    let counted =
      tasks-counts s (sort in_order tasks)
        (All-sort Valid in_order tasks (All-select Valid own (values s.recalibration_tasks) all)) in
    elim (Result-cases (find_batch s batch_id)) [
      | inr (e, q) ↦ ground arith
      | inl (b, q) ↦ elim (Option-cases (lookup revision_id s.sensors)) [
        | inl missing ↦ ground arith
        | inr (e, found) ↦ ground (arith, counted, length-sort in_order tasks)
      ]
    ]
