-- ===== src/Tests/Service.antt =====
-- The theorems on the commands of the service, applied.
use benzhi_project_fe3ad.Prelude.{◌≡◌, refl, true, is_blank}
use benzhi_project_fe3ad.Calibration.Errors.{ok}
use benzhi_project_fe3ad.Calibration.Types.{Snapshot, failed, frozen}
use benzhi_project_fe3ad.Calibration.Lifecycle.{capabilities}
use benzhi_project_fe3ad.Calibration.Effects.{Advances}
use benzhi_project_fe3ad.Calibration.Snapshot.{find_batch}
use benzhi_project_fe3ad.Calibration.Sensor
use benzhi_project_fe3ad.Calibration.Credential.{issue_credential}
use benzhi_project_fe3ad.Evaluation.Recalibration.{build_recalibration_tasks}
use benzhi_project_fe3ad.Ledger.Credential.{frozen_digest}
use benzhi_project_fe3ad.Workflow.Commands.{Command, Response}
use benzhi_project_fe3ad.Workflow.Answers.{blank_response}
use benzhi_project_fe3ad.Workflow.Service.{mutate}
use benzhi_project_fe3ad.Workflow.CalibrationCommands
use benzhi_project_fe3ad.Workflow.ReleaseCommands
use benzhi_project_fe3ad.Workflow.Effects.{mutate-moves}
use benzhi_project_fe3ad.Workflow.Powers.{needed, mutate-needed, mutate-sealed}
use benzhi_project_fe3ad.Tests.Samples.{host, meta, batch_at, snapshot_at, failed_snapshot, value}

abbrev recalibration : Command
recalibration = Command.recalibrate "e1" "cleaned"

abbrev pub recalibrated : Snapshot × Response
recalibrated =
    value (failed_snapshot, blank_response "" "")
      (mutate host meta "b1" recalibration 200 failed_snapshot)

recalibrated-eq :
    mutate host meta "b1" recalibration 200 failed_snapshot ≡ ok (recalibrated.0, recalibrated.1)
unfolding mutate CalibrationCommands.recalibrate Sensor.recalibrate_sensor is_blank
    build_recalibration_tasks
recalibrated-eq = refl

mutate-moves_example : Advances "b1" failed_snapshot recalibrated.0
mutate-moves_example =
    mutate-moves host meta "b1" recalibration 200 failed_snapshot recalibrated.0 recalibrated.1 tt
      recalibrated-eq

mutate-needed_example : needed recalibration (capabilities (batch_at failed)) ≡ true
unfolding find_batch
mutate-needed_example =
    mutate-needed host meta "b1" recalibration 200 failed_snapshot recalibrated.0 recalibrated.1
      (batch_at failed) tt refl recalibrated-eq

abbrev release : Snapshot × Response
release =
    value (snapshot_at frozen, blank_response "" "")
      (mutate host meta "b1" Command.issue 400 (snapshot_at frozen))

release-eq :
    mutate host meta "b1" Command.issue 400 (snapshot_at frozen) ≡ ok (release.0, release.1)
unfolding mutate ReleaseCommands.issue frozen_digest issue_credential
release-eq = refl

mutate-sealed_example : (Command.issue ≡ Command.issue) × (frozen ≡ frozen)
unfolding find_batch
mutate-sealed_example =
    mutate-sealed host meta "b1" Command.issue 400 (snapshot_at frozen) release.0 release.1
      (batch_at frozen) tt refl refl release-eq
