-- ===== src/Tests/Scenario.antt =====
-- The scenario of internal/transport/httpapi/selfcheck.go against the handlers: the snapshots on its
-- way, with stand-ins for the ids, JSON and SHA-256.
use Prim.Native.String.{◌++◌ as ◌<>◌}
use benzhi_project_fe3ad.Prelude.{ℕ, zero, suc, ◌+◌, String, [], ◌∷◌}
use benzhi_project_fe3ad.Float64.{zero_float}
use benzhi_project_fe3ad.Calibration.Types.{Snapshot}
use benzhi_project_fe3ad.Calibration.Snapshot.{new_snapshot}
use benzhi_project_fe3ad.JsonStore.Model.{no_faults}
use benzhi_project_fe3ad.Workflow.Commands.{
  CommandMeta, Command, Response, SensorInput, ProfileInput, MeasurementInput, ReviewInput,
}
use benzhi_project_fe3ad.Workflow.Answers.{blank_response}
use benzhi_project_fe3ad.Workflow.Service.{Host, mutate}
use benzhi_project_fe3ad.HttpApi.Selfcheck.{whole, tolerance, tenth, fifth, below, above}
use benzhi_project_fe3ad.HttpApi.Selfcheck.Network.{Environment, delivered}
use benzhi_project_fe3ad.Tests.Samples.{host, value}

abbrev pub stars : ℕ → String
stars zero = ""
stars (suc n) = "*" <> stars n

-- The n-th request: nothing fails, and no id stands twice.
abbrev pub environment : ℕ → Environment
environment n = record {
  faults = no_faults;
  now = 100 + n;
  fresh = λ prefix k. prefix <> stars n <> "-" <> stars k;
  delivery = delivered;
}

abbrev pub host_at : ℕ → Host
host_at n = record host { library = record host.library { fresh = (environment n).fresh } }

abbrev by : String → CommandMeta
by actor = record { actor = actor; expected_version = 0; idempotency_key = "" }

-- The snapshot that the n-th request leaves, and its answer.
abbrev step : ℕ → String → Command → Snapshot → Snapshot × Response
step n actor cmd s =
    value (s, blank_response "" "") (mutate (host_at n) (by actor) "b1" cmd (100 + n) s)

abbrev pub new_sensor : SensorInput
new_sensor = record {
  sensor_code = "PM25-A01";
  metric = "PM2.5";
  unit = "ug/m3";
  range_min = zero_float;
  range_max = whole 500;
}

abbrev pub new_profile : ProfileInput
new_profile = record {
  points = zero_float ∷ whole 100 ∷ [];
  repetitions_per_point = 3;
  absolute_tolerance = whole 2;
  relative_tolerance = tolerance;
  repeatability_limit = whole 2;
}

abbrev pub bad_point : MeasurementInput
bad_point = record { reference_point = zero_float; readings = whole 5 ∷ whole 5 ∷ whole 5 ∷ [] }

abbrev pub good_point : MeasurementInput
good_point = record { reference_point = whole 100; readings = below ∷ whole 100 ∷ above ∷ [] }

abbrev pub retest_point : MeasurementInput
retest_point = record { reference_point = zero_float; readings = tenth ∷ zero_float ∷ fifth ∷ [] }

abbrev pub note : String
note = "完成零点校正并复核接线"

abbrev pub approval : ReviewInput
approval = record { decision = "approve"; comment = "采样完整，返校问题已闭环"; corrections = [] }

-- The requests that change the batch have the numbers 0 to 3, 5, 7, 9, 10 and 11.
abbrev pub s1 : Snapshot
s1 = (step 0 "tech-a" (Command.create_batch "CN-SH-017" "PM2.5 传感器部署前校准") new_snapshot).0

abbrev pub s2 : Snapshot
s2 = (step 1 "tech-a" (Command.register_sensor new_sensor) s1).0

abbrev pub s3 : Snapshot
s3 = (step 2 "tech-a" (Command.lock_profile new_profile) s2).0

abbrev pub s4 : Snapshot
s4 = (step 3 "tech-a" (Command.submit_measurement "sensor*-" bad_point) s3).0

abbrev pub s5 : Snapshot
s5 = (step 5 "tech-a" (Command.submit_measurements "sensor*-" (good_point ∷ [])) s4).0

abbrev pub s6 : Snapshot
s6 = (step 7 "tech-a" (Command.recalibrate "sensor*-" note) s5).0

abbrev pub s7 : Snapshot
s7 = (step 9 "tech-a" (Command.submit_measurement "sensor*******-" retest_point) s6).0

abbrev pub s8 : Snapshot
s8 = (step 10 "reviewer-b" (Command.review approval) s7).0

abbrev pub s9 : Snapshot
s9 = (step 11 "deployer-c" Command.issue s8).0
