-- ===== src/HttpApi/Selfcheck.antt =====
-- internal/transport/httpapi/selfcheck.go: the scenario that the client runs against a server. The
-- address of the server, and the context of a call, are part of the network.
use Prim.Native.String.{◌++◌ as ◌<>◌}
use benzhi_project_fe3ad.Prelude.{
  ℕ, zero, suc, ◌*◌, ◌^◌, Option, none, some, String, List, [], ◌∷◌, ◌==◌, Bool, true, false,
}
use benzhi_project_fe3ad.Prelude.Int64.{Int64}
use benzhi_project_fe3ad.Float64.{Float64, finite, one, zero_float}
use benzhi_project_fe3ad.Calibration.Errors.{Error, plain, Result, ok, err}
use benzhi_project_fe3ad.HttpApi.Client.{
  Exec, ◌>>=◌, pure, lift, Leaf, Value, leaf, objects, Fields, MutationResult, ClientJson, Web,
  call, mutate, expect,
}
pub mod Exchanges
pub mod Network
pub mod Trace
pub mod Waiting
pub mod Released

-- `selfcheckClient`, without the address and the `http.Client`, which belong to the network.
pub record Client : Type 0 where
  pub batch_id : String
  pub version : Int64
  pub sensor_id : String

abbrev text_value : String → Value
text_value t = leaf (Leaf.text t)

abbrev int_value : Int64 → Value
int_value n = leaf (Leaf.integer n)

abbrev pub whole : ℕ → Float64
whole n = finite false (n * one)

-- The doubles next to 0.03, 0.1, 0.2, 99.8 and 100.2.
abbrev pub tolerance : Float64
tolerance = finite false (1080863910568919 * 2 ^ 1019)

abbrev pub tenth : Float64
tenth = finite false (3602879701896397 * 2 ^ 1019)

abbrev pub fifth : Float64
fifth = finite false (3602879701896397 * 2 ^ 1020)

abbrev pub below : Float64
below = finite false (7022800668930867 * 2 ^ 1028)

abbrev pub above : Float64
above = finite false (7050948166601933 * 2 ^ 1028)

-- The three fields that all commands have, before the others.
abbrev meta_fields : (actor : String) → Int64 → (key : String) → Fields → Fields
meta_fields actor version key rest =
    ("actor", text_value actor)
    ∷ ("expectedVersion", int_value version)
    ∷ ("idempotencyKey", text_value key)
    ∷ rest

abbrev pub batch_path : Client → String → String
batch_path c rest = "/v1/batches/" <> c.batch_id <> rest

abbrev bad_fields : String → Fields
bad_fields sensor_id =
    ("sensorRevisionID", text_value sensor_id)
    ∷ ("referencePoint", int_value 0)
    ∷ ("readings", leaf (Leaf.numbers (whole 5 ∷ whole 5 ∷ whole 5 ∷ [])))
    ∷ []

abbrev profile_fields : Fields
profile_fields =
    ("points", leaf (Leaf.numbers (zero_float ∷ whole 100 ∷ [])))
    ∷ ("repetitionsPerPoint", int_value 3)
    ∷ ("absoluteTolerance", int_value 2)
    ∷ ("relativeTolerance", leaf (Leaf.number tolerance))
    ∷ ("repeatabilityLimit", int_value 2)
    ∷ []

abbrev good_readings : List (String × Leaf)
good_readings =
    ("referencePoint", Leaf.integer 100)
    ∷ ("readings", Leaf.numbers (below ∷ whole 100 ∷ above ∷ []))
    ∷ []

abbrev pub last_paths : Client → List String
last_paths c =
    "/v1/batches?stationCode=CN-SH-017&limit=10"
    ∷ batch_path c ""
    ∷ batch_path c "/findings"
    ∷ batch_path c "/audit"
    ∷ []

abbrev pub verification_fields : String × String → Fields
verification_fields (id, digest) =
    ("credentialID", text_value id) ∷ ("contentDigest", text_value digest) ∷ []

module _ (w : Web) (j : ClientJson) where
  -- One command of the batch.
  abbrev post :
      Client
      → (path actor : String) → Int64
      → (key : String) → Fields
      → ℕ
      → Exec w.State MutationResult
  post c path actor version key fields expected =
      mutate w j "POST" (batch_path c path) (meta_fields actor version key fields) expected

  -- The creation of the batch, its sensor and its profile.
  unfoldable pub set_up : Exec w.State Client
  set_up = do
    created ←
        mutate w j "POST" "/v1/batches"
          (meta_fields "tech-a" 0 "create-1"
            (("stationCode", text_value "CN-SH-017") ∷ ("title", text_value "PM2.5 传感器部署前校准") ∷ []))
          201
    let c : Client = record {
      batch_id = created.batch_id;
      version = created.version;
      sensor_id = "";
    }
    sensor ←
        post c "/sensors" "tech-a" c.version "sensor-1"
          (("sensorCode", text_value "PM25-A01")
            ∷ ("metric", text_value "PM2.5")
            ∷ ("unit", text_value "ug/m3")
            ∷ ("rangeMin", int_value 0)
            ∷ ("rangeMax", int_value 500)
            ∷ [])
          201
    locked ← post c "/profile:lock" "tech-a" sensor.version "profile-1" profile_fields 200
    pure (record c { sensor_id = sensor.id; version = locked.version })

  -- A point out of tolerance, its replay with the version of before, a point within tolerance, and a
  -- review that expects a version of the past.
  unfoldable pub sample : Client → Exec w.State Client
  sample c = do
    bad ← post c "/measurements" "tech-a" c.version "measure-bad" (bad_fields c.sensor_id) 201
    replayed ← post c "/measurements" "tech-a" c.version "measure-bad" (bad_fields c.sensor_id) 201
    good ←
        post c "/measurements:batch" "tech-a" bad.version "measure-good"
          (("sensorRevisionID", text_value c.sensor_id)
            ∷ ("measurements", objects (good_readings ∷ []))
            ∷ [])
          201
    conflict ←
        expect w j "POST" (batch_path c "/reviews")
          (some (meta_fields "reviewer-b" 0 "conflict" (("decision", text_value "approve") ∷ [])))
          409 "未得到预期版本冲突，status=%d err=%v"
    pure (record c { version = good.version })

  -- The recalibration, its tasks, and the retest of the point.
  unfoldable pub correct : Client → Exec w.State Client
  correct c = do
    revision ←
        post c "/recalibrations" "tech-a" c.version "recal-1"
          (("sensorRevisionID", text_value c.sensor_id) ∷ ("note", text_value "完成零点校正并复核接线") ∷ [])
          201
    tasks ←
        expect w j "GET" (batch_path c ("/recalibrations/" <> revision.id <> "/tasks")) none 200
          "复验任务查询失败: status=%d err=%v"
    retest ←
        post c "/measurements" "tech-a" revision.version "retest-1"
          (("sensorRevisionID", text_value revision.id)
            ∷ ("referencePoint", int_value 0)
            ∷ ("readings", leaf (Leaf.numbers (tenth ∷ zero_float ∷ fifth ∷ [])))
            ∷ [])
          201
    pure (record c { sensor_id = revision.id; version = retest.version })

  unfoldable pub release : Client → Exec w.State Client
  release c = do
    approved ←
        post c "/reviews" "reviewer-b" c.version "review-1"
          (("decision", text_value "approve") ∷ ("comment", text_value "采样完整，返校问题已闭环") ∷ []) 200
    issued ← post c "/release" "deployer-c" approved.version "release-1" [] 201
    pure (record c { version = issued.version })

  -- The loop over the paths.
  unfoldable pub get_all : List String → Exec w.State (Unit {0})
  get_all [] = pure tt
  get_all (path ∷ paths) =
      expect w j "GET" path none 200 "查询 %s 失败: status=%d err=%v" >>= λ received. get_all paths

  -- The credential, its verification, and the other queries.
  unfoldable pub check_release : Client → Exec w.State Client
  unfolding get_all
  check_release c = do
    received ← expect w j "GET" (batch_path c "/credential") none 200 "凭据查询失败: status=%d err=%v"
    credential ← lift (j.unmarshal_credential received)
    verified ←
        expect w j "POST" (batch_path c "/credential:verify")
          (some (verification_fields credential)) 200 "凭据核验失败: status=%d err=%v"
    done ← get_all (last_paths c)
    pure c

  -- What the client knows at the end stands in place of its fields.
  unfoldable pub run : Exec w.State Client
  unfolding set_up sample correct release check_release
  run = set_up >>= sample >>= correct >>= release >>= check_release

  abbrev pub is_healthy : Result (ℕ × String) → Bool
  is_healthy (err e) = false
  is_healthy (ok (status, received)) = status == 200

  -- The loop, with the ticks that come before the context is done.
  unfoldable pub wait_healthy : ℕ → Exec w.State (Unit {0})
  wait_healthy zero s =
      let (s', r) = call w j "GET" "/healthz" none s in
      elim (is_healthy r) [ true ↦ (s', ok tt) | false ↦ (s', err (plain "等待健康检查: %w")) ]
  wait_healthy (suc ticks) s =
      let (s', r) = call w j "GET" "/healthz" none s in
      elim (is_healthy r) [ true ↦ (s', ok tt) | false ↦ wait_healthy ticks s' ]

-- What `Serve` has returned when the server is shut down: nil or `ErrServerClosed`, another error, or
-- nothing before the context is done.
pub data Served : Type 0 where
  closed : Served
  broken : Error → Served
  unfinished : Error → Served

abbrev pub served_result : Served → Result (Unit {0})
served_result closed = ok tt
served_result (broken e) = err e
served_result (unfinished e) = err e

module _ (w : Web) (j : ClientJson) where
  unfoldable pub run_selfcheck :
      (ticks : ℕ) → (shutdown : Result (Unit {0})) → Served → Exec w.State (Unit {0})
  unfolding wait_healthy run
  run_selfcheck ticks shutdown served = do
    healthy ← wait_healthy w j ticks
    c ← run w j
    stopped ← lift shutdown
    lift (served_result served)
