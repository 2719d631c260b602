-- ===== src/Tests/Server.antt =====
-- A server for the scenario of internal/transport/httpapi/selfcheck.go: stand-ins for JSON and for the
-- multiplexer, over the snapshots on the way of the scenario.
use Prim.Native.String.{◌++◌ as ◌<>◌}
use benzhi_project_fe3ad.Prelude.{
  suc, true, ◌&&◌, Option, none, some, String, List, [], ◌∷◌, str_eq, if◌then◌else◌,
}
use benzhi_project_fe3ad.Prelude.Int64.{Int64}
use benzhi_project_fe3ad.Prelude.Maps.{lookup}
use benzhi_project_fe3ad.Calibration.Errors.{Result, ok, err, plain}
use benzhi_project_fe3ad.Calibration.Types.{Snapshot}
use benzhi_project_fe3ad.Calibration.Snapshot.{new_snapshot}
use benzhi_project_fe3ad.JsonStore.Commit.{current_version}
use benzhi_project_fe3ad.Workflow.Commands.{CommandMeta, Response}
use benzhi_project_fe3ad.Workflow.Answers.{blank_response}
use benzhi_project_fe3ad.Workflow.Service.{Host}
use benzhi_project_fe3ad.HttpApi.Codec.{Body}
use benzhi_project_fe3ad.HttpApi.Router.{HttpRequest, Api, Bodies, Route}
use benzhi_project_fe3ad.HttpApi.Client.{Leaf, leaf, Fields, MutationResult, ClientJson}
use benzhi_project_fe3ad.Tests.Samples.{host, codec}
use benzhi_project_fe3ad.Tests.Cursors.{cursors}
use benzhi_project_fe3ad.Tests.Scenario.{
  stars, new_sensor, new_profile, bad_point, good_point, retest_point, note, approval, s1, s2, s3,
  s4, s5, s6, s7, s8, s9,
}

-- JSON writes a number and a text behind it, and reads them again.
abbrev after_star : Int64 × String → Int64 × String
after_star (n, t) = (suc n, t)

abbrev write_pair : Int64 → String → String
write_pair n t = stars n <> t

unfoldable pub read_pair : String → Int64 × String
read_pair String.[] = (0, "")
read_pair (String.◌∷◌ c t) =
    let rest = read_pair t in
    if str_eq (String.◌∷◌ c "") "*" then after_star rest else (0, String.◌∷◌ c t)

abbrev snapshots : List (String × Snapshot)
snapshots =
    ("", new_snapshot)
    ∷ ("*", s1)
    ∷ ("**", s2)
    ∷ ("***", s3)
    ∷ ("****", s4)
    ∷ ("*****", s5)
    ∷ ("******", s6)
    ∷ ("*******", s7)
    ∷ ("********", s8)
    ∷ ("*********", s9)
    ∷ []

abbrev or_error : Option Snapshot → Result Snapshot
or_error none = err (plain "json")
or_error (some s) = ok s

abbrev response_of : Int64 × String → Response
response_of (version, id) = record (blank_response "b1" id) { version = version }

unfoldable pub scenario_host : Host
unfolding read_pair
scenario_host = record host {
  codec = record {
    marshal_snapshot = λ s. ok (stars (current_version s "b1"));
    unmarshal_snapshot = λ t. or_error (lookup t snapshots);
    marshal_material = λ m. ok m.previous_digest;
    marshal_response = λ r. ok (write_pair r.version r.id);
    sha256 = codec.sha256;
  };
  unmarshal_response = λ t. ok (response_of (read_pair t));
}

-- A body is its key and its version.
abbrev field_text : String → Fields → String
field_text name [] = ""
field_text name ((key, leaf (Leaf.text t)) ∷ fields) =
    let rest = field_text name fields in if str_eq key name then t else rest
field_text name (_ ∷ fields) = field_text name fields

abbrev field_version : Fields → Int64
field_version [] = 0
field_version ((key, leaf (Leaf.integer n)) ∷ fields) =
    let rest = field_version fields in if str_eq key "expectedVersion" then n else rest
field_version (_ ∷ fields) = field_version fields

abbrev pub credential_id : String
credential_id = "credential" <> stars 11 <> "-"

abbrev marshal : Fields → Result String
marshal [] = err (plain "json")
marshal ((name, v) ∷ fields) =
    let all = (name, v) ∷ fields in
    if str_eq name "credentialID"
    then (if str_eq (field_text "credentialID" all) credential_id
          && str_eq (field_text "contentDigest" all) "#frozen"
        then ok "verify"
        else err (plain "json"))
    else ok (write_pair (field_version all) (field_text "idempotencyKey" all))

abbrev result_of : Int64 × String → MutationResult
result_of (version, id) = record { batch_id = "b1"; id = id; status = ""; version = version }

unfoldable pub json : ClientJson
unfolding read_pair
json = record {
  marshal = marshal;
  unmarshal_result = λ t. ok (result_of (read_pair t));
  unmarshal_credential = λ t. ok (t, "#frozen");
}

abbrev pub render : Body → String
render (Body.mutation r) = write_pair r.version r.id
render (Body.credential c) = c.id
render _ = ""

-- A body with that key, as it is read.
abbrev keyed_body {ℓ} :
    {V : Type ℓ} → (actor key : String) → (CommandMeta → V) → Int64 × String → Option V
keyed_body actor key read (version, k) =
    if str_eq k key
    then some (read (record { actor = actor; expected_version = version; idempotency_key = key }))
    else none

abbrev or_else {ℓ} : {V : Type ℓ} → Option V → Option V → Option V
or_else none o = o
or_else (some v) o = some v

unfoldable pub bodies : Bodies
unfolding read_pair
bodies = record {
  create_batch =
      λ t. keyed_body "tech-a" "create-1" (λ m. (m, "CN-SH-017", "PM2.5 传感器部署前校准")) (read_pair t);
  register_sensor = λ t. keyed_body "tech-a" "sensor-1" (λ m. (m, new_sensor)) (read_pair t);
  lock_profile = λ t. keyed_body "tech-a" "profile-1" (λ m. (m, new_profile)) (read_pair t);
  submit_measurement = λ t.
      or_else (keyed_body "tech-a" "measure-bad" (λ m. (m, "sensor*-", bad_point)) (read_pair t))
        (keyed_body "tech-a" "retest-1" (λ m. (m, "sensor*******-", retest_point)) (read_pair t));
  submit_measurements =
      λ t. keyed_body "tech-a" "measure-good" (λ m. (m, "sensor*-", good_point ∷ [])) (read_pair t);
  recalibrate = λ t. keyed_body "tech-a" "recal-1" (λ m. (m, "sensor*-", note)) (read_pair t);
  review = λ t.
      or_else
        (keyed_body "reviewer-b" "conflict" (λ m. (m, record approval { comment = "" }))
          (read_pair t))
        (keyed_body "reviewer-b" "review-1" (λ m. (m, approval)) (read_pair t));
  resubmit_review = λ t. none;
  issue = λ t. keyed_body "deployer-c" "release-1" (λ m. m) (read_pair t);
  verify_credential = λ t. if str_eq t "verify" then some (credential_id, "#frozen") else none;
  ends = λ t. true;
}

abbrev pub api : Api
api = record {
  host = scenario_host;
  bodies = bodies;
  parser = record { atoi = λ t. none; parse_time = λ t. none };
  cursors = cursors;
}

abbrev pub request : HttpRequest
request = record { batch_id = "b1"; revision_id = "sensor*******-"; query = λ name. ""; body = "" }

abbrev pub get_route : String → Option (Route × HttpRequest)
get_route path =
    if str_eq path "/v1/batches?stationCode=CN-SH-017&limit=10"
    then some (Route.get_batches, request)
    else if str_eq path "/v1/batches/b1"
    then some (Route.get_one_batch, request)
    else if str_eq path "/v1/batches/b1/recalibrations/sensor*******-/tasks"
    then some (Route.get_tasks, request)
    else if str_eq path "/v1/batches/b1/credential"
    then some (Route.get_release, request)
    else if str_eq path "/v1/batches/b1/findings"
    then some (Route.get_findings, request)
    else if str_eq path "/v1/batches/b1/audit"
    then some (Route.get_audit, request)
    else none

abbrev pub post_route : String → Option (Route × HttpRequest)
post_route path =
    if str_eq path "/v1/batches"
    then some (Route.post_batch, request)
    else if str_eq path "/v1/batches/b1/sensors"
    then some (Route.post_sensor, request)
    else if str_eq path "/v1/batches/b1/profile:lock"
    then some (Route.post_profile, request)
    else if str_eq path "/v1/batches/b1/measurements"
    then some (Route.post_measurement, request)
    else if str_eq path "/v1/batches/b1/measurements:batch"
    then some (Route.post_measurements, request)
    else if str_eq path "/v1/batches/b1/recalibrations"
    then some (Route.post_recalibration, request)
    else if str_eq path "/v1/batches/b1/reviews"
    then some (Route.post_review, request)
    else if str_eq path "/v1/batches/b1/release"
    then some (Route.post_release, request)
    else if str_eq path "/v1/batches/b1/credential:verify"
    then some (Route.post_verification, request)
    else none

abbrev pub route : (method path : String) → Option (Route × HttpRequest)
route method path = if str_eq method "GET" then get_route path else post_route path
