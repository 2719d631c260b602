-- ===== src/HttpApi/Codec.antt =====
-- internal/transport/httpapi/codec.go: the body of a request, and the answers. The JSON of the bodies
-- is a parameter; the JSON of an answer is left out.
use benzhi_project_fe3ad.Prelude.{
  ℕ, ◌==◌, Bool, true, false, not, ◌&&◌, Option, none, String, List, if◌then◌else◌,
}
use benzhi_project_fe3ad.Prelude.Int64.{Int64}
use benzhi_project_fe3ad.Calibration.Errors.{
  ErrorCode, code_validation, code_conflict, code_not_found, code_forbidden, code_integrity, Error,
  domain, plain, Result, ok, err, ◌>>=◌, ◌>>◌, reject, required, validation,
}
use benzhi_project_fe3ad.Calibration.Types.{ReleaseCredential, ReviewFinding}
use benzhi_project_fe3ad.Ledger.Event.{Event}
use benzhi_project_fe3ad.JsonStore.Reads.{IntegrityReport}
use benzhi_project_fe3ad.Workflow.Commands.{Response}
use benzhi_project_fe3ad.Workflow.Queries.{BatchView, RecalibrationTaskView, CredentialVerification}
use benzhi_project_fe3ad.Workflow.WorkQueue.{BatchQueueView}

pub record ApiError : Type 0 where
  pub code : String
  pub message : String
  pub current_version : Option Int64

-- The value that is written as JSON.
pub data Body : Type 0 where
  failure : ApiError → Body
  health : IntegrityReport → Body
  mutation : Response → Body
  queue : BatchQueueView → Body
  batch : BatchView → Body
  tasks : RecalibrationTaskView → Body
  credential : ReleaseCredential → Body
  verification : CredentialVerification → Body
  findings : List ReviewFinding → Body
  events : List Event → Body

pub record Answer : Type 0 where
  pub status : ℕ
  pub body : Body

-- `string(domainErr.Code)`
abbrev pub code_text : ErrorCode → String
code_text code_validation = "validation"
code_text code_conflict = "conflict"
code_text code_not_found = "not_found"
code_text code_forbidden = "forbidden"
code_text code_integrity = "integrity"

-- The status of a code, and `publicInternal`.
unfoldable pub status_of : ErrorCode → ℕ × Bool
status_of code_validation = (400, false)
status_of code_conflict = (409, false)
status_of code_not_found = (404, false)
status_of code_forbidden = (403, false)
status_of code_integrity = (500, true)

unfoldable pub write_error : Error → Answer
unfolding status_of
write_error (plain message) = record {
  status = 500;
  body = failure (record { code = "internal"; message = "服务内部错误"; current_version = none });
}
write_error (domain e) =
    let (status, public_internal) = status_of e.code in
    record {
      status = status;
      body = failure (record {
        code = code_text e.code;
        message = if status == 500 && not public_internal then "服务内部错误" else e.message;
        current_version = e.current_version;
      });
    }

-- `writeError` on an error, and else `writeJSON`.
abbrev pub respond {ℓ} : {V : Type ℓ} → (success : ℕ) → (V → Body) → Result V → Answer
respond success show (err e) = write_error e
respond success show (ok v) = record { status = success; body = show v }

-- Whether nothing but the one JSON object is in a body, to which the reader adds its bound of 1 MiB.
abbrev pub decode_body {ℓ} :
    {V : Type ℓ} → (decode : String → Option V) → (ends : String → Bool) → String → Result V
decode_body decode ends body = do
  v ← required (decode body) (validation "请求 JSON 无效: %v")
  reject (not (ends body)) (validation "请求只能包含一个 JSON 对象")
  ok v
