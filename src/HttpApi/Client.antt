-- ===== src/HttpApi/Client.antt =====
-- internal/transport/httpapi/selfcheck.go: the calls of the client. The network with the server behind
-- it is a parameter with a state of its own, and so is the client's JSON.
use benzhi_project_fe3ad.Prelude.{
  ℕ, Option, none, some, String, List, ◌==◌, if◌then◌else◌, ◌≡◌, ap, arith,
}
use benzhi_project_fe3ad.Prelude.Int64.{Int64}
use benzhi_project_fe3ad.Float64.{Float64}
pub use benzhi_project_fe3ad.Exec.{Exec, continue, ◌>>=◌, pure, lift, continue-ok}
use benzhi_project_fe3ad.Calibration.Errors.{plain, Result, ok, err}

-- The values in the client's bodies, which are maps from names to `any`.
pub data Leaf : Type 0 where
  text : String → Leaf
  integer : Int64 → Leaf
  number : Float64 → Leaf
  numbers : List Float64 → Leaf

pub data Value : Type 0 where
  leaf : Leaf → Value
  objects : List (List (String × Leaf)) → Value

abbrev pub Fields : Type 0
Fields = List (String × Value)

pub record MutationResult : Type 0 where
  pub batch_id : String
  pub id : String
  pub status : String
  pub version : Int64

-- The client's `encoding/json`, for bodies, for the answers to commands, and for the id and digest of
-- a credential.
pub record ClientJson : Type 0 where
  pub marshal : Fields → Result String
  pub unmarshal_result : String → Result MutationResult
  pub unmarshal_credential : String → Result (String × String)

-- One exchange: the method, the path and the body; the status and the data of the answer, of which the
-- reader hands over 2 MiB at most.
pub record Web : Type 1 where
  pub State : Type 0
  pub request : State → (method path : String) → Option String → State × Result (ℕ × String)

module _ (w : Web) (j : ClientJson) where
  unfoldable pub call : (method path : String) → Option Fields → Exec w.State (ℕ × String)
  call method path none s = w.request s method path none
  call method path (some fields) s =
      continue (s, j.marshal fields) (λ body t. w.request t method path (some body))

  -- `status != expected` after the error.
  abbrev pub expected_text : ℕ → String → ℕ × String → Result String
  expected_text expected message (status, data_text) =
      if status == expected then ok data_text else err (plain message)

  unfoldable pub mutate :
      (method path : String) → Fields → (expected : ℕ) → Exec w.State MutationResult
  mutate method path fields expected = do
    answer ← call method path (some fields)
    received ← lift (expected_text expected "%s %s 返回 %d，期望 %d: %s" answer)
    lift (j.unmarshal_result received)

  -- `if err != nil || status != expected` with one message for both.
  abbrev pub judge : ℕ → String → w.State × Result (ℕ × String) → w.State × Result String
  judge expected message (s, err e) = (s, err (plain message))
  judge expected message (s, ok answer) = (s, expected_text expected message answer)

  abbrev pub expect :
      (method path : String) → Option Fields → ℕ → (message : String) → Exec w.State String
  expect method path fields expected message s = judge expected message (call method path fields s)

module _ (w : Web) (j : ClientJson) where
  pub expected_text-status :
      (expected : ℕ) (message : String) (answer : ℕ × String) (received : String)
      → expected_text w j expected message answer ≡ ok received
      → (answer.0 ≡ expected) × (answer.1 ≡ received)
  expected_text-status expected message answer received same = (ground arith, ground arith)

  -- A step with an expected status that ends without an error has had an answer of that status.
  pub judge-ok :
      (expected : ℕ) (message : String) (r : w.State × Result (ℕ × String)) (t : w.State)
      (received : String)
      → judge w j expected message r ≡ (t, ok received)
      → (answer : ℕ × String) × (r ≡ (t, ok answer)) × (answer.0 ≡ expected) × (answer.1 ≡ received)
  judge-ok expected message (s, err e) t received same = cc
  judge-ok expected message (s, ok answer) t received same =
      let (status, rest) =
        expected_text-status expected message answer received (ap (λ x. x.1) same) in
      (answer, ap (λ x. (x.0, ok answer)) same, status, rest)
