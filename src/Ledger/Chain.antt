-- ===== src/Ledger/Chain.antt =====
-- internal/audit/ledger/chain.go: the digest of an event, and the chain of digests. JSON encoding of
-- the material and SHA-256 in hexadecimal are parameters.
use benzhi_project_fe3ad.Prelude.{ℕ, not, ◌==◌, String, List, [], ◌∷◌, str_eq}
use benzhi_project_fe3ad.Prelude.Int64.{Int64, inc}
use benzhi_project_fe3ad.Calibration.Errors.{Result, ok, err, ◌>>=◌, ◌>>◌, reject, plain}
use benzhi_project_fe3ad.Ledger.Event.{Event, EventHashMaterial}
pub mod Links
pub mod Tampering

module _ (marshal : EventHashMaterial → Result String) (sha256 : String → String) where
  unfoldable pub compute_digest : Event → Result String
  compute_digest event = do text ← marshal event.material; ok (sha256 text)

  unfoldable pub seal : Event → Result Event
  unfolding compute_digest
  seal event = do digest ← compute_digest event; ok (record event { digest = digest })

  -- The loop of `VerifyChain`, with `int64(i)` and `previous`.
  unfoldable pub verify_from : Int64 → String → List Event → Result (Unit {0})
  unfolding compute_digest
  verify_from i previous [] = ok tt
  verify_from i previous (event ∷ events) = do
    reject (not (event.sequence == inc i)) (plain "审计序号不连续：位置 %d 的序号为 %d")
    reject (not (str_eq event.previous_digest previous)) (plain "审计事件 %d 的前序摘要不匹配")
    digest ← compute_digest event
    reject (not (str_eq digest event.digest)) (plain "审计事件 %d 内容摘要不匹配")
    verify_from (inc i) event.digest events

  unfoldable pub verify_chain : List Event → Result (Unit {0})
  unfolding verify_from
  verify_chain events = verify_from 0 "" events
