-- ===== src/Calibration/Lifecycle.antt =====
-- internal/domain/calibration/lifecycle.go: the legal transitions of a batch, and the capabilities
-- that each status grants.
use benzhi_project_fe3ad.Prelude.{◌≡◌, refl, Bool, true, false, String, str_eq, if◌then◌else◌}
use benzhi_project_fe3ad.Prelude.Int64.{inc}
use benzhi_project_fe3ad.Calibration.Errors.{Result, ok, err, conflict, validation}
use benzhi_project_fe3ad.Calibration.Types.{
  BatchStatus, draft, plan_locked, sampling, failed, ready_review, returned, frozen, released,
  other, CalibrationBatch,
}
pub mod Paths

pub record Capabilities : Type 0 where
  pub register_sensor : Bool
  pub lock_profile : Bool
  pub submit_reading : Bool
  pub recalibrate : Bool
  pub return_review : Bool
  pub approve_review : Bool
  pub resubmit_review : Bool
  pub issue_credential : Bool
  pub query_only : Bool

-- `legalTransitions` and its lookup.
unfoldable pub allowed_transition : BatchStatus → BatchStatus → Bool
allowed_transition draft plan_locked = true
allowed_transition plan_locked sampling = true
allowed_transition plan_locked failed = true
allowed_transition plan_locked ready_review = true
allowed_transition sampling sampling = true
allowed_transition sampling failed = true
allowed_transition sampling ready_review = true
allowed_transition failed sampling = true
allowed_transition failed returned = true
allowed_transition ready_review returned = true
allowed_transition ready_review frozen = true
allowed_transition returned returned = true
allowed_transition returned ready_review = true
allowed_transition frozen released = true
allowed_transition _ _ = false

unfoldable pub move_to : CalibrationBatch → BatchStatus → Result CalibrationBatch
unfolding allowed_transition
move_to b next =
    if allowed_transition b.status next
    then ok (record b { status = next; version = inc b.version })
    else err (conflict "批次不能从 %s 转换到 %s")

abbrev no_capabilities : Capabilities
no_capabilities = record {
  register_sensor = false;
  lock_profile = false;
  submit_reading = false;
  recalibrate = false;
  return_review = false;
  approve_review = false;
  resubmit_review = false;
  issue_credential = false;
  query_only = false;
}

abbrev capabilities_of : BatchStatus → Capabilities
capabilities_of draft = record no_capabilities { register_sensor = true; lock_profile = true }
capabilities_of plan_locked = record no_capabilities { submit_reading = true }
capabilities_of sampling = record no_capabilities { submit_reading = true }
capabilities_of failed = record no_capabilities {
  submit_reading = true;
  recalibrate = true;
  return_review = true;
}
capabilities_of ready_review = record no_capabilities {
  return_review = true;
  approve_review = true;
}
capabilities_of returned = record no_capabilities {
  submit_reading = true;
  recalibrate = true;
  resubmit_review = true;
}
capabilities_of frozen = record no_capabilities { issue_credential = true }
capabilities_of released = record no_capabilities { query_only = true }
capabilities_of (other s) = no_capabilities

unfoldable pub capabilities : CalibrationBatch → Capabilities
capabilities b = capabilities_of b.status

-- Each name of the `switch` with the capability that it asks for.
capability : Capabilities → String → Result Bool
capability c name =
    if str_eq name "register_sensor"
    then ok c.register_sensor
    else if str_eq name "lock_profile"
    then ok c.lock_profile
    else if str_eq name "submit_reading"
    then ok c.submit_reading
    else if str_eq name "recalibrate"
    then ok c.recalibrate
    else if str_eq name "return_review"
    then ok c.return_review
    else if str_eq name "approve_review"
    then ok c.approve_review
    else if str_eq name "issue_credential"
    then ok c.issue_credential
    else err (validation "未知领域能力 %s")

unfoldable pub require_capability : CalibrationBatch → String → Result (Unit {0})
unfolding capabilities capability
require_capability b name = elim (capability (capabilities b) name) [
  | err e ↦ err e
  | ok allowed ↦ if allowed then ok tt else err (conflict "批次状态 %s 不允许操作 %s")
]
