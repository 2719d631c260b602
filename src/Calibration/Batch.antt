-- ===== src/Calibration/Batch.antt =====
-- internal/domain/calibration/batch.go. A method that changes the batch returns the new one; on an
-- error the half-changed batch is not kept, since every caller drops its copy of the snapshot then.
use benzhi_project_fe3ad.Prelude.{
  Bool, not, ◌&&◌, ◌||◌, ◌==◌, none, some, String, [], ◌∷◌, ◌++◌, str_eq, any, is_blank,
  if◌then◌else◌,
}
use benzhi_project_fe3ad.Prelude.Int64.{Int64, inc}
use benzhi_project_fe3ad.Calibration.Errors.{
  Result, ok, ◌>>◌, reject, validation, conflict, version_conflict, forbidden,
}
use benzhi_project_fe3ad.Calibration.Types.{
  BatchStatus, draft, ready_review, returned, frozen, released, status_eq, CalibrationBatch, Time,
}
use benzhi_project_fe3ad.Calibration.Lifecycle.{move_to}

unfoldable pub create_batch : String → String → String → String → Time → Result CalibrationBatch
create_batch id station_code title actor now = do
  reject (is_blank id || is_blank station_code || is_blank title) (validation "批次 id、站点编码和标题不能为空")
  reject (is_blank actor) (validation "操作者不能为空")
  ok (record {
    id = id;
    station_code = station_code;
    title = title;
    status = draft;
    sensor_ids = [];
    profile_id = "";
    version = 1;
    created_by = actor;
    created_at = now;
    frozen_at = none;
    sampled_by = [];
    reviewed_by = "";
  })

unfoldable pub check_version : CalibrationBatch → Int64 → Result (Unit {0})
check_version b expected =
    reject (not (expected == b.version)) (version_conflict expected b.version)

-- `Mutable`
unfoldable pub check_mutable : CalibrationBatch → Result (Unit {0})
check_mutable b =
    reject (status_eq b.status frozen || status_eq b.status released) (conflict "批次已冻结，不能修改校准内容")

unfoldable pub advance : CalibrationBatch → BatchStatus → CalibrationBatch
advance b status = record b { status = status; version = inc b.version }

unfoldable pub has_sampler : CalibrationBatch → String → Bool
has_sampler b actor = any (λ v. str_eq v actor) b.sampled_by

unfoldable pub add_sampler : CalibrationBatch → String → CalibrationBatch
add_sampler b actor =
    if any (λ v. str_eq v actor) b.sampled_by
    then b
    else record b { sampled_by = b.sampled_by ++ actor ∷ [] }

unfoldable pub freeze : CalibrationBatch → String → Time → Result CalibrationBatch
unfolding has_sampler move_to
freeze b reviewer now = do
  reject (not (status_eq b.status ready_review) && not (status_eq b.status returned))
      (conflict "当前状态 %s 不能冻结")
  reject (has_sampler b reviewer) (forbidden "复核员不能是采样提交人")
  move_to (record b { frozen_at = some now; reviewed_by = reviewer }) frozen
