-- ===== src/HttpApi/ListQuery.antt =====
-- internal/transport/httpapi/handlers_query.go: the filter in the query of a URL. `strconv.Atoi` and
-- `time.Parse` are parameters.
use benzhi_project_fe3ad.Prelude.{Option, none, some, String, str_eq, is_empty, if◌then◌else◌}
use benzhi_project_fe3ad.Prelude.Int64.{Int64}
use benzhi_project_fe3ad.Calibration.Errors.{Result, ok, ◌>>=◌, required, validation}
use benzhi_project_fe3ad.Calibration.Types.{
  Time, BatchStatus, draft, plan_locked, sampling, failed, ready_review, returned, frozen, released,
  other,
}
use benzhi_project_fe3ad.Workflow.WorkQueue.{BatchQueueFilter}

-- `calibration.BatchStatus(s)`
unfoldable pub status_of_text : String → BatchStatus
status_of_text s =
    if str_eq s "draft"
    then draft
    else if str_eq s "plan_locked"
    then plan_locked
    else if str_eq s "sampling"
    then sampling
    else if str_eq s "failed"
    then failed
    else if str_eq s "ready_review"
    then ready_review
    else if str_eq s "returned"
    then returned
    else if str_eq s "frozen"
    then frozen
    else if str_eq s "released"
    then released
    else other s

pub record QueryParser : Type 0 where
  pub atoi : String → Option Int64
  pub parse_time : String → Option Time

module _ (p : QueryParser) where
  abbrev pub parse_limit : String → Result Int64
  parse_limit raw = if is_empty raw then ok 0 else required (p.atoi raw) (validation "limit 必须是整数")

  abbrev pub parse_bound : String → String → Result (Option Time)
  parse_bound message raw =
      if is_empty raw
      then ok none
      else (do t ← required (p.parse_time raw) (validation message); ok (some t))

  -- `query.Get` gives "" for a name that is not there.
  unfoldable pub parse_filter : (query : String → String) → Result BatchQueueFilter
  parse_filter query = do
    limit ← parse_limit (query "limit")
    from ← parse_bound "createdFrom 必须是 RFC3339 时间" (query "createdFrom")
    to ← parse_bound "createdTo 必须是 RFC3339 时间" (query "createdTo")
    ok (record {
      station_code = query "stationCode";
      status = status_of_text (query "status");
      created_from = from;
      created_to = to;
      limit = limit;
      cursor = query "cursor";
    })
