-- ===== src/Workflow/WorkQueue.antt =====
-- internal/application/workflow/work_queue.go: the filtered list of the batches, page by page. The
-- base64 and JSON of a cursor, and the digest of a filter, are parameters. `show` is `fmt`'s `%.6g`.
pub mod Search
pub mod Order
pub mod Pages
pub mod Following
pub mod Bounds
use benzhi_project_fe3ad.Prelude.{
  ℕ, zero, suc, ◌+◌, ◌-◌, ◌/◌, ltb, leb, ◌==◌, Bool, true, false, not, ◌&&◌, ◌||◌, Option, none,
  some, String, List, [], ◌∷◌, str_eq, str_lt, any, select, length, is_empty, if◌then◌else◌,
}
use benzhi_project_fe3ad.Prelude.Int64.{Int64, slt}
use benzhi_project_fe3ad.Prelude.Maps.{Map, lookup}
use benzhi_project_fe3ad.Prelude.Slices.{get_elem?, take, drop}
use benzhi_project_fe3ad.Float64.{Float64}
use benzhi_project_fe3ad.Calibration.Errors.{
  Result, ok, err, ◌>>=◌, ◌>>◌, reject, required, validation,
}
use benzhi_project_fe3ad.Calibration.Types.{
  Time, Snapshot, CalibrationBatch, BatchStatus, draft, plan_locked, sampling, failed, ready_review,
  returned, frozen, released, other, status_eq, is_zero_time,
}
use benzhi_project_fe3ad.Ledger.Inspection.{tally}
use benzhi_project_fe3ad.JsonStore.Model.{Codec, Store}
use benzhi_project_fe3ad.JsonStore.Reads.{batch_read_snapshot}
use benzhi_project_fe3ad.Workflow.Commands.{Response}
use benzhi_project_fe3ad.Workflow.Readiness.{ReadinessBlocker, ReadinessReport, build_readiness}

pub record BatchQueueFilter : Type 0 where
  pub station_code : String
  pub status : BatchStatus
  pub created_from : Option Time
  pub created_to : Option Time
  pub limit : Int64
  pub cursor : String

pub record BatchQueueItem : Type 0 where
  pub batch : CalibrationBatch
  pub current_sensors : ℕ
  pub complete_points : ℕ
  pub open_findings : ℕ
  pub next_action : String
  pub blockers : List ReadinessBlocker

pub record BatchQueueSummary : Type 0 where
  pub total : ℕ
  pub by_status : Map ℕ
  pub pending_review : ℕ
  pub pending_issue : ℕ

pub record BatchQueueView : Type 0 where
  pub items : List BatchQueueItem
  pub next_cursor : String
  pub summary : BatchQueueSummary

pub record BatchCursor : Type 0 where
  pub created_at : Time
  pub batch_id : String
  pub filter_digest : String

-- The text of a cursor and back (`none` for an error and for JSON's null), and the digest of the
-- filter's station, status and times.
pub record CursorCodec : Type 0 where
  pub encode : BatchCursor → String
  pub decode : String → Option BatchCursor
  pub digest : String → BatchStatus → Option Time → Option Time → String

-- `string(status)`
abbrev pub status_text : BatchStatus → String
status_text draft = "draft"
status_text plan_locked = "plan_locked"
status_text sampling = "sampling"
status_text failed = "failed"
status_text ready_review = "ready_review"
status_text returned = "returned"
status_text frozen = "frozen"
status_text released = "released"
status_text (other s) = s

abbrev pub zero_status_counts : Map ℕ
zero_status_counts =
    ("draft", 0)
    ∷ ("plan_locked", 0)
    ∷ ("sampling", 0)
    ∷ ("failed", 0)
    ∷ ("ready_review", 0)
    ∷ ("returned", 0)
    ∷ ("frozen", 0)
    ∷ ("released", 0)
    ∷ []

unfoldable pub valid_queue_status : BatchStatus → Bool
valid_queue_status s = elim (lookup (status_text s) zero_status_counts) [
  | none ↦ false
  | some n ↦ true
]

unfoldable pub next_batch_action : CalibrationBatch → ReadinessReport → String
next_batch_action b r = elim b.status [
  | draft ↦ if r.current_sensors == 0 then "register_sensor" else "lock_profile"
  | plan_locked ↦ "submit_measurements"
  | sampling ↦ "submit_measurements"
  | failed ↦ "recalibrate"
  | returned ↦ if ltb 0 r.open_findings then "recalibrate" else "resubmit_review"
  | ready_review ↦ "review"
  | frozen ↦ "issue_credential"
  | _ ↦ "query_only"
]

-- `t.Before(*from)` and `t.After(*to)`, for a bound that is set.
abbrev pub before_bound : Time → Option Time → Bool
before_bound t none = false
before_bound t (some from) = ltb t from

abbrev pub after_bound : Time → Option Time → Bool
after_bound t none = false
after_bound t (some to) = ltb to t

-- The tests of the loop that `continue`.
abbrev pub matches : BatchQueueFilter → CalibrationBatch → Bool
matches f b =
    not (not (is_empty f.station_code) && not (str_eq b.station_code f.station_code))
    && not (not (status_eq f.status (other "")) && not (status_eq b.status f.status))
    && not (before_bound b.created_at f.created_from)
    && not (after_bound b.created_at f.created_to)

-- Behind the cursor in the order of the list, which is newest first.
abbrev pub is_behind : BatchCursor → CalibrationBatch → Bool
is_behind c b =
    ltb b.created_at c.created_at || (b.created_at == c.created_at && str_lt c.batch_id b.id)

-- The loop of `sort.Search`, on fuel.
unfoldable pub search_loop : ℕ → (ℕ → Bool) → ℕ → ℕ → ℕ
search_loop zero f i j = i
search_loop (suc fuel) f i j =
    let h = (i + j) / 2 in
    let below = search_loop fuel f i h in
    let above = search_loop fuel f (h + 1) j in
    if ltb i j then (if f h then below else above) else i

-- `sort.Search(n, f)`
unfoldable pub search_first : ℕ → (ℕ → Bool) → ℕ
unfolding search_loop
search_first n f = search_loop n f 0 n

-- The test at an index, which is within the list.
abbrev pub behind_at : BatchCursor → List CalibrationBatch → ℕ → Bool
behind_at c matched i = elim (get_elem? matched i) [ none ↦ true | some b ↦ is_behind c b ]

unfoldable pub start_of : Option BatchCursor → List CalibrationBatch → ℕ
start_of none matched = 0
start_of (some c) matched = search_first (length matched) (behind_at c matched)

unfoldable pub summarize : List CalibrationBatch → BatchQueueSummary
summarize matched = record {
  total = length matched;
  by_status = count_statuses zero_status_counts matched;
  pending_review = length (select (λ b. status_eq b.status ready_review) matched);
  pending_issue = length (select (λ b. status_eq b.status frozen) matched);
}
  where
    count_statuses : Map ℕ → List CalibrationBatch → Map ℕ
    count_statuses m [] = m
    count_statuses m (b ∷ bs) = count_statuses (tally (status_text b.status) m) bs

module _ (show : Float64 → String) where
  -- The item of a batch.
  unfoldable pub item_of : Snapshot → CalibrationBatch → Result BatchQueueItem
  item_of s b = do
    r ← build_readiness show s b.id
    ok (record {
      batch = b;
      current_sensors = r.current_sensors;
      complete_points = r.complete_points;
      open_findings = r.open_findings;
      next_action = next_batch_action b r;
      blockers = r.blockers;
    })

  unfoldable pub items_of : Snapshot → List CalibrationBatch → Result (List BatchQueueItem)
  items_of s [] = ok []
  items_of s (b ∷ bs) = do item ← item_of s b; rest ← items_of s bs; ok (item ∷ rest)

module _ (q : CursorCodec) where
  abbrev pub digest_of_filter : BatchQueueFilter → String
  digest_of_filter f = q.digest f.station_code f.status f.created_from f.created_to

  -- `filter.Limit`, 50 where it is 0.
  abbrev pub limit_of : BatchQueueFilter → Int64
  limit_of f = if f.limit == 0 then 50 else f.limit

  abbrev pub ordered_bounds : Option Time → Option Time → Bool
  ordered_bounds (some from) (some to) = not (ltb to from)
  ordered_bounds none _ = true
  ordered_bounds _ none = true

  unfoldable pub check_filter : BatchQueueFilter → Result (Unit {0})
  check_filter f = do
    reject (slt (limit_of f) 1 || slt 100 (limit_of f)) (validation "limit 必须在 1 到 100 之间")
    reject (not (status_eq f.status (other "")) && not (valid_queue_status f.status))
        (validation "status 值无效")
    reject (not (ordered_bounds f.created_from f.created_to))
        (validation "createdTo 不能早于 createdFrom")

  unfoldable pub read_cursor : BatchQueueFilter → Result (Option BatchCursor)
  read_cursor f = if is_empty f.cursor then ok none else (do
    c ← required (q.decode f.cursor) (validation "cursor 无效")
    reject (is_empty c.batch_id || is_zero_time c.created_at) (validation "cursor 无效")
    reject (not (str_eq c.filter_digest (digest_of_filter f))) (validation "cursor 与当前筛选条件不匹配")
    ok (some c))

  -- The cursor behind the page that ends at `end`, while there are more batches.
  unfoldable pub cursor_after : BatchQueueFilter → List CalibrationBatch → (start end : ℕ) → String
  cursor_after f matched start end =
      if ltb end (length matched) && ltb start end
      then elim (get_elem? matched (end - 1)) [
        | none ↦ ""
        | some last ↦ q.encode (record {
          created_at = last.created_at;
          batch_id = last.id;
          filter_digest = digest_of_filter f;
        })
      ]
      else ""

  abbrev pub end_of : ℕ → ℕ → ℕ → ℕ
  end_of start limit total = if ltb total (start + limit) then total else start + limit

  unfoldable pub list_batches :
      Codec Response → (Float64 → String) → Store → BatchQueueFilter → Result BatchQueueView
  list_batches c show store f = do
    check_filter f
    cursor ← read_cursor f
    (s, batches) ← batch_read_snapshot c store
    let matched = select (matches f) batches
    let start = start_of cursor matched
    let end = end_of start (limit_of f) (length matched)
    items ← items_of show s (take (end - start) (drop start matched))
    ok (record {
      items = items;
      next_cursor = cursor_after f matched start end;
      summary = summarize matched;
    })
