-- ===== src/Tests/Queue.antt =====
-- The theorems on the list of the batches, applied.
use benzhi_project_fe3ad.Prelude.{
  leb, true, ◌≡◌, refl, [], ◌∷◌, none, some, length, sort, map, arith,
}
use benzhi_project_fe3ad.Prelude.Slices.{take, drop}
use benzhi_project_fe3ad.Calibration.Errors.{ok}
use benzhi_project_fe3ad.Calibration.Types.{Snapshot, CalibrationBatch, ready_review, draft, other}
use benzhi_project_fe3ad.Calibration.Validation.Records.{validate_snapshot}
use benzhi_project_fe3ad.JsonStore.Model.{clone_snapshot}
use benzhi_project_fe3ad.JsonStore.Reads.{batch_read_snapshot}
use benzhi_project_fe3ad.Calibration.Snapshot.{find_batch}
use benzhi_project_fe3ad.Workflow.Readiness.{build_readiness}
use benzhi_project_fe3ad.Workflow.WorkQueue.{
  BatchCursor, behind_at, BatchQueueFilter, BatchQueueView, list_batches, check_filter, read_cursor,
  items_of, item_of, start_of, summarize,
}
use benzhi_project_fe3ad.Workflow.WorkQueue.Search.{IsFirst}
use benzhi_project_fe3ad.Workflow.WorkQueue.Order.{start_of-IsFirst}
use benzhi_project_fe3ad.Workflow.WorkQueue.Pages.{follow, from_cursor, matched_of}
use benzhi_project_fe3ad.Workflow.WorkQueue.Following.{follow-items_of}
use benzhi_project_fe3ad.Workflow.WorkQueue.Bounds.{list_batches_total, list_batches-bounds}
use benzhi_project_fe3ad.Tests.Samples.{batch_at, library, empty_store, value}
use benzhi_project_fe3ad.Tests.Queries.{ready, codec_of}
use benzhi_project_fe3ad.Tests.Cursors.{cursors, cursors-decode, cursors-is_empty}

-- A second batch, which is newer.
abbrev newer : CalibrationBatch
newer = record (batch_at draft) {
  id = "b2";
  sensor_ids = [];
  profile_id = "";
  version = 1;
  created_at = 200;
  sampled_by = [];
}

abbrev two : Snapshot
two = record ready { batches = ("b1", batch_at ready_review) ∷ ("b2", newer) ∷ [] }

-- All the batches, one by one.
abbrev one_by_one : BatchQueueFilter
one_by_one = record {
  station_code = "st";
  status = other "";
  created_from = none;
  created_to = none;
  limit = 1;
  cursor = "";
}

two-valid : validate_snapshot two ≡ ok tt
unfolding validate_snapshot
two-valid = refl

-- The cursor of the newer batch.
abbrev behind_newer : BatchCursor
behind_newer = record { created_at = 200; batch_id = "b2"; filter_digest = "st" }

start_of-IsFirst_example :
    IsFirst 2
      (behind_at behind_newer (newer ∷ batch_at ready_review ∷ []))
      (start_of (some behind_newer) (newer ∷ batch_at ready_review ∷ []))
start_of-IsFirst_example =
    start_of-IsFirst (newer ∷ batch_at ready_review ∷ []) ((refl, tt), (tt, tt)) behind_newer

follow-items_of_example :
    follow cursors (codec_of two) library.format_6g empty_store 3 (from_cursor "" one_by_one)
    ≡ items_of library.format_6g two (matched_of one_by_one two)
unfolding clone_snapshot check_filter sort
follow-items_of_example =
    follow-items_of cursors (codec_of two) library.format_6g empty_store two refl two-valid
      ((refl, tt), (tt, tt)) cursors-decode cursors-is_empty one_by_one 3 refl refl

list_batches_total_example :
    (view : BatchQueueView) × (list_batches cursors
        (codec_of two)
        library.format_6g
        empty_store
        one_by_one
      ≡ ok view)
    × (map (λ i. i.batch) view.items
        ≡ take 1 (drop (start_of none (matched_of one_by_one two)) (matched_of one_by_one two)))
unfolding clone_snapshot check_filter read_cursor
list_batches_total_example =
    list_batches_total two two-valid ((refl, tt), (tt, tt)) cursors (codec_of two) library.format_6g
      empty_store refl one_by_one none refl refl

abbrev first_page : BatchQueueView
first_page =
    value (record { items = []; next_cursor = ""; summary = summarize [] })
      (list_batches cursors (codec_of two) library.format_6g empty_store one_by_one)

list_batches-bounds_example : (leb (length first_page.items) 1 ≡ true) × (leb 1 100 ≡ true)
unfolding list_batches check_filter read_cursor batch_read_snapshot clone_snapshot items_of sort
    start_of item_of build_readiness find_batch
list_batches-bounds_example =
    list_batches-bounds cursors (codec_of two) library.format_6g empty_store one_by_one first_page
      (omega arith) refl
