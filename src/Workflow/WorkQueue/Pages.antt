-- ===== src/Workflow/WorkQueue/Pages.antt =====
-- The pages of the list: a client that follows the cursors.
use mathlib.Core.List.{append-nil}
use benzhi_project_fe3ad.Prelude.{
  ℕ, zero, suc, ◌-◌, leb, true, false, ◌≡◌, refl, ap, inl, inr, arith, Option, List, [], ◌∷◌, ◌++◌,
  length, String, sort, select, is_empty, if◌then◌else◌,
}
use benzhi_project_fe3ad.Prelude.Slices.{take, drop}
use benzhi_project_fe3ad.Prelude.Maps.{values}
use benzhi_project_fe3ad.Float64.{Float64}
use benzhi_project_fe3ad.Calibration.Errors.{Result, ok, err, ◌>>=◌, Result-cases}
use benzhi_project_fe3ad.Calibration.Types.{Snapshot, CalibrationBatch}
use benzhi_project_fe3ad.JsonStore.Model.{Codec, Store, clone_snapshot}
use benzhi_project_fe3ad.JsonStore.Reads.{newer_batch, batch_read_snapshot}
use benzhi_project_fe3ad.Workflow.Commands.{Response}
use benzhi_project_fe3ad.Workflow.WorkQueue.{
  BatchQueueFilter, BatchQueueItem, BatchQueueView, BatchQueueSummary, BatchCursor, CursorCodec,
  matches, start_of, summarize, item_of, items_of, limit_of, check_filter, read_cursor,
  cursor_after, end_of, list_batches,
}

-- The same filter, from a cursor on.
abbrev pub from_cursor : String → BatchQueueFilter → BatchQueueFilter
from_cursor text f = record f { cursor = text }

abbrev pub append_items :
    Result (List BatchQueueItem) → Result (List BatchQueueItem) → Result (List BatchQueueItem)
append_items xs ys = do first ← xs; rest ← ys; ok (first ++ rest)

-- A page with these items.
abbrev pub page_with :
    (next : String) → BatchQueueSummary → Result (List BatchQueueItem) → Result BatchQueueView
page_with next summary r = do
  items ← r
  ok (record { items = items; next_cursor = next; summary = summary })

-- What a client makes of a page, and of the pages behind it.
abbrev pub turn :
    (String → Result (List BatchQueueItem)) → Result BatchQueueView → Result (List BatchQueueItem)
turn continue page = do
  view ← page
  append_items (ok view.items)
      (if is_empty view.next_cursor then ok [] else continue view.next_cursor)

module _ (continue : String → Result (List BatchQueueItem)) (summary : BatchQueueSummary) where
  pub turn_last : (r : Result (List BatchQueueItem)) → turn continue (page_with "" summary r) ≡ r
  turn_last (err e) = refl
  turn_last (ok items) = ap ok (append-nil items)

  pub turn_more :
      (next : String) (r : Result (List BatchQueueItem))
      → is_empty next ≡ false
      → turn continue (page_with next summary r) ≡ append_items r (continue next)
  turn_more next (err e) some_next = refl
  turn_more next (ok items) some_next = rw some_next refl

module _ (q : CursorCodec) (c : Codec Response) (show : Float64 → String) (store : Store) where
  -- The items of the pages of a client that asks again while a page names a next one.
  unfoldable pub follow : ℕ → BatchQueueFilter → Result (List BatchQueueItem)
  follow zero f = ok []
  follow (suc n) f = turn (λ next. follow n (from_cursor next f)) (list_batches q c show store f)

module _ (show : Float64 → String) (s : Snapshot) where
  pub items_of-append :
      (xs ys : List CalibrationBatch)
      → items_of show s (xs ++ ys) ≡ append_items (items_of show s xs) (items_of show s ys)
  unfolding items_of
  items_of-append [] ys = elim (Result-cases (items_of show s ys)) [
    | inl (rest, made) ↦ rw made refl
    | inr (e, fails) ↦ rw fails refl
  ]
  items_of-append (x ∷ xs) ys =
      let ih = items_of-append xs ys in
      elim (Result-cases (item_of show s x)) [
        | inr (e, fails) ↦ rw fails refl
        | inl (item, made) ↦ elim (Result-cases (items_of show s xs)) [
          | inr (e, fails) ↦ rw (made, ih, fails) refl
          | inl (first, made_first) ↦ elim (Result-cases (items_of show s ys)) [
            | inr (e, fails) ↦ rw (made, ih, made_first, fails) refl
            | inl (rest, made_rest) ↦ rw (made, ih, made_first, made_rest) refl
          ]
        ]
      ]

-- A limit that passes the test is at least 1.
pub limit_of-positive :
    (q : CursorCodec) (f : BatchQueueFilter)
    → check_filter q f ≡ ok tt
    → leb 1 (limit_of q f) ≡ true
unfolding check_filter
limit_of-positive q f h = ground arith

-- The batches of the filter, out of those of the snapshot.
abbrev pub matched_of : BatchQueueFilter → Snapshot → List CalibrationBatch
matched_of f s = select (matches f) (sort newer_batch (values s.batches))

abbrev pub page_between :
    CursorCodec
    → (Float64 → String)
    → Snapshot
    → BatchQueueFilter
    → (start end : ℕ) → Result BatchQueueView
page_between q show s f k end =
    page_with (cursor_after q f (matched_of f s) k end) (summarize (matched_of f s))
      (items_of show s (take (end - k) (drop k (matched_of f s))))

-- The page from the `k`-th batch on.
abbrev pub page_at :
    CursorCodec → (Float64 → String) → Snapshot → BatchQueueFilter → ℕ → Result BatchQueueView
page_at q show s f k =
    page_between q show s f k (end_of q k (limit_of q f) (length (matched_of f s)))

module _ (q : CursorCodec) (c : Codec Response) (show : Float64 → String) (store : Store)
    (s : Snapshot) (cloned : clone_snapshot c store.projection ≡ ok s) where
  pub list_batches-page_at :
      (f : BatchQueueFilter) (cursor : Option BatchCursor)
      → check_filter q f ≡ ok tt
      → read_cursor q f ≡ ok cursor
      → list_batches q c show store f ≡ page_at q show s f (start_of cursor (matched_of f s))
  unfolding list_batches batch_read_snapshot
  list_batches-page_at f cursor checked is_read = rw (checked, is_read, cloned) refl
