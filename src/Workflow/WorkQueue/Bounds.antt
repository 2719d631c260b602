-- ===== src/Workflow/WorkQueue/Bounds.antt =====
-- internal/application/workflow/work_queue.go: the items of a page.
use benzhi_project_fe3ad.Prelude.{
  ℕ, ◌+◌, ◌-◌, ◌^◌, ◌<◌, ltb, leb, true, false, ◌&&◌, ◌≡◌, refl, subst, ap, sym, ◌∙◌, arith, inl,
  inr, Bool-cases, Option, some, List, [], ◌∷◌, length, map, String, All, sort, select, is_empty,
}
use benzhi_project_fe3ad.Prelude.Sorting.{All-select, All-sort, All-both, Ordered, Ordered-select}
use benzhi_project_fe3ad.Prelude.Slices.{
  take, drop, length-take, length-drop, take_all, All-take, All-drop,
}
use benzhi_project_fe3ad.Prelude.Maps.{
  lookup, values, HasKeysOnce, HasKeysOnce-lookup, All-values_keyed, lookup_by,
}
use benzhi_project_fe3ad.Float64.{Float64}
use benzhi_project_fe3ad.Calibration.Errors.{Result, ok, err, >>=-eq-ok, >>-eq-ok}
use benzhi_project_fe3ad.Calibration.Types.{Snapshot, CalibrationBatch, is_zero_time}
use benzhi_project_fe3ad.Calibration.Snapshot.{find_batch}
use benzhi_project_fe3ad.Calibration.Validation.{validate_batch}
use benzhi_project_fe3ad.Calibration.Validation.Records.{validate_snapshot}
use benzhi_project_fe3ad.Calibration.Validation.Facts.{
  validate_snapshot-IsChecked, validate_batch-facts,
}
use benzhi_project_fe3ad.JsonStore.Model.{Codec, Store, clone_snapshot}
use benzhi_project_fe3ad.JsonStore.Reads.{newer_batch, batch_read_snapshot}
use benzhi_project_fe3ad.Workflow.Commands.{Response}
use benzhi_project_fe3ad.Workflow.Readiness.Total.{build_readiness_total}
use benzhi_project_fe3ad.Workflow.WorkQueue.{
  BatchQueueFilter, BatchQueueItem, BatchQueueView, BatchQueueSummary, BatchCursor, CursorCodec,
  matches, start_of, item_of, items_of, cursor_after, summarize, limit_of, check_filter,
  read_cursor, end_of, list_batches,
}
use benzhi_project_fe3ad.Workflow.WorkQueue.Order.{values-Decided, sort-newer_batch}
use benzhi_project_fe3ad.Workflow.WorkQueue.Pages.{matched_of, page_with, list_batches-page_at}

-- What is known of a batch of the list.
abbrev pub IsListed : Snapshot → CalibrationBatch → Type 0
IsListed s b =
    (find_batch s b.id ≡ ok b) × (is_empty b.id ≡ false) × (is_zero_time b.created_at ≡ false)

-- A page ends at its limit or with the list.
take-end_of :
    {A : Type 0} (q : CursorCodec) (k limit : ℕ) (xs : List A)
    → take (end_of q k limit (length xs) - k) (drop k xs) ≡ take limit (drop k xs)
take-end_of q k limit xs = elim (Bool-cases (ltb (length xs) (k + limit))) [
  | inl whole ↦
      let n = length-drop k xs in
      rw whole (
        take_all (length xs - k) (drop k xs) (ground arith)
        ∙ sym (take_all limit (drop k xs) (ground arith)))
  | inr part ↦ let gap : k + limit - k ≡ limit = omega arith in rw (part, gap) refl
]

module _ (s : Snapshot) (valid : validate_snapshot s ≡ ok tt) (once : HasKeysOnce s.batches) where
  find_batch-keyed :
      (k : String) (b : CalibrationBatch)
      → k ≡ b.id
      → lookup k s.batches ≡ some b
      → find_batch s b.id ≡ ok b
  unfolding find_batch
  find_batch-keyed k b same found = rw (subst (λ i. lookup i s.batches ≡ some b) same found) refl

  values-IsListed : All (IsListed s) (values s.batches)
  unfolding find_batch lookup_by
  values-IsListed =
      All-values_keyed
        (λ k b. ((k ≡ b.id) × (validate_batch s b ≡ ok tt)) × (lookup k s.batches ≡ some b))
        s.batches
        (All-both (λ e. (e.0 ≡ e.1.id) × (validate_batch s e.1 ≡ ok tt))
          (λ e. lookup e.0 s.batches ≡ some e.1) s.batches
          (validate_snapshot-IsChecked s valid).batches (HasKeysOnce-lookup s.batches once))
        (IsListed s)
        (λ k b h.
          let (has_id, has_time, _) = validate_batch-facts s b h.0.1 in
          (find_batch-keyed k b h.0.0 h.1, has_id, has_time))

  pub matched_of-IsListed : (f : BatchQueueFilter) → All (IsListed s) (matched_of f s)
  matched_of-IsListed f =
      All-select (IsListed s) (matches f) (sort newer_batch (values s.batches))
        (All-sort (IsListed s) newer_batch (values s.batches) values-IsListed)

  pub matched_of-Ordered : (f : BatchQueueFilter) → Ordered newer_batch (matched_of f s)
  matched_of-Ordered f =
      Ordered-select newer_batch (matches f) (sort newer_batch (values s.batches)) (
        sort-newer_batch (values s.batches) (
          values-Decided (λ b. validate_batch s b ≡ ok tt) s.batches
            (validate_snapshot-IsChecked s valid).batches once))

  module _ (show : Float64 → String) where
    item_of_total :
        (b : CalibrationBatch)
        → find_batch s b.id ≡ ok b
        → (item : BatchQueueItem) × (item_of show s b ≡ ok item) × (item.batch ≡ b)
    unfolding item_of
    item_of_total b found =
        let (r, built) = build_readiness_total show s b.id b valid found in rw built (_, refl, refl)

    pub items_of_total :
        (bs : List CalibrationBatch)
        → All (IsListed s) bs
        → (items : List BatchQueueItem) × (items_of show s bs ≡ ok items)
          × (map (λ i. i.batch) items ≡ bs)
    unfolding items_of
    items_of_total [] h = ([], refl, refl)
    items_of_total (b ∷ bs) h =
        let (item, made, same) = item_of_total b h.0.0 in
        let (items, all_made, all_same) = items_of_total bs h.1 in
        (item ∷ items, rw (made, all_made) refl, λ i. same i ∷ all_same i)

  module _ (q : CursorCodec) (c : Codec Response) (show : Float64 → String) (store : Store)
      (cloned : clone_snapshot c store.projection ≡ ok s) (f : BatchQueueFilter)
      (cursor : Option BatchCursor) (checked : check_filter q f ≡ ok tt)
      (is_read : read_cursor q f ≡ ok cursor) where
    -- For a valid snapshot in which no key stands twice, a filter that passes its test and a cursor
    -- that can be read, the page is answered. Its items are of the first batches from the start on,
    -- up to the limit.
    pub list_batches_total :
        (view : BatchQueueView) × (list_batches q c show store f ≡ ok view)
        × (map (λ i. i.batch) view.items
            ≡ take (limit_of q f) (drop (start_of cursor (matched_of f s)) (matched_of f s)))
    list_batches_total =
        let k = start_of cursor (matched_of f s) in
        let end = end_of q k (limit_of q f) (length (matched_of f s)) in
        let (items, made, same) = items_of_total show (take (end - k) (drop k (matched_of f s))) (
          All-take (IsListed s) (end - k) (drop k (matched_of f s))
            (All-drop (IsListed s) k (matched_of f s) (matched_of-IsListed f))) in
        (
          _,
          list_batches-page_at q c show store s cloned f cursor checked is_read
              ∙ ap
                  (page_with (cursor_after q f (matched_of f s) k end) (summarize (matched_of f s)))
                  made,
          same ∙ take-end_of q k (limit_of q f) (matched_of f s),
        )

module _ (show : Float64 → String) (s : Snapshot) where
  items_of-length :
      (bs : List CalibrationBatch) (items : List BatchQueueItem)
      → items_of show s bs ≡ ok items
      → length items ≡ length bs
  unfolding items_of
  items_of-length [] items made = cc
  items_of-length (b ∷ bs) items made =
      let (item, made_item, then) = >>=-eq-ok (item_of show s b) _ made in
      let (rest, made_rest, whole) = >>=-eq-ok (items_of show s bs) _ then in
      let same = items_of-length bs rest made_rest in cc

-- A limit that passes the test, as a machine word.
limit_of-bounds :
    (q : CursorCodec) (f : BatchQueueFilter)
    → f.limit < 2 ^ 64
    → check_filter q f ≡ ok tt
    → leb 1 (limit_of q f) && leb (limit_of q f) 100 ≡ true
unfolding check_filter
limit_of-bounds q f word h = ground arith

page_with-items :
    (next : String) (summary : BatchQueueSummary) (r : Result (List BatchQueueItem))
    (view : BatchQueueView)
    → page_with next summary r ≡ ok view
    → r ≡ ok view.items
page_with-items next summary (err e) view made = cc
page_with-items next summary (ok items) view made = cc

page-length :
    (show : Float64 → String) (s : Snapshot) (q : CursorCodec) (k limit : ℕ)
    (matched : List CalibrationBatch) (next : String) (summary : BatchQueueSummary)
    (view : BatchQueueView)
    → page_with next summary
        (items_of show s (take (end_of q k limit (length matched) - k) (drop k matched)))
      ≡ ok view
    → leb (length view.items) limit ≡ true
page-length show s q k limit matched next summary view made =
    let width = end_of q k limit (length matched) - k in
    let page = take width (drop k matched) in
    let same =
      items_of-length show s page view.items
        (page_with-items next summary (items_of show s page) view made) in
    let short : leb (length page) width ≡ true = length-take width (drop k matched) in ground arith

-- A page that is answered has at most as many items as the limit of the request, which is at most 100
-- where it is a machine word.
pub list_batches-bounds :
    (q : CursorCodec) (c : Codec Response) (show : Float64 → String) (store : Store)
    (f : BatchQueueFilter) (view : BatchQueueView)
    → f.limit < 2 ^ 64
    → list_batches q c show store f ≡ ok view
    → (leb (length view.items) (limit_of q f) ≡ true) × (leb (limit_of q f) 100 ≡ true)
unfolding list_batches
list_batches-bounds q c show store f view word answered =
    let (checked, then₀) = >>-eq-ok (check_filter q f) _ answered in
    let (cursor, is_read, then₁) = >>=-eq-ok (read_cursor q f) _ then₀ in
    let ((s, batches), got, then₂) = >>=-eq-ok (batch_read_snapshot c store) _ then₁ in
    let matched = select (matches f) batches in
    (
      page-length show s q (start_of cursor matched) (limit_of q f) matched _ _ view then₂,
      ground (arith, limit_of-bounds q f word checked),
    )
