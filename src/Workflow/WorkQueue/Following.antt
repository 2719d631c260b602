-- ===== src/Workflow/WorkQueue/Following.antt =====
-- The client that follows the cursors, page by page, over a store that does not change meanwhile.
use benzhi_project_fe3ad.Prelude.{
  ℕ, zero, suc, ◌+◌, ◌-◌, ltb, leb, true, false, ◌≡◌, refl, ap, sym, ◌∙◌, inl, inr, arith,
  Bool-cases, Option, some, none, List, length, String, All, eq_refl, is_empty,
}
use benzhi_project_fe3ad.Prelude.Sorting.{Ordered}
use benzhi_project_fe3ad.Prelude.Slices.{
  get_elem?, take, drop, get_elem_within, All-get_elem, take-append-drop, drop-drop, length-drop,
  take_all,
}
use benzhi_project_fe3ad.Prelude.Maps.{HasKeysOnce}
use benzhi_project_fe3ad.Float64.{Float64}
use benzhi_project_fe3ad.Calibration.Errors.{Result, ok}
use benzhi_project_fe3ad.Calibration.Types.{Snapshot, CalibrationBatch}
use benzhi_project_fe3ad.JsonStore.Model.{Codec, Store, clone_snapshot}
use benzhi_project_fe3ad.JsonStore.Reads.{newer_batch}
use benzhi_project_fe3ad.Workflow.Commands.{Response}
use benzhi_project_fe3ad.Workflow.WorkQueue.{
  BatchQueueFilter, BatchQueueItem, BatchCursor, CursorCodec, start_of, summarize, items_of,
  digest_of_filter, limit_of, check_filter, read_cursor, cursor_after, end_of,
}
use benzhi_project_fe3ad.Workflow.WorkQueue.Order.{start_of-after}
use benzhi_project_fe3ad.Calibration.Validation.Records.{validate_snapshot}
use benzhi_project_fe3ad.Workflow.WorkQueue.Bounds.{
  IsListed, matched_of-IsListed, matched_of-Ordered,
}
use benzhi_project_fe3ad.Workflow.WorkQueue.Pages.{
  from_cursor, append_items, page_with, turn, turn_last, turn_more, follow, items_of-append,
  limit_of-positive, matched_of, page_between, page_at, list_batches-page_at,
}

module _ (q : CursorCodec) (c : Codec Response) (show : Float64 → String) (store : Store)
    (s : Snapshot) (cloned : clone_snapshot c store.projection ≡ ok s) where
  module _ (f : BatchQueueFilter)
      (decode-encode : (b : BatchCursor) → q.decode (q.encode b) ≡ some b)
      (encode-is_empty : (b : BatchCursor) → is_empty (q.encode b) ≡ false)
      (checked : check_filter q f ≡ ok tt) (ordered : Ordered newer_batch (matched_of f s))
      (listed : All (IsListed s) (matched_of f s)) where
    -- The cursor behind a batch.
    abbrev cursor_of : CalibrationBatch → BatchCursor
    cursor_of b = record {
      created_at = b.created_at;
      batch_id = b.id;
      filter_digest = digest_of_filter q f;
    }

    read_cursor-encode :
        (e : ℕ) (b : CalibrationBatch)
        → get_elem? (matched_of f s) e ≡ some b
        → read_cursor q (from_cursor (q.encode (cursor_of b)) f) ≡ ok (some (cursor_of b))
    unfolding read_cursor
    read_cursor-encode e b found =
        let (_, has_id, has_time) = All-get_elem (IsListed s) (matched_of f s) e b listed found in
        rw
          (
            encode-is_empty (cursor_of b),
            decode-encode (cursor_of b),
            has_id,
            has_time,
            eq_refl (digest_of_filter q f),
          )
          refl

    checked_from : (text : String) → check_filter q (from_cursor text f) ≡ ok tt
    unfolding check_filter
    checked_from text = checked

    -- The last page.
    page_at_last :
        (text : String) (k : ℕ)
        → leb (length (matched_of f s)) (k + limit_of q f) ≡ true
        → page_at q show s (from_cursor text f) k
          ≡ page_with "" (summarize (matched_of f s)) (items_of show s (drop k (matched_of f s)))
    unfolding cursor_after
    page_at_last text k late =
        ap (page_between q show s (from_cursor text f) k) at_end
        ∙ rw
            (
              no_next,
              take_all (length (matched_of f s) - k) (drop k (matched_of f s))
                  (ground (arith, length-drop k (matched_of f s))),
            )
            refl
      where
        at_end : end_of q k (limit_of q f) (length (matched_of f s)) ≡ length (matched_of f s)
        at_end = ground arith

        no_next :
            cursor_after q (from_cursor text f) (matched_of f s) k (length (matched_of f s)) ≡ ""
        no_next = ground arith

    -- A page before the last one.
    page_at_more :
        (text : String) (k : ℕ) (b : CalibrationBatch)
        → ltb (k + limit_of q f) (length (matched_of f s)) ≡ true
        → get_elem? (matched_of f s) (k + limit_of q f - 1) ≡ some b
        → page_at q show s (from_cursor text f) k
          ≡ page_with
              (q.encode (cursor_of b))
              (summarize (matched_of f s))
              (items_of show s (take (limit_of q f) (drop k (matched_of f s))))
    unfolding cursor_after
    page_at_more text k b more found =
        ap (page_between q show s (from_cursor text f) k) at_end ∙ rw (next, gap) refl
      where
        at_end : end_of q k (limit_of q f) (length (matched_of f s)) ≡ k + limit_of q f
        at_end = ground arith

        gap : k + limit_of q f - k ≡ limit_of q f
        gap = omega arith

        next :
            cursor_after q (from_cursor text f) (matched_of f s) k (k + limit_of q f)
            ≡ q.encode (cursor_of b)
        next = let positive = limit_of-positive q f checked in ground arith

    -- The client's next page.
    abbrev following : ℕ → String → Result (List BatchQueueItem)
    following n text = follow q c show store n (from_cursor text f)

    module _ (n k : ℕ) (text : String) (cursor : Option BatchCursor)
        (is_read : read_cursor q (from_cursor text f) ≡ ok cursor)
        (starts : start_of cursor (matched_of f s) ≡ k) where
      follow-page_at :
          following (suc n) text ≡ turn (following n) (page_at q show s (from_cursor text f) k)
      unfolding follow
      follow-page_at = ap (turn (following n)) (
          list_batches-page_at q c show store s cloned (from_cursor text f) cursor
            (checked_from text) is_read
          ∙ ap (page_at q show s (from_cursor text f)) starts)

      follow_last :
          leb (length (matched_of f s)) (k + limit_of q f) ≡ true
          → following (suc n) text ≡ items_of show s (drop k (matched_of f s))
      follow_last late =
          follow-page_at
          ∙ ap (turn (following n)) (page_at_last text k late)
          ∙ turn_last (following n) (summarize (matched_of f s))
              (items_of show s (drop k (matched_of f s)))

      follow_more :
          (b : CalibrationBatch)
          → ltb (k + limit_of q f) (length (matched_of f s)) ≡ true
          → get_elem? (matched_of f s) (k + limit_of q f - 1) ≡ some b
          → following (suc n) text
            ≡ append_items
                (items_of show s (take (limit_of q f) (drop k (matched_of f s))))
                (following n (q.encode (cursor_of b)))
      follow_more b more found =
          follow-page_at
          ∙ ap (turn (following n)) (page_at_more text k b more found)
          ∙ turn_more (following n) (summarize (matched_of f s)) (q.encode (cursor_of b))
              (items_of show s (take (limit_of q f) (drop k (matched_of f s))))
              (encode-is_empty (cursor_of b))

    -- A page and all that follows it.
    items_of-drop :
        (k : ℕ)
        → append_items
            (items_of show s (take (limit_of q f) (drop k (matched_of f s))))
            (items_of show s (drop (k + limit_of q f) (matched_of f s)))
          ≡ items_of show s (drop k (matched_of f s))
    items_of-drop k =
        ap
          (λ xs.
            append_items (items_of show s (take (limit_of q f) (drop k (matched_of f s))))
              (items_of show s xs))
          (sym (drop-drop (limit_of q f) k (matched_of f s)))
        ∙ sym (
            items_of-append show s (take (limit_of q f) (drop k (matched_of f s)))
              (drop (limit_of q f) (drop k (matched_of f s))))
        ∙ ap (items_of show s) (take-append-drop (limit_of q f) (drop k (matched_of f s)))

    start_of-next :
        (k : ℕ) (b : CalibrationBatch)
        → ltb (k + limit_of q f) (length (matched_of f s)) ≡ true
        → get_elem? (matched_of f s) (k + limit_of q f - 1) ≡ some b
        → start_of (some (cursor_of b)) (matched_of f s) ≡ k + limit_of q f
    start_of-next k b more found =
        let positive = limit_of-positive q f checked in
        let next : k + limit_of q f - 1 + 1 ≡ k + limit_of q f = ground arith in
        start_of-after (matched_of f s) ordered (cursor_of b) b (k + limit_of q f - 1) found refl
          refl (ground arith)
        ∙ next

    -- From the `k`-th batch on, the pages hold the items of all that follow.
    pub follow_from :
        (n k : ℕ) (text : String) (cursor : Option BatchCursor)
        → read_cursor q (from_cursor text f) ≡ ok cursor
        → start_of cursor (matched_of f s) ≡ k
        → ltb (length (matched_of f s)) (k + n) ≡ true
        → leb k (length (matched_of f s)) ≡ true
        → following n text ≡ items_of show s (drop k (matched_of f s))
    follow_from zero k text cursor is_read starts enough within = absurd (ground arith)
    follow_from (suc n) k text cursor is_read starts enough within =
        elim (Bool-cases (ltb (k + limit_of q f) (length (matched_of f s)))) [
          | inr late ↦ follow_last n k text cursor is_read starts (ground arith)
          | inl more ↦
              let positive = limit_of-positive q f checked in
              let (b, found) =
                get_elem_within (matched_of f s) (k + limit_of q f - 1) (ground arith) in
              follow_more n k text cursor is_read starts b more found
              ∙ ap (append_items (items_of show s (take (limit_of q f) (drop k (matched_of f s)))))
                  (follow_from n (k + limit_of q f) (q.encode (cursor_of b)) (some (cursor_of b))
                    (read_cursor-encode (k + limit_of q f - 1) b found)
                    (start_of-next k b more found) (ground arith) (ground arith))
              ∙ items_of-drop k
        ]

module _ (q : CursorCodec) (c : Codec Response) (show : Float64 → String) (store : Store)
    (s : Snapshot) (cloned : clone_snapshot c store.projection ≡ ok s)
    (valid : validate_snapshot s ≡ ok tt) (once : HasKeysOnce s.batches)
    (decode-encode : (b : BatchCursor) → q.decode (q.encode b) ≡ some b)
    (encode-is_empty : (b : BatchCursor) → is_empty (q.encode b) ≡ false) where
  -- For a valid snapshot in which no key stands twice, where cursors can be read again from their texts
  -- and none of these is empty, a client that starts without a cursor and follows the cursors of a
  -- filter that passes its test gets, over more pages than there are matching batches, the items of
  -- all of these, each once and in the order of the list; or the error of the first that has none.
  pub follow-items_of :
      (f : BatchQueueFilter) (n : ℕ)
      → check_filter q f ≡ ok tt
      → ltb (length (matched_of f s)) n ≡ true
      → follow q c show store n (from_cursor "" f) ≡ items_of show s (matched_of f s)
  unfolding read_cursor start_of
  follow-items_of f n checked enough =
      follow_from q c show store s cloned f decode-encode encode-is_empty checked
        (matched_of-Ordered s valid once f) (matched_of-IsListed s valid once f) n 0 "" none refl
        refl (ground arith) (ground arith)
