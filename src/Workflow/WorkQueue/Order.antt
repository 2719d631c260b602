-- ===== src/Workflow/WorkQueue/Order.antt =====
-- The order of the list of the batches, and where the batches behind a cursor start.
use benzhi_project_fe3ad.Prelude.{
  ℕ, ◌+◌, ltb, leb, true, false, ◌≡◌, subst, inl, inr, arith, Bool-cases, some, List, [], ◌∷◌,
  length, All, sort, str_eq, eq_iff,
}
use benzhi_project_fe3ad.Prelude.TextOrder.{str_lt_trans, str_lt_asymm, str_lt_total}
use benzhi_project_fe3ad.Prelude.Sorting.{Ordered, Decided, sort-Ordered}
use benzhi_project_fe3ad.Prelude.Slices.{get_elem?, get_elem_within, Ordered-get_elem}
use benzhi_project_fe3ad.Prelude.Maps.{Map, values, HasKeysOnce}
use benzhi_project_fe3ad.Calibration.Types.{CalibrationBatch}
use benzhi_project_fe3ad.JsonStore.Reads.{newer_batch}
use benzhi_project_fe3ad.Workflow.WorkQueue.{BatchCursor, is_behind, behind_at, start_of}
use benzhi_project_fe3ad.Workflow.WorkQueue.Search.{IsFirst, search_first-IsFirst}

newer_batch_trans :
    (a b c : CalibrationBatch)
    → newer_batch a b ≡ true
    → newer_batch b c ≡ true
    → newer_batch a c ≡ true
newer_batch_trans a b c h k = ground (arith, str_lt_trans a.id b.id c.id)

newer_batch_asymm : (a b : CalibrationBatch) → newer_batch a b ≡ true → newer_batch b a ≡ false
newer_batch_asymm a b h = ground (arith, str_lt_asymm a.id b.id)

newer_batch_total :
    (a b : CalibrationBatch)
    → str_eq a.id b.id ≡ false
    → newer_batch b a ≡ false
    → newer_batch a b ≡ true
newer_batch_total a b differ h = ground (arith, str_lt_total a.id b.id, eq_iff a.id b.id)

-- A batch is behind the cursor of another when the order of the list puts it behind.
is_behind-newer_batch :
    (c : BatchCursor) (a b : CalibrationBatch)
    → c.created_at ≡ a.created_at
    → c.batch_id ≡ a.id
    → is_behind c b ≡ newer_batch a b
is_behind-newer_batch c a b same_time same_id = ground arith

module _ (check : CalibrationBatch → Type 0) where
  All-newer_batch :
      (b : CalibrationBatch) (m : Map CalibrationBatch)
      → All (λ e. (e.0 ≡ e.1.id) × check e.1) m
      → All (λ e. str_eq b.id e.0 ≡ false) m
      → All (λ y. newer_batch y b ≡ false → newer_batch b y ≡ true) (values m)
  All-newer_batch b [] keyed once = tt
  All-newer_batch b ((k, y) ∷ m) keyed once = (
    newer_batch_total b y (subst (λ i. str_eq b.id i ≡ false) keyed.0.0 once.0),
    All-newer_batch b m keyed.1 once.1,
  )

  pub values-Decided :
      (m : Map CalibrationBatch)
      → All (λ e. (e.0 ≡ e.1.id) × check e.1) m
      → HasKeysOnce m
      → Decided newer_batch (values m)
  values-Decided [] keyed once = tt
  values-Decided ((k, b) ∷ m) keyed once = (
    All-newer_batch b m keyed.1 (subst (λ i. All (λ e. str_eq i e.0 ≡ false) m) keyed.0.0 once.0),
    values-Decided m keyed.1 once.1,
  )

-- The list of the batches is in a strict order.
pub sort-newer_batch :
    (bs : List CalibrationBatch)
    → Decided newer_batch bs
    → Ordered newer_batch (sort newer_batch bs)
sort-newer_batch = sort-Ordered newer_batch newer_batch_trans

module _ (matched : List CalibrationBatch) (ordered : Ordered newer_batch matched) where
  behind_at_mono :
      (c : BatchCursor) (i j : ℕ)
      → leb i j ≡ true
      → ltb j (length matched) ≡ true
      → behind_at c matched i ≡ true
      → behind_at c matched j ≡ true
  behind_at_mono c i j le_j within at_i =
      let (x, found_x) = get_elem_within matched i (ground arith) in
      let (y, found_y) = get_elem_within matched j within in
      elim (Bool-cases (ltb i j)) [
        | inl less ↦
            let after = Ordered-get_elem newer_batch matched i j x y ordered less found_x found_y in
            ground (arith, str_lt_trans c.batch_id x.id y.id)
        | inr least ↦ let same : i ≡ j = ground arith in cc
      ]

  -- In a list that is in the strict order of the store, the search of a page's start ends, within as
  -- many rounds as the list has batches, at the first of them that is behind the cursor, or at the end
  -- of the list where none is.
  pub start_of-IsFirst :
      (c : BatchCursor) → IsFirst (length matched) (behind_at c matched) (start_of (some c) matched)
  unfolding start_of
  start_of-IsFirst c =
      search_first-IsFirst (length matched) (behind_at c matched) (behind_at_mono c)

  module _ (c : BatchCursor) (a : CalibrationBatch) (e : ℕ) (found : get_elem? matched e ≡ some a)
      (same_time : c.created_at ≡ a.created_at) (same_id : c.batch_id ≡ a.id) where
    not_behind_at : behind_at c matched e ≡ false
    not_behind_at =
        let same = is_behind-newer_batch c a a same_time same_id in
        ground (arith, newer_batch_asymm a a)

    behind_at-next : ltb (e + 1) (length matched) ≡ true → behind_at c matched (e + 1) ≡ true
    behind_at-next within =
        let (y, found_y) = get_elem_within matched (e + 1) within in
        let after =
          Ordered-get_elem newer_batch matched e (e + 1) a y ordered (ground arith) found found_y in
        let same = is_behind-newer_batch c a y same_time same_id in cc

    -- The batches behind the cursor of one start right after that one.
    pub start_of-after : ltb e (length matched) ≡ true → start_of (some c) matched ≡ e + 1
    unfolding start_of
    start_of-after within =
        let first = start_of-IsFirst c in
        let w = first.within in
        elim (Bool-cases (leb (start_of (some c) matched) e)) [
          | inl early ↦
              let holds = first.above e early within in absurd (ground (arith, not_behind_at))
          | inr late ↦ elim (Bool-cases (ltb (e + 1) (start_of (some c) matched))) [
            | inl too_late ↦
                let fails = first.below (e + 1) too_late in
                absurd (ground (arith, behind_at-next (ground arith)))
            | inr just ↦ ground arith
          ]
        ]
