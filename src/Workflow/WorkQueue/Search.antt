-- ===== src/Workflow/WorkQueue/Search.antt =====
-- The binary search for the start of a page.
use benzhi_project_fe3ad.Prelude.{
  ℕ, zero, suc, ◌+◌, ◌/◌, ltb, leb, Bool, true, false, ◌≡◌, inl, inr, arith, Bool-cases,
}
use benzhi_project_fe3ad.Workflow.WorkQueue.{search_loop, search_first}

module _ (n : ℕ) (f : ℕ → Bool) where
  -- `r` is the first index below `n` at which the test holds, or `n`.
  pub record IsFirst (r : ℕ) : Type 0 where
    pub within : leb r n ≡ true
    pub below : (k : ℕ) → ltb k r ≡ true → f k ≡ false
    pub above : (k : ℕ) → leb r k ≡ true → ltb k n ≡ true → f k ≡ true

  module _ (mono : (i j : ℕ) → leb i j ≡ true → ltb j n ≡ true → f i ≡ true → f j ≡ true) where
    false_below : (h k : ℕ) → ltb h n ≡ true → f h ≡ false → ltb k (h + 1) ≡ true → f k ≡ false
    false_below h k in_range fails less = elim (Bool-cases (f k)) [
      | inl holds ↦ absurd (ground (arith, mono k h (ground arith) in_range holds))
      | inr no_k ↦ no_k
    ]

    search_loop-IsFirst :
        (fuel i j : ℕ)
        → leb j (i + fuel) ≡ true
        → leb i j ≡ true
        → leb j n ≡ true
        → ((k : ℕ) → ltb k i ≡ true → f k ≡ false)
        → ((k : ℕ) → leb j k ≡ true → ltb k n ≡ true → f k ≡ true)
        → IsFirst (search_loop fuel f i j)
    unfolding search_loop
    search_loop-IsFirst zero i j enough order range below above = record {
      within = ground arith;
      below = below;
      above = λ k at_i. above k (ground arith);
    }
    search_loop-IsFirst (suc fuel) i j enough order range below above =
        elim (Bool-cases (ltb i j)) [
          | inl more ↦ elim (Bool-cases (f ((i + j) / 2))) [
            | inl holds ↦
                rw (more, holds)
                  (search_loop-IsFirst fuel i ((i + j) / 2) (ground arith) (ground arith)
                    (ground arith) below
                    (λ k past in_range. mono ((i + j) / 2) k past in_range holds))
            | inr fails ↦
                rw (more, fails)
                  (search_loop-IsFirst fuel ((i + j) / 2 + 1) j (ground arith) (ground arith) range
                    (λ k. false_below ((i + j) / 2) k (ground arith) fails) above)
          ]
          | inr done ↦ rw done (record {
            within = ground arith;
            below = below;
            above = λ k at_i. above k (ground arith);
          })
        ]

    -- For a test that stays true once it is, `sort.Search` answers with the first index at which it
    -- holds, or with `n` where there is none: `n` rounds are enough.
    pub search_first-IsFirst : IsFirst (search_first n f)
    unfolding search_first
    search_first-IsFirst =
        search_loop-IsFirst n 0 n (ground arith) (ground arith) (ground arith)
          (λ k h. absurd (ground arith)) (λ k h g. absurd (ground arith))
