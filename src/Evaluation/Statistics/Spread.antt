-- ===== src/Evaluation/Statistics/Spread.antt =====
-- The spread of statistics.go and the readings that it is taken from.
use benzhi_project_fe3ad.Prelude.{
  ◌≡◌, ◌⊎◌, inl, inr, refl, sym, ◌∙◌, subst, false, List, [], ◌∷◌, All, Bool-cases, arith,
}
use mathlib.Core.List.{Mem, mem-cons_self, mem-cons_of_mem}
use benzhi_project_fe3ad.Float64.{Float64, flt, fsub, zero_float}
use benzhi_project_fe3ad.Float64.Order.{flt_irrefl, flt_trans}
use benzhi_project_fe3ad.Evaluation.Statistics.{Totals, total_step, totals, calculate}

-- No reading is below `low` or above `high`.
abbrev pub IsWithin : Float64 → Float64 → Float64 → Type 0
IsWithin low high v = (flt v low ≡ false) × (flt high v ≡ false)

step-IsWithin :
    (t : Totals) (u v : Float64)
    → IsWithin t.low t.high u
    → IsWithin (total_step t v).low (total_step t v).high u
unfolding total_step
step-IsWithin t u v h = ground (arith, flt_trans u v t.low, flt_trans t.high v u)

step-IsWithin_self :
    (t : Totals) (v : Float64) → IsWithin (total_step t v).low (total_step t v).high v
unfolding total_step
step-IsWithin_self t v = ground (arith, flt_irrefl v)

totals-IsWithin :
    (t : Totals) (u : Float64) (vs : List Float64)
    → IsWithin t.low t.high u
    → IsWithin (totals t vs).low (totals t vs).high u
unfolding totals
totals-IsWithin t u [] h = h
totals-IsWithin t u (v ∷ vs) h = totals-IsWithin (total_step t v) u vs (step-IsWithin t u v h)

totals-All :
    (t : Totals) (vs : List Float64) → All (IsWithin (totals t vs).low (totals t vs).high) vs
unfolding totals
totals-All t [] = tt
totals-All t (v ∷ vs) =
    (totals-IsWithin (total_step t v) v vs (step-IsWithin_self t v), totals-All (total_step t v) vs)

totals-low_Mem :
    (t : Totals) (vs : List Float64) → ((totals t vs).low ≡ t.low) ⊎ Mem (totals t vs).low vs
unfolding totals total_step
totals-low_Mem t [] = inl refl
totals-low_Mem t (v ∷ vs) = elim (totals-low_Mem (total_step t v) vs) [
  | inr m ↦ inr (mem-cons_of_mem v m)
  | inl e ↦ elim (Bool-cases (flt v t.low)) [
    | inl below ↦ inr (subst (λ x. Mem x (v ∷ vs)) (sym (e ∙ ground arith)) mem-cons_self)
    | inr not_below ↦ inl (e ∙ ground arith)
  ]
]

totals-high_Mem :
    (t : Totals) (vs : List Float64) → ((totals t vs).high ≡ t.high) ⊎ Mem (totals t vs).high vs
unfolding totals total_step
totals-high_Mem t [] = inl refl
totals-high_Mem t (v ∷ vs) = elim (totals-high_Mem (total_step t v) vs) [
  | inr m ↦ inr (mem-cons_of_mem v m)
  | inl e ↦ elim (Bool-cases (flt t.high v)) [
    | inl above ↦ inr (subst (λ x. Mem x (v ∷ vs)) (sym (e ∙ ground arith)) mem-cons_self)
    | inr not_above ↦ inl (e ∙ ground arith)
  ]
]

among_self :
    (x : Float64) (r : Float64) (rs : List Float64) → (x ≡ r) ⊎ Mem x (r ∷ rs) → Mem x (r ∷ rs)
among_self x r rs (inl e) = subst (λ y. Mem y (r ∷ rs)) (sym e) mem-cons_self
among_self x r rs (inr m) = m

-- For at least one reading, the spread is the difference of two of the readings, of which no reading
-- is below the one or above the other.
pub calculate-spread :
    (reference r : Float64) (rs : List Float64)
    → (low : Float64) × (high : Float64) × Mem low (r ∷ rs)
      × Mem high (r ∷ rs)
      × All (IsWithin low high) (r ∷ rs)
      × ((calculate reference (r ∷ rs)).spread ≡ fsub high low)
unfolding calculate
calculate-spread reference r rs =
    let start : Totals = record { sum = zero_float; low = r; high = r } in
    (
      _,
      _,
      among_self _ r rs (totals-low_Mem start (r ∷ rs)),
      among_self _ r rs (totals-high_Mem start (r ∷ rs)),
      totals-All start (r ∷ rs),
      refl,
    )
