-- ===== src/Calibration/Lifecycle/Paths.antt =====
-- The paths of a batch along the legal transitions of lifecycle.go.
use benzhi_project_fe3ad.Prelude.{
  ◌≡◌, refl, sym, ap, ◌∙◌, ◌⊎◌, inl, inr, Bool, true, false, ◌||◌, Bool-cases, arith,
}
use benzhi_project_fe3ad.Calibration.Types.{BatchStatus, ready_review, frozen, released, status_eq}
use benzhi_project_fe3ad.Calibration.Lifecycle.{allowed_transition}

-- A sequence of legal transitions.
pub data Walk (a : BatchStatus) : BatchStatus → Type 0 where
  here : Walk a a
  next : {b c : BatchStatus} → Walk a b → allowed_transition b c ≡ true → Walk a c

-- The statuses that `Mutable` refuses.
abbrev pub is_sealed : BatchStatus → Bool
is_sealed s = status_eq s frozen || status_eq s released

into_sealed :
    (b c : BatchStatus)
    → allowed_transition b c ≡ true
    → is_sealed b ≡ false
    → is_sealed c ≡ true
    → (b ≡ ready_review) × (c ≡ frozen)
unfolding allowed_transition
into_sealed b c step out inside = ground arith

-- A path in two parts with a step between them.
abbrev pub join : {a b c : BatchStatus} → Walk a b → Walk b c → Walk a c
join p here = p
join p (next q step) = next (join p q) step

-- The step into a sealed status.
through :
    (a b c : BatchStatus) (w : Walk a b) (step : allowed_transition b c ≡ true)
    → b ≡ ready_review
    → c ≡ frozen
    → (p : Walk a ready_review) × (review : allowed_transition ready_review frozen ≡ true)
      × (q : Walk frozen c) × (next w step ≡ join (next p review) q)
through a ready_review frozen w step is_b is_c = (w, step, here, refl)
through a b c w step is_b is_c = absurd cc

-- A batch that became frozen or released on its way passed the review: a path from an unsealed
-- status to a sealed one is a path to `ready_review`, the step from there to `frozen`, and the rest.
pub sealed_after_review :
    (a b : BatchStatus) (w : Walk a b)
    → is_sealed a ≡ false
    → is_sealed b ≡ true
    → (p : Walk a ready_review) × (step : allowed_transition ready_review frozen ≡ true) × (q : Walk
        frozen b)
      × (w ≡ join (next p step) q)
sealed_after_review a b here out inside = absurd cc
sealed_after_review a c (next {b} w step) out inside = elim (Bool-cases (is_sealed b)) [
  | inl was ↦
      let (p, review, q, same) = sealed_after_review a b w out was in
      (p, review, next q step, ap (λ v. next v step) same)
  | inr not_yet ↦ let (p, q) = into_sealed b c step not_yet inside in through a b c w step p q
]

released_not_frozen : ¬ (released ≡ frozen)
released_not_frozen e = cc

from_sealed :
    (b c : BatchStatus)
    → allowed_transition b c ≡ true
    → is_sealed b ≡ true
    → (b ≡ frozen) × (c ≡ released)
unfolding allowed_transition
from_sealed b c step inside = ground arith

-- Once sealed, always sealed: a path from a frozen or released status stays there, or leads from
-- `frozen` to `released`.
pub sealed_for_good :
    (a b : BatchStatus) → Walk a b → is_sealed a ≡ true → (b ≡ a) ⊎ ((a ≡ frozen) × (b ≡ released))
sealed_for_good a b here inside = inl refl
sealed_for_good a c (next {b} w step) inside = elim (sealed_for_good a b w inside) [
  | inl same ↦ let (p, q) = from_sealed b c step (rw same inside) in inr (sym same ∙ p, q)
  | inr (p, q) ↦
      let (p', q') = from_sealed b c step (rw q refl) in absurd (released_not_frozen (sym q ∙ p'))
]
