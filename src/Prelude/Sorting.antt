-- ===== src/Prelude/Sorting.antt =====
-- What an insertion sort keeps, and the order of its result.
use Prim.Native.Nat.{◌+◌}
use mathlib.Core.Path.{◌≡◌, refl}
use mathlib.Core.Logic.{inl, inr}
use mathlib.Core.Bool.{Bool, true, false, ◌||◌}
use mathlib.Core.List.{List, [], ◌∷◌, map}
use native.Mathlib.Omega.{arith}
use benzhi_project_fe3ad.Prelude.Tests.{Bool-cases}
use benzhi_project_fe3ad.Prelude.Lists.{length, any, All, select, place, sort}

pub length-map {ℓ κ} :
    {A : Type ℓ} {B : Type κ} (f : A → B) (xs : List A) → length (map f xs) ≡ length xs
length-map f [] = refl
length-map f (x ∷ xs) = omega (arith, length-map f xs)

module _ {ℓ} {A : Type ℓ} (less : A → A → Bool) where
  length-place : (x : A) (ys : List A) → length (place less x ys) ≡ length ys + 1
  unfolding place
  length-place x [] = refl
  length-place x (y ∷ ys) = elim (Bool-cases (less y x)) [
    | inl below ↦ rw below (omega (arith, length-place x ys))
    | inr above ↦ rw above (omega arith)
  ]

  pub length-sort : (xs : List A) → length (sort less xs) ≡ length xs
  unfolding sort
  length-sort [] = refl
  length-sort (x ∷ xs) = omega (arith, length-place x (sort less xs), length-sort xs)

  any-place : (q : A → Bool) (x : A) (ys : List A) → any q (place less x ys) ≡ q x || any q ys
  unfolding place
  any-place q x [] = refl
  any-place q x (y ∷ ys) = elim (Bool-cases (less y x)) [
    | inl below ↦ ground (arith, any-place q x ys)
    | inr above ↦ ground arith
  ]

  -- Sorting keeps the elements.
  pub any-sort : (q : A → Bool) (xs : List A) → any q (sort less xs) ≡ any q xs
  unfolding sort
  any-sort q [] = refl
  any-sort q (x ∷ xs) = ground (arith, any-place q x (sort less xs), any-sort q xs)

  -- Each element is not less than the one before it.
  abbrev pub InOrder : A → List A → Type 0
  InOrder x [] = Unit
  InOrder x (y ∷ ys) = (less y x ≡ false) × InOrder y ys

  abbrev pub IsSorted : List A → Type 0
  IsSorted [] = Unit
  IsSorted (x ∷ xs) = InOrder x xs

  module _ (asymm : (x y : A) → less x y ≡ true → less y x ≡ false) where
    place-InOrder :
        (x y : A) (ys : List A) → less x y ≡ false → InOrder y ys → InOrder y (place less x ys)
    unfolding place
    place-InOrder x y [] h o = (h, tt)
    place-InOrder x y (z ∷ zs) h o = elim (Bool-cases (less z x)) [
      | inl below ↦ rw below (o.0, place-InOrder x z zs (asymm z x below) o.1)
      | inr above ↦ rw above (h, (above, o.1))
    ]

    place-IsSorted : (x : A) (ys : List A) → IsSorted ys → IsSorted (place less x ys)
    unfolding place
    place-IsSorted x [] o = tt
    place-IsSorted x (y ∷ ys) o = elim (Bool-cases (less y x)) [
      | inl below ↦ rw below (place-InOrder x y ys (asymm y x below) o)
      | inr above ↦ rw above (above, o)
    ]

    pub sort-IsSorted : (xs : List A) → IsSorted (sort less xs)
    unfolding sort
    sort-IsSorted [] = tt
    sort-IsSorted (x ∷ xs) = place-IsSorted x (sort less xs) (sort-IsSorted xs)

module _ {ℓ κ} {A : Type ℓ} (P : A → Type κ) where
  pub All-select : (q : A → Bool) (xs : List A) → All P xs → All P (select q xs)
  All-select q [] h = tt
  All-select q (x ∷ xs) h = elim (Bool-cases (q x)) [
    | inl yes_x ↦ rw yes_x (h.0, All-select q xs h.1)
    | inr no_x ↦ rw no_x (All-select q xs h.1)
  ]

  pub All-place :
      (less : A → A → Bool) (x : A) (ys : List A) → P x → All P ys → All P (place less x ys)
  unfolding place
  All-place less x [] p h = (p, tt)
  All-place less x (y ∷ ys) p h = elim (Bool-cases (less y x)) [
    | inl below ↦ rw below (h.0, All-place less x ys p h.1)
    | inr above ↦ rw above (p, h)
  ]

  pub All-sort : (less : A → A → Bool) (xs : List A) → All P xs → All P (sort less xs)
  unfolding sort
  All-sort less [] h = tt
  All-sort less (x ∷ xs) h = All-place less x (sort less xs) h.0 (All-sort less xs h.1)

module _ {ℓ} {A : Type ℓ} (less : A → A → Bool) where
  -- Each element is below all that come after it.
  abbrev pub Ordered : List A → Type ℓ
  Ordered [] = Unit
  Ordered (x ∷ xs) = All (λ y. less x y ≡ true) xs × Ordered xs

  -- Of two elements the one is below the other.
  abbrev pub Decided : List A → Type ℓ
  Decided [] = Unit
  Decided (x ∷ xs) = All (λ y. less y x ≡ false → less x y ≡ true) xs × Decided xs

  pub Ordered-select : (q : A → Bool) (xs : List A) → Ordered xs → Ordered (select q xs)
  Ordered-select q [] o = tt
  Ordered-select q (x ∷ xs) o = elim (Bool-cases (q x)) [
    | inl yes_x ↦ rw yes_x (All-select (λ y. less x y ≡ true) q xs o.0, Ordered-select q xs o.1)
    | inr no_x ↦ rw no_x (Ordered-select q xs o.1)
  ]

  module _ (trans : (x y z : A) → less x y ≡ true → less y z ≡ true → less x z ≡ true) where
    All-below :
        (x y : A) (ys : List A)
        → less x y ≡ true
        → All (λ z. less y z ≡ true) ys
        → All (λ z. less x z ≡ true) ys
    All-below x y [] p h = tt
    All-below x y (z ∷ zs) p h = (trans x y z p h.0, All-below x y zs p h.1)

    place-Ordered :
        (x : A) (ys : List A)
        → All (λ y. less y x ≡ false → less x y ≡ true) ys
        → Ordered ys
        → Ordered (place less x ys)
    unfolding place
    place-Ordered x [] d o = (tt, tt)
    place-Ordered x (y ∷ ys) d o = elim (Bool-cases (less y x)) [
      | inl below ↦
          rw below
            (All-place (λ z. less y z ≡ true) less x ys below o.0, place-Ordered x ys d.1 o.1)
      | inr above ↦ let under = d.0 above in rw above ((under, All-below x y ys under o.0), o)
    ]

    pub sort-Ordered : (xs : List A) → Decided xs → Ordered (sort less xs)
    unfolding sort
    sort-Ordered [] d = tt
    sort-Ordered (x ∷ xs) d =
        place-Ordered x (sort less xs)
          (All-sort (λ y. less y x ≡ false → less x y ≡ true) less xs d.0) (sort-Ordered xs d.1)

pub All-both {ℓ κ μ} :
    {A : Type ℓ} (P : A → Type κ) (Q : A → Type μ) (xs : List A)
    → All P xs
    → All Q xs
    → All (λ x. P x × Q x) xs
All-both P Q [] h k = tt
All-both P Q (x ∷ xs) h k = ((h.0, k.0), All-both P Q xs h.1 k.1)
