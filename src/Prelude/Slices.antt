-- ===== src/Prelude/Slices.antt =====
-- Go's slices of a list: an element by its index, and `xs[:n]` and `xs[n:]`.
use Prim.Native.Nat.{ℕ, zero, suc, ◌+◌, ◌-◌}
use mathlib.Core.Path.{◌≡◌, refl, ap, subst, sym, ◌∙◌}
use mathlib.Core.Bool.{Bool, true}
use mathlib.Core.List.{List, [], ◌∷◌, ◌++◌}
use mathlib.Core.Option.{Option, none, some, some-injective}
use native.Mathlib.Omega.{arith}
use benzhi_project_fe3ad.Prelude.Tests.{ltb, leb}
use benzhi_project_fe3ad.Prelude.Lists.{length, All}
use benzhi_project_fe3ad.Prelude.Sorting.{Ordered}

module _ {ℓ} {A : Type ℓ} where
  abbrev pub get_elem? : List A → ℕ → Option A
  get_elem? [] i = none
  get_elem? (x ∷ xs) zero = some x
  get_elem? (x ∷ xs) (suc i) = get_elem? xs i

  abbrev pub take : ℕ → List A → List A
  take zero xs = []
  take (suc n) [] = []
  take (suc n) (x ∷ xs) = x ∷ take n xs

  abbrev pub drop : ℕ → List A → List A
  drop zero xs = xs
  drop (suc n) [] = []
  drop (suc n) (x ∷ xs) = drop n xs

  pub take-append-drop : (n : ℕ) (xs : List A) → take n xs ++ drop n xs ≡ xs
  take-append-drop zero xs = refl
  take-append-drop (suc n) [] = refl
  take-append-drop (suc n) (x ∷ xs) = ap (λ r. x ∷ r) (take-append-drop n xs)

  drop_nil : (n : ℕ) → drop n [] ≡ []
  drop_nil zero = refl
  drop_nil (suc n) = refl

  pub drop-drop : (n k : ℕ) (xs : List A) → drop n (drop k xs) ≡ drop (k + n) xs
  drop-drop n zero xs = let same : n ≡ 0 + n = omega arith in ap (λ i. drop i xs) same
  drop-drop n (suc k) [] = drop_nil n ∙ sym (drop_nil (suc k + n))
  drop-drop n (suc k) (x ∷ xs) =
      let shift : suc (k + n) ≡ suc k + n = omega arith in
      drop-drop n k xs ∙ ap (λ i. drop i (x ∷ xs)) shift

  pub length-drop : (n : ℕ) (xs : List A) → length (drop n xs) ≡ length xs - n
  length-drop zero xs = omega arith
  length-drop (suc n) [] = omega arith
  length-drop (suc n) (x ∷ xs) = omega (arith, length-drop n xs)

  pub length-take : (n : ℕ) (xs : List A) → leb (length (take n xs)) n ≡ true
  length-take zero xs = refl
  length-take (suc n) [] = ground arith
  length-take (suc n) (x ∷ xs) = ground (arith, length-take n xs)

  pub take_all : (n : ℕ) (xs : List A) → leb (length xs) n ≡ true → take n xs ≡ xs
  take_all zero [] h = refl
  take_all zero (x ∷ xs) h = absurd (ground arith)
  take_all (suc n) [] h = refl
  take_all (suc n) (x ∷ xs) h = ap (λ r. x ∷ r) (take_all n xs (ground arith))

  pub get_elem_within :
      (xs : List A) (i : ℕ) → ltb i (length xs) ≡ true → (x : A) × (get_elem? xs i ≡ some x)
  get_elem_within [] i h = absurd (ground arith)
  get_elem_within (x ∷ xs) zero h = (x, refl)
  get_elem_within (x ∷ xs) (suc i) h = get_elem_within xs i (ground arith)

  pub All-get_elem {κ} :
      (P : A → Type κ) (xs : List A) (i : ℕ) (x : A) → All P xs → get_elem? xs i ≡ some x → P x
  All-get_elem P [] i x h found = cc
  All-get_elem P (y ∷ ys) zero x h found = subst P (some-injective y x found) h.0
  All-get_elem P (y ∷ ys) (suc i) x h found = All-get_elem P ys i x h.1 found

  module _ {κ} (P : A → Type κ) where
    pub All-take : (n : ℕ) (xs : List A) → All P xs → All P (take n xs)
    All-take zero xs h = tt
    All-take (suc n) [] h = tt
    All-take (suc n) (x ∷ xs) h = (h.0, All-take n xs h.1)

    pub All-drop : (n : ℕ) (xs : List A) → All P xs → All P (drop n xs)
    All-drop zero xs h = h
    All-drop (suc n) [] h = tt
    All-drop (suc n) (x ∷ xs) h = All-drop n xs h.1

  module _ (less : A → A → Bool) where
    pub Ordered-get_elem :
        (xs : List A) (i j : ℕ) (x y : A)
        → Ordered less xs
        → ltb i j ≡ true
        → get_elem? xs i ≡ some x
        → get_elem? xs j ≡ some y
        → less x y ≡ true
    Ordered-get_elem [] i j x y o h at_i at_j = cc
    Ordered-get_elem (z ∷ zs) i zero x y o h at_i at_j = absurd (ground arith)
    Ordered-get_elem (z ∷ zs) zero (suc j) x y o h at_i at_j =
        All-get_elem (λ w. less x w ≡ true) zs j y
          (subst (λ w. All (λ v. less w v ≡ true) zs) (some-injective z x at_i) o.0) at_j
    Ordered-get_elem (z ∷ zs) (suc i) (suc j) x y o h at_i at_j =
        Ordered-get_elem zs i j x y o.1 (ground arith) at_i at_j
