-- ===== src/Exec.antt =====
-- Steps that change a state and may end in an error: Go methods that write through a pointer, or that
-- do input and output, and return an error.
use benzhi_project_fe3ad.Prelude.{◌≡◌, refl}
use benzhi_project_fe3ad.Calibration.Errors.{Result, ok, err}

-- Steps that change a state, also where they end in an error.
abbrev pub Exec {ℓ} : Type 0 → Type ℓ → Type ℓ
Exec S A = S → S × Result A

module _ {ℓ κ} {S : Type 0} {A : Type ℓ} {B : Type κ} where
  abbrev pub continue : S × Result A → (A → Exec S B) → S × Result B
  continue (s, err e) next = (s, err e)
  continue (s, ok a) next = next a s

  infixl 5 ◌>>=◌
  abbrev pub ◌>>=◌ : Exec S A → (A → Exec S B) → Exec S B
  ◌>>=◌ m next s = continue (m s) next

abbrev pub pure {ℓ} : {S : Type 0} {A : Type ℓ} → A → Exec S A
pure a s = (s, ok a)

abbrev pub lift {ℓ} : {S : Type 0} {A : Type ℓ} → Result A → Exec S A
lift r s = (s, r)

module _ {ℓ κ} {S : Type 0} {A : Type ℓ} {B : Type κ} where
  -- Where a sequence of two steps ends without an error, so do both.
  pub continue-ok :
      (r : S × Result A) (next : A → Exec S B) (t : S) (b : B)
      → continue r next ≡ (t, ok b)
      → (s : S) × (a : A) × (r ≡ (s, ok a)) × (next a s ≡ (t, ok b))
  continue-ok (s, err e) next t b done = cc
  continue-ok (s, ok a) next t b done = (s, a, refl, done)
