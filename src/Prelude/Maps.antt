-- ===== src/Prelude/Maps.antt =====
-- Go's maps as association lists. The order of the list is the order of an iteration, which Go
-- leaves open. `==` of the keys is a parameter: on floats it is not reflexive.
use benzhi_project_fe3ad.Prelude.Tests.{if◌then◌else◌}
use Prim.Native.String.{String}
use mathlib.Core.Path.{◌≡◌, refl}
use mathlib.Core.Bool.{Bool, false}
use mathlib.Core.Option.{Option, none, some}
use mathlib.Core.List.{List, [], ◌∷◌, map}
use native.Mathlib.Omega.{arith}
use benzhi_project_fe3ad.Prelude.Lists.{All}
use text.Mathlib.Text.{◌==◌ as str_eq}
use text.Mathlib.TextEquality.{eq_iff}
use text.Mathlib.TextPositions.{eq_refl}

abbrev pub MapOf {ℓ κ} : Type ℓ → Type κ → Type (ℓ ⊔ κ)
MapOf K V = List (K × V)

module _ {ℓ κ} {K : Type ℓ} {V : Type κ} (same : K → K → Bool) where
  -- m[k]
  unfoldable pub lookup_by : K → MapOf K V → Option V
  lookup_by k [] = none
  lookup_by k ((j, v) ∷ m) = if same j k then some v else lookup_by k m

  -- m[k] = v
  unfoldable pub insert_by : K → V → MapOf K V → MapOf K V
  insert_by k v [] = (k, v) ∷ []
  insert_by k v ((j, w) ∷ m) = if same j k then (k, v) ∷ m else (j, w) ∷ insert_by k v m

abbrev pub Map {ℓ} : Type ℓ → Type ℓ
Map V = MapOf String V

module _ {ℓ} {V : Type ℓ} where
  abbrev pub lookup : String → Map V → Option V
  lookup = lookup_by str_eq

  abbrev pub insert : String → V → Map V → Map V
  insert = insert_by str_eq

  abbrev pub values : Map V → List V
  values = map (λ e. e.1)

  pub lookup-insert :
      (k j : String) (v : V) (m : Map V)
      → lookup j (insert k v m) ≡ (if str_eq k j then some v else lookup j m)
  unfolding lookup_by insert_by
  lookup-insert k j v [] = refl
  lookup-insert k j v ((i, w) ∷ m) =
      ground (arith, eq_iff k j, eq_iff i k, eq_iff i j, lookup-insert k j v m)

  -- No key stands twice, as in a Go map.
  abbrev pub HasKeysOnce : Map V → Type 0
  HasKeysOnce [] = Unit
  HasKeysOnce ((k, v) ∷ m) = All (λ e. str_eq k e.0 ≡ false) m × HasKeysOnce m

  lookup-others :
      (k : String) (v : V) (m rest : Map V)
      → All (λ e. str_eq k e.0 ≡ false) rest
      → All (λ e. lookup e.0 m ≡ some e.1) rest
      → All (λ e. lookup e.0 ((k, v) ∷ m) ≡ some e.1) rest
  unfolding lookup_by
  lookup-others k v m [] differ found = tt
  lookup-others k v m (e ∷ rest) differ found =
      (ground (arith, differ.0, found.0), lookup-others k v m rest differ.1 found.1)

  -- Each entry is found under its key.
  pub HasKeysOnce-lookup : (m : Map V) → HasKeysOnce m → All (λ e. lookup e.0 m ≡ some e.1) m
  unfolding lookup_by
  HasKeysOnce-lookup [] once = tt
  HasKeysOnce-lookup ((k, v) ∷ m) once =
      (ground (arith, eq_refl k), lookup-others k v m m once.0 (HasKeysOnce-lookup m once.1))

  pub All-values_keyed {κ} :
      (P : String → V → Type κ) (m : Map V)
      → All (λ e. P e.0 e.1) m
      → (Q : V → Type κ) → ((k : String) (v : V) → P k v → Q v)
      → All Q (values m)
  All-values_keyed P [] h Q step = tt
  All-values_keyed P ((k, v) ∷ m) h Q step = (step k v h.0, All-values_keyed P m h.1 Q step)
