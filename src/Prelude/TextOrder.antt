-- ===== src/Prelude/TextOrder.antt =====
-- The order of Go's strings: a strict order in which two texts are equal or one is below the other.
use Prim.Native.Nat.{ℕ, compare as compare_ℕ, Ordering}
use Prim.Native.Char.{Char, code}
use Prim.Native.String.compare
use Prim.Native.String.{String, compare, then}
use mathlib.Core.Path.{◌≡◌, refl, ap, ◌∙◌}
use mathlib.Core.Bool.{true, false, ◌&&◌, ◌||◌}
use native.Mathlib.Omega.{arith}
use text.Mathlib.Text.{is_lt}
use text.Mathlib.TextEquality.{codes_equal}
use benzhi_project_fe3ad.Prelude.Tests.{ltb, ◌==◌}
use benzhi_project_fe3ad.Prelude.Text.{str_lt}

-- The first difference decides.
is_lt-then :
    (m n : ℕ) (o : Ordering) → is_lt (then (compare_ℕ m n) o) ≡ ltb m n || (m == n && is_lt o)
is_lt-then m n o = ground arith

str_lt-cons :
    (c d : Char) (s t : String)
    → str_lt (String.◌∷◌ c s) (String.◌∷◌ d t)
      ≡ ltb (code c) (code d) || (code c == code d && str_lt s t)
str_lt-cons c d s t =
    ap is_lt (compare.cons-cons c d s t) ∙ is_lt-then (code c) (code d) (compare s t)

pub str_lt_nil : (s : String) → str_lt s String.[] ≡ false
str_lt_nil String.[] = ap is_lt compare.nil-nil
str_lt_nil (String.◌∷◌ c s) = ap is_lt (compare.cons-nil c s)

pub str_lt_trans : (s t u : String) → str_lt s t ≡ true → str_lt t u ≡ true → str_lt s u ≡ true
str_lt_trans s t String.[] h k = ground (arith, str_lt_nil t)
str_lt_trans s String.[] (String.◌∷◌ e u) h k = ground (arith, str_lt_nil s)
str_lt_trans String.[] (String.◌∷◌ d t) (String.◌∷◌ e u) h k = ap is_lt (compare.nil-cons e u)
str_lt_trans (String.◌∷◌ c s) (String.◌∷◌ d t) (String.◌∷◌ e u) h k =
    ground
      (arith, str_lt-cons c d s t, str_lt-cons d e t u, str_lt-cons c e s u, str_lt_trans s t u)

pub str_lt_asymm : (s t : String) → str_lt s t ≡ true → str_lt t s ≡ false
str_lt_asymm s String.[] h = ground (arith, str_lt_nil s)
str_lt_asymm String.[] (String.◌∷◌ d t) h = str_lt_nil (String.◌∷◌ d t)
str_lt_asymm (String.◌∷◌ c s) (String.◌∷◌ d t) h =
    ground (arith, str_lt-cons c d s t, str_lt-cons d c t s, str_lt_asymm s t)

compare-eq : (m n : ℕ) → (m == n) ≡ true → compare_ℕ m n ≡ Ordering.eq
compare-eq m n h = ground arith

pub str_lt_total : (s t : String) → str_lt s t ≡ false → str_lt t s ≡ false → s ≡ t
str_lt_total String.[] String.[] h k = refl
str_lt_total String.[] (String.◌∷◌ d t) h k =
    absurd (ground (arith, ap is_lt (compare.nil-cons d t)))
str_lt_total (String.◌∷◌ c s) String.[] h k =
    absurd (ground (arith, ap is_lt (compare.nil-cons c s)))
str_lt_total (String.◌∷◌ c s) (String.◌∷◌ d t) h k = λ i. String.◌∷◌ (same_head i) (
    str_lt_total s t (ground (arith, str_lt-cons c d s t, str_lt-cons d c t s))
      (ground (arith, str_lt-cons c d s t, str_lt-cons d c t s)) i)
  where
    same_head : c ≡ d
    same_head =
        codes_equal c d
          (compare-eq (code c) (code d) (ground (arith, str_lt-cons c d s t, str_lt-cons d c t s)))
