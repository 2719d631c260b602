-- ===== src/Float64/Order.antt =====
-- The order of the doubles: `<` and `==` agree on finite numbers, and NaN is outside of both.
use benzhi_project_fe3ad.Prelude.{◌≡◌, refl, true, false, arith, ◌*◌}
use benzhi_project_fe3ad.Float64.{
  Float64, nan, infinite, finite, flt, feq, is_finite, fadd, fdiv, fsub, of_nat, one,
}

pub flt_irrefl : (a : Float64) → flt a a ≡ false
unfolding flt
flt_irrefl nan = refl
flt_irrefl (infinite s) = ground arith
flt_irrefl (finite s m) = ground arith

pub flt_trans : (a b c : Float64) → flt a b ≡ true → flt b c ≡ true → flt a c ≡ true
unfolding flt
flt_trans a b c p q = ground arith

pub flt_asymm : (a b : Float64) → flt a b ≡ true → flt b a ≡ false
unfolding flt
flt_asymm a b p = ground arith

pub feq_refl : (a : Float64) → is_finite a ≡ true → feq a a ≡ true
unfolding feq is_finite
feq_refl a h = ground arith

pub feq_sym : (a b : Float64) → feq a b ≡ feq b a
unfolding feq
feq_sym a b = ground arith

pub feq_trans : (a b c : Float64) → feq a b ≡ true → feq b c ≡ true → feq a c ≡ true
unfolding feq
feq_trans a b c p q = ground arith

-- Of two finite numbers the one is below the other, or they are equal.
pub flt_total :
    (a b : Float64)
    → is_finite a ≡ true
    → is_finite b ≡ true
    → flt a b ≡ false
    → feq a b ≡ false
    → flt b a ≡ true
unfolding flt feq is_finite
flt_total a b p q h k = ground arith

-- 1 / 3 + 1 / 3 is 2 / 3, and 3 - 1 is 2.
third_twice :
    fadd (fdiv (of_nat 1) (of_nat 3)) (fdiv (of_nat 1) (of_nat 3)) ≡ fdiv (of_nat 2) (of_nat 3)
unfolding fadd fdiv of_nat
third_twice = refl

three_less_one : fsub (of_nat 3) (of_nat 1) ≡ finite false (2 * one)
unfolding fsub of_nat
three_less_one = refl
