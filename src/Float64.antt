-- ===== src/Float64.antt =====
-- Go's `float64`: a NaN, an infinity, or a sign and a magnitude, counted in units of 2 ^ -1074, of
-- which every finite double is a multiple. Results are rounded to 53 bits, ties to even.
use benzhi_project_fe3ad.Prelude.{
  ℕ, zero, suc, ◌+◌, ◌-◌, ◌*◌, ◌/◌, ◌%◌, ◌^◌, Bool, true, false, not, ◌&&◌, ◌||◌, ltb, leb, ◌==◌,
  if◌then◌else◌,
}
pub mod Order

-- The sign is `true` for a negative number.
pub data Float64 : Type 0 where
  nan : Float64
  infinite : Bool → Float64
  finite : Bool → ℕ → Float64

abbrev pub pos_part : Bool → ℕ → ℕ
pos_part true m = 0
pos_part false m = m

abbrev pub neg_part : Bool → ℕ → ℕ
neg_part true m = m
neg_part false m = 0

-- Whether two signs differ.
abbrev pub differ : Bool → Bool → Bool
differ true t = not t
differ false t = t

-- a < b
unfoldable pub flt : Float64 → Float64 → Bool
flt (infinite s) (infinite t) = s && not t
flt (infinite s) (finite t n) = s
flt (finite s m) (infinite t) = not t
flt (finite s m) (finite t n) = ltb (pos_part s m + neg_part t n) (pos_part t n + neg_part s m)
flt _ _ = false

-- a == b
unfoldable pub feq : Float64 → Float64 → Bool
feq (infinite s) (infinite t) = not (differ s t)
feq (finite s m) (finite t n) = (pos_part s m + neg_part t n) == (pos_part t n + neg_part s m)
feq _ _ = false

-- a <= b, which is false at a NaN.
unfoldable pub fle : Float64 → Float64 → Bool
unfolding flt feq
fle a b = flt a b || feq a b

-- `!math.IsNaN(x) && !math.IsInf(x, 0)`
unfoldable pub is_finite : Float64 → Bool
is_finite nan = false
is_finite (infinite s) = false
is_finite (finite s m) = true

unfoldable pub is_nan : Float64 → Bool
is_nan nan = true
is_nan (infinite s) = false
is_nan (finite s m) = false

-- Units to one: the number 1 is `finite false one`.
abbrev pub one : ℕ
one = 2 ^ 1074

abbrev pub zero_float : Float64
zero_float = finite false 0

-- The power of two, from `u`, that leaves fewer than 2 ^ 53 of it in `q`. From 1, 2100 rounds find it
-- below 2 ^ 2153, and larger magnitudes overflow with any unit.
quantum : ℕ → ℕ → ℕ → ℕ
quantum zero q u = u
quantum (suc fuel) q u = let rest = quantum fuel q (2 * u) in if ltb q (2 ^ 53 * u) then u else rest

round_half_even : ℕ → ℕ → ℕ
round_half_even n d =
    if ltb d (2 * (n % d)) || (d == 2 * (n % d) && (n / d) % 2 == 1) then n / d + 1 else n / d

-- The double nearest to n / d units.
unfoldable pub round : Bool → ℕ → ℕ → Float64
unfolding quantum round_half_even
round s n d =
    let u = quantum 2100 (n / d) 1 in
    let m = round_half_even n (d * u) * u in if leb (2 ^ 2098) m then infinite s else finite s m

unfoldable pub fneg : Float64 → Float64
fneg nan = nan
fneg (infinite s) = infinite (not s)
fneg (finite s m) = finite (not s) m

-- `math.Abs`
unfoldable pub fabs : Float64 → Float64
fabs nan = nan
fabs (infinite s) = infinite false
fabs (finite s m) = finite false m

-- The signed difference of two magnitudes; an exact zero takes the sign given.
difference : Bool → ℕ → ℕ → Float64
unfolding round
difference z p n =
    if ltb n p then round false (p - n) 1 else if ltb p n then round true (n - p) 1 else finite z 0

unfoldable pub fadd : Float64 → Float64 → Float64
unfolding difference
fadd (infinite s) (infinite t) = if differ s t then nan else infinite s
fadd (infinite s) (finite t n) = infinite s
fadd (finite s m) (infinite t) = infinite t
fadd (finite s m) (finite t n) =
    difference (s && t) (pos_part s m + pos_part t n) (neg_part s m + neg_part t n)
fadd _ _ = nan

unfoldable pub fsub : Float64 → Float64 → Float64
unfolding fadd fneg
fsub a b = fadd a (fneg b)

unfoldable pub fdiv : Float64 → Float64 → Float64
unfolding round
fdiv (infinite s) (finite t n) = infinite (differ s t)
fdiv (finite s m) (infinite t) = finite (differ s t) 0
fdiv (finite s zero) (finite t zero) = nan
fdiv (finite s (suc m)) (finite t zero) = infinite (differ s t)
fdiv (finite s m) (finite t (suc n)) = round (differ s t) (m * one) (suc n)
fdiv _ _ = nan

-- `float64(n)` of a length.
unfoldable pub of_nat : ℕ → Float64
unfolding round
of_nat n = round false (n * one) 1
