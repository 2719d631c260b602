-- ===== src/Prelude/Int64.antt =====
-- Go's `int64`, and `int` of a 64-bit platform, as a bit pattern below 2 ^ 64.
use Prim.Native.Nat.{ℕ, ◌+◌, ◌-◌, ◌%◌, ◌^◌, ◌<◌}
use mathlib.Core.Path.{◌≡◌, refl}
use mathlib.Core.Bool.{Bool, true}
use native.Mathlib.Omega.{arith}
use benzhi_project_fe3ad.Prelude.Tests.{ltb}

abbrev pub Int64 : Type 0
Int64 = ℕ

-- The order of the signed numbers, as that of the naturals: -2 ^ 63 comes to 0.
abbrev biased : Int64 → ℕ
biased a = (a + 2 ^ 63) % 2 ^ 64

-- a < b
abbrev pub slt : Int64 → Int64 → Bool
slt a b = ltb (biased a) (biased b)

-- a++
abbrev pub inc : Int64 → Int64
inc a = (a + 1) % 2 ^ 64

-- A pattern that stands for a number of zero or more.
abbrev pub IsNat : Int64 → Type 0
IsNat a = a < 2 ^ 63

pub slt-inc : (a : Int64) → a + 1 < 2 ^ 63 → slt a (inc a) ≡ true
slt-inc a h = ground arith

pub inc-nat : (a : Int64) → a + 1 < 2 ^ 63 → inc a ≡ a + 1
inc-nat a h = omega arith

minus_one : slt (2 ^ 64 - 1) 1 ≡ true
minus_one = refl
