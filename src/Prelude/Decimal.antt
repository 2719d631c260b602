-- ===== src/Prelude/Decimal.antt =====
-- Go's `%d` of a number that is not negative.
use Prim.Native.Nat.{ℕ, zero, suc, ◌/◌, ◌%◌}
use Prim.Native.String.{String, ◌++◌}
use benzhi_project_fe3ad.Prelude.Tests.{ltb, ◌==◌, if◌then◌else◌}

abbrev digit : ℕ → String
digit d =
    if d == 0
    then "0"
    else if d == 1
    then "1"
    else if d == 2
    then "2"
    else if d == 3
    then "3"
    else if d == 4
    then "4"
    else if d == 5
    then "5"
    else if d == 6
    then "6"
    else if d == 7
    then "7"
    else if d == 8
    then "8"
    else "9"

-- Each round takes a digit off, so that a number is more than the rounds that it needs.
digits : ℕ → ℕ → String
digits zero n = ""
digits (suc fuel) n =
    let rest = digits fuel (n / 10) ++ digit (n % 10) in if ltb n 10 then digit n else rest

unfoldable pub decimal : ℕ → String
unfolding digits
decimal n = digits (suc n) n
