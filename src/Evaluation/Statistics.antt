-- ===== src/Evaluation/Statistics.antt =====
-- internal/policy/evaluation/statistics.go: mean, errors and spread of the readings at a point.
use benzhi_project_fe3ad.Prelude.{ℕ, Bool, true, false, not, List, [], ◌∷◌, length, if◌then◌else◌}
use benzhi_project_fe3ad.Float64.{Float64, flt, feq, fadd, fsub, fdiv, fabs, of_nat, zero_float}
pub mod Spread

pub record Statistics : Type 0 where
  pub mean : Float64
  pub absolute_error : Float64
  pub relative_error : Float64
  pub spread : Float64

-- The loop's variables `sum`, `min` and `max`.
pub record Totals : Type 0 where
  pub sum : Float64
  pub low : Float64
  pub high : Float64

unfoldable pub total_step : Totals → Float64 → Totals
unfolding fadd flt
total_step t value = record {
  sum = fadd t.sum value;
  low = if flt value t.low then value else t.low;
  high = if flt t.high value then value else t.high;
}

unfoldable pub totals : Totals → List Float64 → Totals
unfolding total_step
totals t [] = t
totals t (value ∷ values) = totals (total_step t value) values

unfoldable pub calculate : Float64 → List Float64 → Statistics
unfolding totals fdiv fsub fabs of_nat feq
calculate reference [] = record {
  mean = zero_float;
  absolute_error = zero_float;
  relative_error = zero_float;
  spread = zero_float;
}
calculate reference (r ∷ rs) =
    let t = totals (record { sum = zero_float; low = r; high = r }) (r ∷ rs) in
    let mean = fdiv t.sum (of_nat (length (r ∷ rs))) in
    let abs = fabs (fsub mean reference) in
    record {
      mean = mean;
      absolute_error = abs;
      relative_error =
          if not (feq reference zero_float) then fdiv abs (fabs reference) else zero_float;
      spread = fsub t.high t.low;
    }
