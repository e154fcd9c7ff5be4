-- ===== src/Base/Double.antt =====
-- Floating-point numbers, which the program reads, prints and passes on. A double is represented
-- by the text that `String` gives it, which determines it but for the sign of zero.
use mathlib.Core.Path.{◌≡◌}
use mathlib.Core.Bool.{Bool, false}
use traffic_service.Base.Strings.{Text, codes, ◌===◌}
use Prim.Native.Nat.{ℕ}

abbrev pub Double : Type 0
Double = Text

abbrev pub is_nan : Double → Bool
is_nan x = x === codes "NaN"

-- What the runtime does between texts and doubles: `parseFloat` and `x.toFixed(k)`. The law is
-- that of `toFixed` on finite numbers: what it prints, `parseFloat` reads as a number.
pub record FloatText : Type 0 where
  pub parse_float : Text → Double
  pub to_fixed : ℕ → Double → Text
  pub fixed_is_number :
      (k : ℕ) (x : Double) → is_nan x ≡ false → is_nan (parse_float (to_fixed k x)) ≡ false
  pub empty_is_nan : parse_float (codes "") ≡ codes "NaN"
