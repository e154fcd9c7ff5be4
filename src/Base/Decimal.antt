-- ===== src/Base/Decimal.antt =====
-- JavaScript's `String(n)`, `parseInt` and `Number` on the decimal numerals of whole numbers.
use Prim.Native.Nat.{ℕ, zero, suc, ◌+◌, ◌-◌, ◌*◌, ◌/◌, ◌%◌, ◌<◌}
use mathlib.Core.Path.{◌≡◌, refl}
use mathlib.Core.Bool.{Bool, true, ◌&&◌}
use mathlib.Core.List.{[], ◌∷◌}
use mathlib.Core.Option.{Option, none, some}
use native.Mathlib.Omega.{arith}
use traffic_service.Base.Tests.{if◌then◌else◌, leb, ◌==◌}
use traffic_service.Base.Strings.{Text}
use traffic_service.Base.Lists.{All, length}

abbrev pub is_digit : ℕ → Bool
is_digit c = leb b'0' c && leb c b'9'

decimal_from : ℕ → ℕ → Text → Text
decimal_from zero n acc = acc
decimal_from (suc f) n acc =
    let longer = (48 + n % 10) ∷ acc in
    let rest = decimal_from f (n / 10) longer in if n / 10 == 0 then longer else rest

-- `n.toString()`; the number of rounds is at most the number itself plus one.
unfoldable pub decimal : ℕ → Text
unfolding decimal_from
decimal n = decimal_from (suc n) n []

unfoldable pub number_from : ℕ → Text → Option ℕ
number_from a [] = some a
number_from a (c ∷ s) = if is_digit c then number_from (a * 10 + (c - 48)) s else none

-- `Number(s)` and `parseInt(s)`, with `none` for NaN, where `s` is a decimal numeral.
unfoldable pub to_number : Text → Option ℕ
unfolding number_from
to_number s = number_from 0 s

number_from-decimal_from :
    (f n : ℕ) (acc : Text) → n < f → number_from 0 (decimal_from f n acc) ≡ number_from n acc
unfolding decimal_from number_from
number_from-decimal_from zero n acc h = elim h [ ]
number_from-decimal_from (suc f) n acc h =
    ground (arith, number_from-decimal_from f (n / 10) ((48 + n % 10) ∷ acc))

-- Reading back what was printed.
pub to_number-decimal : (n : ℕ) → to_number (decimal n) ≡ some n
unfolding to_number decimal
to_number-decimal n = number_from-decimal_from (suc n) n [] (omega arith)

abbrev pub IsDigit : ℕ → Type 0
IsDigit c = is_digit c ≡ true

decimal_from-IsDigit : (f n : ℕ) (acc : Text) → All IsDigit acc → All IsDigit (decimal_from f n acc)
unfolding decimal_from
decimal_from-IsDigit zero n acc h = h
decimal_from-IsDigit (suc f) n acc h =
    ground (arith, decimal_from-IsDigit f (n / 10) ((48 + n % 10) ∷ acc))

pub decimal-IsDigit : (n : ℕ) → All IsDigit (decimal n)
unfolding decimal
decimal-IsDigit n = decimal_from-IsDigit (suc n) n [] tt

-- `n.toString().padStart(2, "0")`
unfoldable pub pad : ℕ → Text
unfolding decimal
pad n = let s = decimal n in if leb (length s) 1 then b'0' ∷ s else s

pub pad-IsDigit : (n : ℕ) → All IsDigit (pad n)
unfolding pad
pad-IsDigit n = ground (arith, decimal-IsDigit n)

pub to_number-pad : (n : ℕ) → to_number (pad n) ≡ some n
unfolding pad to_number
to_number-pad n = ground (arith, to_number-decimal n)

decimal_example : decimal 2026 ≡ 50 ∷ 48 ∷ 50 ∷ 54 ∷ []
unfolding decimal
decimal_example = refl
