-- ===== src/Geocoding/Pattern.antt =====
-- LocationText.tsx: the pattern of coordinates.
use mathlib.Core.List.{append_assoc, append-nil}
use mathlib.Core.Path.{subst}
use traffic_service.Base.Decimal.{is_digit}
use traffic_service.Geocoding.{span, optional, match_number, is_empty, is_space, coords_match}
use traffic_service.Base.{
  ◌==◌, if◌then◌else◌, Bool-cases, ◌or_else◌, All, Text, codes, ℕ, ◌≡◌, refl, ap, inl, inr, Bool,
  true, false, Option, none, some, [], ◌∷◌, ◌++◌, arith,
}

-- A number as the pattern wants it: a minus or none, digits, and more digits behind a dot or none.
pub record Numeral : Type 0 where
  pub minus : Bool
  pub first : ℕ
  pub whole : Text
  pub fraction : Option Text

abbrev pub IsNumeral : Numeral → Type 0
IsNumeral n =
    (is_digit n.first ≡ true)
    × All (λ c. is_digit c ≡ true) n.whole
    × All (λ c. is_digit c ≡ true) (n.fraction or_else [])

abbrev minus_text : Bool → Text
minus_text true = codes "-"
minus_text false = []

abbrev fraction_text : Option Text → Text
fraction_text none = []
fraction_text (some s) = b'.' ∷ s

abbrev pub print : Numeral → Text
print n = minus_text n.minus ++ (n.first ∷ (n.whole ++ fraction_text n.fraction))

-- A text that is empty or starts with a character that the test refuses.
abbrev Stops : (ℕ → Bool) → Text → Type 0
Stops p [] = Unit
Stops p (c ∷ s) = p c ≡ false

span-append :
    (p : ℕ → Bool) (s rest : Text)
    → All (λ c. p c ≡ true) s
    → Stops p rest
    → span p (s ++ rest) ≡ (s, rest)
unfolding span
span-append p [] [] h stop = refl
span-append p [] (c ∷ rest) h stop = rw stop refl
span-append p (c ∷ s) rest h stop = rw (h.0, span-append p s rest h.1 stop) refl

-- What may follow a numeral: nothing, or a character that is neither a digit nor a dot.
abbrev MayFollow : Text → Type 0
MayFollow [] = Unit
MayFollow (c ∷ s) = (is_digit c ≡ false) × ((c == b'.') ≡ false)

Stops-fraction :
    (fraction : Option Text) (rest : Text)
    → MayFollow rest
    → Stops is_digit (fraction_text fraction ++ rest)
Stops-fraction none [] h = tt
Stops-fraction none (c ∷ rest) h = h.0
Stops-fraction (some s) rest h = refl

span_whole :
    (n : Numeral) (rest : Text)
    → IsNumeral n
    → MayFollow rest
    → span is_digit (n.first ∷ (n.whole ++ fraction_text n.fraction ++ rest))
      ≡ (n.first ∷ n.whole, fraction_text n.fraction ++ rest)
span_whole n rest h last = rw (append_assoc n.whole (fraction_text n.fraction) rest) (
    span-append is_digit (n.first ∷ n.whole) (fraction_text n.fraction ++ rest) (h.0, h.1)
      (Stops-fraction n.fraction rest last))

span_fraction :
    (fraction : Option Text) (rest : Text)
    → All (λ c. is_digit c ≡ true) (fraction or_else [])
    → MayFollow rest
    → let dot = optional b'.' (fraction_text fraction ++ rest) in
      let digits = span is_digit dot.1 in
      (dot.0 ++ digits.0 ≡ fraction_text fraction) × (digits.1 ≡ rest)
unfolding span
span_fraction none [] h last = (refl, refl)
span_fraction none (c ∷ rest) h last = ground (arith, last.0, last.1)
span_fraction (some s) rest h last =
    let e = span-append is_digit s rest h (Stops-fraction none rest last) in
    (ap (λ (q : Text × Text). b'.' ∷ q.0) e, ap (λ (q : Text × Text). q.1) e)

-- The number of a text behind its sign.
abbrev unsigned : Text → Text → Option (Text × Text)
unsigned sign s =
    let whole = span is_digit s in
    let dot = optional b'.' whole.1 in
    let fraction = span is_digit dot.1 in
    if is_empty whole.0 then none else some (sign ++ (whole.0 ++ (dot.0 ++ fraction.0)), fraction.1)

unsigned-print :
    (sign : Text) (n : Numeral) (rest : Text)
    → IsNumeral n
    → MayFollow rest
    → unsigned sign (n.first ∷ (n.whole ++ fraction_text n.fraction ++ rest))
      ≡ some (sign ++ (n.first ∷ (n.whole ++ fraction_text n.fraction)), rest)
unsigned-print sign n rest h last =
    let (dots, left) = span_fraction n.fraction rest h.2 last in
    rw (span_whole n rest h last, dots, left) refl

match_number-print :
    (n : Numeral) (rest : Text)
    → IsNumeral n
    → MayFollow rest
    → match_number (print n ++ rest) ≡ some (print n, rest)
unfolding match_number
match_number-print n rest h last = elim (Bool-cases n.minus) [
  | inl yes_sign ↦ rw yes_sign (unsigned-print (b'-' ∷ []) n rest h last)
  | inr no_sign ↦
      rw (no_sign, (let e : (n.first == b'-') ≡ false = ground (arith, h.0) in e))
        (unsigned-print [] n rest h last)
]

space_MayFollow : (s rest : Text) → All (λ c. is_space c ≡ true) s → MayFollow (s ++ (b',' ∷ rest))
space_MayFollow [] rest h = (refl, refl)
space_MayFollow (c ∷ s) rest h = (ground (arith, h.0), ground (arith, h.0))

Stops-print : (n : Numeral) → IsNumeral n → Stops is_space (print n)
Stops-print n h = elim (Bool-cases n.minus) [
  | inl yes_sign ↦ rw yes_sign refl
  | inr no_sign ↦ rw no_sign (ground (arith, h.0))
]

match_alone : (n : Numeral) → IsNumeral n → match_number (print n) ≡ some (print n, [])
match_alone n h =
    subst (λ (s : Text). match_number s ≡ some (print n, [])) (append-nil (print n))
      (match_number-print n [] h tt)

-- Two numerals with a comma between them, and white space around it or none, are taken apart into
-- the numerals.
pub coords_match-print :
    (lat lng : Numeral) (before after : Text)
    → IsNumeral lat
    → IsNumeral lng
    → All (λ c. is_space c ≡ true) before
    → All (λ c. is_space c ≡ true) after
    → coords_match (print lat ++ (before ++ (b',' ∷ (after ++ print lng))))
      ≡ some (print lat, print lng)
unfolding coords_match
coords_match-print lat lng before after hlat hlng hbefore hafter =
    rw
      (
        match_number-print lat (before ++ (b',' ∷ (after ++ print lng))) hlat
            (space_MayFollow before (after ++ print lng) hbefore),
        span-append is_space before (b',' ∷ (after ++ print lng)) hbefore refl,
        span-append is_space after (print lng) hafter (Stops-print lng hlng),
        match_alone lng hlng,
      )
      refl
