-- ===== src/Datetime/Local.antt =====
-- lib/datetime.ts, `parseLocalDateTime`: what it reads from the text that a date-time field holds.
use traffic_service.Base.{
  ◌==◌, All, All-append, Text, ℕ, ◌-◌, ◌<◌, ◌≡◌, refl, ap, ◌∙◌, false, some, [], ◌∷◌, ◌++◌, arith,
}
use traffic_service.Base.Decimal.{
  is_digit, IsDigit, decimal, pad, decimal-IsDigit, pad-IsDigit, to_number-decimal, to_number-pad,
}
use traffic_service.Datetime.{split, parse_local_date_time, fields_of}

abbrev Lacks : ℕ → Text → Type 0
Lacks sep s = All (λ c. (c == sep) ≡ false) s

-- A separator is found behind a text that lacks it.
split-append : (sep : ℕ) (s t : Text) → Lacks sep s → split sep (s ++ sep ∷ t) ≡ s ∷ split sep t
unfolding split
split-append sep [] t h = ground arith
split-append sep (c ∷ s) t (d, ds) = ground (arith, split-append sep s t ds)

split-Lacks : (sep : ℕ) (s : Text) → Lacks sep s → split sep s ≡ s ∷ []
unfolding split
split-Lacks sep [] h = refl
split-Lacks sep (c ∷ s) (d, ds) = ground (arith, split-Lacks sep s ds)

digits-Lacks : (sep : ℕ) (s : Text) → is_digit sep ≡ false → All IsDigit s → Lacks sep s
digits-Lacks sep [] h d = tt
digits-Lacks sep (c ∷ s) h (d, ds) = (ground arith, digits-Lacks sep s h ds)

-- `YYYY-MM-DD` and `HH:mm`
abbrev pub date_text : ℕ → ℕ → ℕ → Text
date_text y m d = decimal y ++ (b'-' ∷ (pad m ++ (b'-' ∷ pad d)))

abbrev pub time_text : ℕ → ℕ → Text
time_text h n = pad h ++ (b':' ∷ pad n)

split-digits :
    (sep : ℕ) (s t : Text)
    → is_digit sep ≡ false
    → All IsDigit s
    → split sep (s ++ sep ∷ t) ≡ s ∷ split sep t
split-digits sep s t h d = split-append sep s t (digits-Lacks sep s h d)

split-time_text : (h n : ℕ) → split b':' (time_text h n) ≡ pad h ∷ pad n ∷ []
split-time_text h n =
    split-digits b':' (pad h) (pad n) refl (pad-IsDigit h)
    ∙ ap (λ ps. pad h ∷ ps)
        (split-Lacks b':' (pad n) (digits-Lacks b':' (pad n) refl (pad-IsDigit n)))

split-date_text : (y m d : ℕ) → split b'-' (date_text y m d) ≡ decimal y ∷ pad m ∷ pad d ∷ []
split-date_text y m d =
    split-digits b'-' (decimal y) (pad m ++ (b'-' ∷ pad d)) refl (decimal-IsDigit y)
    ∙ ap (λ ps. decimal y ∷ ps)
        (split-digits b'-' (pad m) (pad d) refl (pad-IsDigit m)
          ∙ ap (λ ps. pad m ∷ ps)
              (split-Lacks b'-' (pad d) (digits-Lacks b'-' (pad d) refl (pad-IsDigit d))))

date_text-Lacks : (y m d : ℕ) → Lacks b'T' (date_text y m d)
date_text-Lacks y m d = All-append _ (decimal y) _ (digits-Lacks _ _ refl (decimal-IsDigit y)) (
  refl,
  All-append _ (pad m) _ (digits-Lacks _ _ refl (pad-IsDigit m))
      (refl, digits-Lacks _ _ refl (pad-IsDigit d)),
)

time_text-Lacks : (h n : ℕ) → Lacks b'T' (time_text h n)
time_text-Lacks h n =
    All-append _ (pad h) _ (digits-Lacks _ _ refl (pad-IsDigit h))
      (refl, digits-Lacks _ _ refl (pad-IsDigit n))

split-local_text :
    (y m d h n : ℕ)
    → split b'T' (date_text y m d ++ (b'T' ∷ time_text h n)) ≡ date_text y m d ∷ time_text h n ∷ []
split-local_text y m d h n =
    split-append b'T' (date_text y m d) (time_text h n) (date_text-Lacks y m d)
    ∙ ap (λ ps. date_text y m d ∷ ps) (split-Lacks b'T' (time_text h n) (time_text-Lacks h n))

fields_of_numerals :
    (y m d h n : ℕ)
    → 0 < m
    → 0 < d
    → fields_of (decimal y ∷ pad m ∷ pad d ∷ []) (pad h ∷ pad n ∷ [])
      ≡ some (record { year = y; month = m - 1; day = d; hours = h; minutes = n })
unfolding fields_of
fields_of_numerals y m d h n pm pd =
    ground (
      arith,
      to_number-decimal y,
      to_number-pad m,
      to_number-pad d,
      to_number-pad h,
      to_number-pad n,
    )

-- `parseLocalDateTime` reads a year, month, day, hours and minutes written as `YYYY-MM-DDTHH:mm`
-- back, the month counted from 0, for every month and day of at least 1.
pub parse_local_date_time_lem :
    (y m d h n : ℕ)
    → 0 < m
    → 0 < d
    → parse_local_date_time (date_text y m d ++ (b'T' ∷ time_text h n))
      ≡ some (record { year = y; month = m - 1; day = d; hours = h; minutes = n })
unfolding parse_local_date_time
parse_local_date_time_lem y m d h n pm pd = rw (split-local_text y m d h n) (
    rw (split-date_text y m d, split-time_text h n)
      (unfold fields_of in fields_of_numerals y m d h n pm pd))
