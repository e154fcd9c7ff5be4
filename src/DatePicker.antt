-- ===== src/DatePicker.antt =====
-- services/bff/traffic-frontend/src/components/ui/date-time-picker.tsx. A date is its fields in
-- local time, without milliseconds. Shifts of the clock within a day are not modelled.
pub mod Clamp
pub mod Offered
use traffic_service.Base.Decimal.{decimal, to_number, pad}
use traffic_service.Base.{
  leb, ◌==◌, if◌then◌else◌, ◌or_else◌, filter, find, Text, ℕ, zero, suc, ◌+◌, max, Bool, ◌&&◌,
  Option, none, some, List, [], ◌∷◌, ◌++◌, map,
}

pub record LocalDate : Type 0 where
  pub year : ℕ
  pub month : ℕ
  pub date : ℕ
  pub hours : ℕ
  pub minutes : ℕ
  pub seconds : ℕ

abbrev indices : ℕ → ℕ → List ℕ
indices zero i = []
indices (suc n) i = i ∷ indices n (i + 1)

-- `HOURS` and `MINUTES`
unfoldable pub all_hours : List ℕ
all_hours = indices 24 0

unfoldable pub all_minutes : List ℕ
all_minutes = 0 ∷ 5 ∷ 10 ∷ 15 ∷ 20 ∷ 25 ∷ 30 ∷ 35 ∷ 40 ∷ 45 ∷ 50 ∷ 55 ∷ []

-- The month counts from 0.
unfoldable pub format_display : LocalDate → Text
format_display d =
    decimal d.year
    ++ (b'-'
        ∷ (pad (d.month + 1)
            ++ (b'-' ∷ (pad d.date ++ (b' ' ∷ (pad d.hours ++ (b':' ∷ pad d.minutes)))))))

abbrev pub is_same_day : LocalDate → LocalDate → Bool
is_same_day a b = a.year == b.year && (a.month == b.month && a.date == b.date)

unfoldable pub min_hour : LocalDate → LocalDate → ℕ
min_hour now value = if is_same_day value now then now.hours else 0

unfoldable pub min_minute : LocalDate → LocalDate → ℕ
min_minute now value = if is_same_day value now && value.hours == now.hours then now.minutes else 0

-- `MINUTES.find((m) => m >= minutes) ?? 0`
unfoldable pub next_minute : ℕ → ℕ
unfolding all_minutes
next_minute minutes = find (λ m. leb minutes m) all_minutes or_else 0

-- The date that `onChange` is given, `none` where the handler returns at once.
unfoldable pub handle_day_select : LocalDate → LocalDate → Option LocalDate → Option LocalDate
handle_day_select now value none = none
handle_day_select now value (some day) =
    let today = is_same_day day now in
    let h = if today then max value.hours now.hours else value.hours in
    let m = if today && h == now.hours then next_minute now.minutes else value.minutes in
    some (record day { hours = h; minutes = m; seconds = 0 })

-- `parseInt(hour)` of an item of the list is never NaN; for another text it is, and so is the
-- date, `none`.
unfoldable pub handle_hour_change : LocalDate → LocalDate → Option Text → Option LocalDate
handle_hour_change now value none = none
handle_hour_change now value (some hour) = elim (to_number hour) [
  | none ↦ none
  | some h ↦ some (record value {
    hours = h;
    minutes =
        if is_same_day value now && h == now.hours
        then max value.minutes (next_minute now.minutes)
        else value.minutes;
    seconds = 0;
  })
]

unfoldable pub handle_minute_change : LocalDate → Option Text → Option LocalDate
handle_minute_change value none = none
handle_minute_change value (some minute) = elim (to_number minute) [
  | none ↦ none
  | some m ↦ some (record value { minutes = m; seconds = 0 })
]

-- The values and labels of the two lists.
abbrev item : ℕ → Text × Text
item n = (decimal n, pad n)

unfoldable pub hour_items : LocalDate → LocalDate → List (Text × Text)
hour_items now value = map item (filter (λ h. leb (min_hour now value) h) all_hours)

unfoldable pub minute_items : LocalDate → LocalDate → List (Text × Text)
minute_items now value = map item (filter (λ m. leb (min_minute now value) m) all_minutes)
