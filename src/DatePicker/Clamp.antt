-- ===== src/DatePicker/Clamp.antt =====
-- date-time-picker.tsx: the handlers against times in the past.
use traffic_service.Base.Decimal.{decimal, to_number-decimal}
use traffic_service.DatePicker.{
  LocalDate, is_same_day, next_minute, handle_day_select, min_hour, min_minute, handle_hour_change,
  handle_minute_change,
}
use traffic_service.Base.{
  Bool-cases, ℕ, ◌+◌, ◌*◌, ◌≤◌, ◌<◌, ◌≡◌, refl, ◌⊎◌, inl, inr, true, false, some, arith,
}

-- The fields are in their ranges.
abbrev pub IsDate : LocalDate → Type 0
IsDate d = (d.month < 12) × (d.date < 32) × (d.hours < 24) × (d.minutes < 60) × (d.seconds < 60)

-- Numbers that put the days, and the seconds of all days, in their order.
abbrev pub day_number : LocalDate → ℕ
day_number d = (d.year * 12 + d.month) * 32 + d.date

abbrev pub moment : LocalDate → ℕ
moment d = ((day_number d * 24 + d.hours) * 60 + d.minutes) * 60 + d.seconds

-- Later than `now`, or less than a minute before it.
abbrev pub NotPast : LocalDate → LocalDate → Type 0
NotPast now d = moment now < moment d + 60

next_minute_lem :
    (m : ℕ)
    → (m ≤ 55 → (m ≤ next_minute m) × (next_minute m ≤ 55) × (next_minute m < m + 5))
      × (55 < m → next_minute m ≡ 0)
unfolding next_minute
next_minute_lem m = ((λ h. ground arith), (λ h. ground arith))

later_day :
    (now d : LocalDate)
    → IsDate now
    → IsDate d
    → day_number now ≤ day_number d
    → is_same_day d now ≡ false
    → day_number now < day_number d
later_day now d hn hd ordered differ = ground arith

same_day : (now d : LocalDate) → is_same_day d now ≡ true → day_number now ≡ day_number d
same_day now d same = ground arith

-- On today a later hour, or this hour and no earlier minute, is not past; any time of a later day
-- is not.
fields-NotPast :
    (now r : LocalDate)
    → IsDate now
    → (day_number now < day_number r)
      ⊎ ((day_number now ≡ day_number r)
          × ((now.hours < r.hours) ⊎ ((now.hours ≡ r.hours) × (now.minutes ≤ r.minutes))))
    → NotPast now r
fields-NotPast now r hn (inl later) = omega (arith, later, hn)
fields-NotPast now r hn (inr (same, inl hour)) = omega (arith, same, hour, hn)
fields-NotPast now r hn (inr (same, inr (hour, minute))) = omega (arith, same, hour, minute, hn)

day_select_NotPast :
    (now value day : LocalDate)
    → IsDate now
    → IsDate day
    → now.minutes ≤ 55
    → day_number now ≤ day_number day
    → (r : LocalDate) → handle_day_select now value (some day) ≡ some r
    → NotPast now r
unfolding handle_day_select
day_select_NotPast now value day hn hd early ordered r e =
    fields-NotPast now r hn (elim (Bool-cases (is_same_day day now)) [
      | inl same ↦ inr (
        ground (arith, same_day now day same, e),
        ground (arith, same, next_minute_lem now.minutes, e),
      )
      | inr differ ↦ inl (ground (arith, later_day now day hn hd ordered differ, e))
    ])

hour_change_NotPast :
    (now value : LocalDate) (h : ℕ)
    → IsDate now
    → IsDate value
    → now.minutes ≤ 55
    → day_number now ≤ day_number value
    → min_hour now value ≤ h
    → (r : LocalDate) → handle_hour_change now value (some (decimal h)) ≡ some r
    → NotPast now r
unfolding handle_hour_change min_hour
hour_change_NotPast now value h hn hv early ordered offered r e =
    fields-NotPast now r hn (elim (Bool-cases (is_same_day value now)) [
      | inl same ↦ inr (
        ground (arith, same_day now value same, to_number-decimal h, e),
        ground (arith, same, next_minute_lem now.minutes, to_number-decimal h, e),
      )
      | inr differ ↦
          inl (ground (arith, later_day now value hn hv ordered differ, to_number-decimal h, e))
    ])

minute_change_NotPast :
    (now value : LocalDate) (m : ℕ)
    → IsDate now
    → IsDate value
    → now.minutes ≤ 55
    → day_number now ≤ day_number value
    → (is_same_day value now ≡ true → now.hours ≤ value.hours)
    → min_minute now value ≤ m
    → (r : LocalDate) → handle_minute_change value (some (decimal m)) ≡ some r
    → NotPast now r
unfolding handle_minute_change min_minute
minute_change_NotPast now value m hn hv early ordered ahead offered r e =
    fields-NotPast now r hn (elim (Bool-cases (is_same_day value now)) [
      | inl same ↦ inr (
        ground (arith, same_day now value same, to_number-decimal m, e),
        ground (arith, same, ahead same, to_number-decimal m, e),
      )
      | inr differ ↦
          inl (ground (arith, later_day now value hn hv ordered differ, to_number-decimal m, e))
    ])

-- Up to minute 55 of an hour, and with no day before today, no handler gives a time that is a
-- minute or more in the past: not for a day that is chosen, nor for an hour that the list offers,
-- nor for a minute that it offers where the hour of the value is not in the past.
pub handlers-NotPast :
    (now value day : LocalDate) (h m : ℕ)
    → IsDate now
    → IsDate value
    → IsDate day
    → now.minutes ≤ 55
    → day_number now ≤ day_number value
    → day_number now ≤ day_number day
    → min_hour now value ≤ h
    → min_minute now value ≤ m
    → (is_same_day value now ≡ true → now.hours ≤ value.hours)
    → ((r : LocalDate) → handle_day_select now value (some day) ≡ some r → NotPast now r)
      × ((r : LocalDate) → handle_hour_change now value (some (decimal h)) ≡ some r → NotPast now r)
      × ((r : LocalDate) → handle_minute_change value (some (decimal m)) ≡ some r → NotPast now r)
handlers-NotPast now value day h m hn hv hd early value_ahead day_ahead oh om ahead = (
  day_select_NotPast now value day hn hd early day_ahead,
  hour_change_NotPast now value h hn hv early value_ahead oh,
  minute_change_NotPast now value m hn hv early value_ahead ahead om,
)

-- In the last four minutes of an hour the choice of today, with a time of day that is not later
-- than this hour, gives the start of the hour: a time in the past.
pub day_select_past :
    (now value day : LocalDate)
    → 55 < now.minutes
    → is_same_day day now ≡ true
    → value.hours ≤ now.hours
    → (r : LocalDate) × (handle_day_select now value (some day) ≡ some r)
      × (r.hours ≡ now.hours)
      × (r.minutes ≡ 0)
      × ¬ NotPast now r
unfolding handle_day_select
day_select_past now value day late same before = (
  record day { hours = now.hours; minutes = 0; seconds = 0 },
  ground (arith, next_minute_lem now.minutes),
  refl,
  refl,
  λ np. omega (arith, np, same_day now day same),
)
