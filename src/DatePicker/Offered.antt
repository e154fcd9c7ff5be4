-- ===== src/DatePicker/Offered.antt =====
-- date-time-picker.tsx: what the lists offer, and the round trip of an item.
use traffic_service.Base.Decimal.{to_number}
use traffic_service.DatePicker.{LocalDate, is_same_day, min_minute, minute_items, all_minutes}
use traffic_service.Base.{leb, filter, Text, ℕ, ◌<◌, ◌≡◌, true, some, [], arith}

-- Items that a handler reads as the number that the label stands for.
abbrev pub ReadsAs : (ℕ → Type 0) → Text × Text → Type 0
ReadsAs P it = (n : ℕ) × (to_number it.0 ≡ some n) × (to_number it.1 ≡ some n) × P n

late_minutes : (k : ℕ) → 55 < k → filter (λ m. leb k m) all_minutes ≡ []
unfolding all_minutes
late_minutes k h = ground arith

min_minute-now :
    (now value : LocalDate)
    → is_same_day value now ≡ true
    → value.hours ≡ now.hours
    → min_minute now value ≡ now.minutes
unfolding min_minute
min_minute-now now value same hour = ground arith

-- In the last four minutes of this hour the list of minutes is empty while this hour is chosen.
pub minute_items_empty :
    (now value : LocalDate)
    → is_same_day value now ≡ true
    → value.hours ≡ now.hours
    → 55 < now.minutes
    → minute_items now value ≡ []
unfolding minute_items
minute_items_empty now value same hour late =
    rw (min_minute-now now value same hour) (rw (late_minutes now.minutes late))
