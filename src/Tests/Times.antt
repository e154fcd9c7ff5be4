-- ===== src/Tests/Times.antt =====
-- Times and the date picker at the test data.
use traffic_service.Datetime.Duration.{IsDuration, format_duration_bounds}
use traffic_service.Datetime.Local.{date_text, time_text, parse_local_date_time_lem}
use traffic_service.DatePicker.Clamp.{NotPast, handlers-NotPast, day_select_past}
use traffic_service.Base.Decimal.{decimal, pad}
use traffic_service.DatePicker.{
  LocalDate, all_minutes, min_hour, min_minute, handle_day_select, handle_hour_change,
  handle_minute_change, minute_items,
}
use traffic_service.Datetime.{ensure_utc_suffix, parse_local_date_time, short_id, format_duration}
use traffic_service.Base.{
  Text, codes, ℕ, ◌+◌, ◌-◌, ◌*◌, ◌≤◌, ◌<◌, ◌≡◌, refl, some, [], ◌∷◌, ◌++◌, map, arith,
}

abbrev ten_past_nine : LocalDate
ten_past_nine = record { year = 2025; month = 2; date = 30; hours = 9; minutes = 10; seconds = 30 }

abbrev late_nine : LocalDate
late_nine = record { year = 2025; month = 2; date = 30; hours = 9; minutes = 58; seconds = 30 }

abbrev next_day : LocalDate
next_day = record { year = 2025; month = 2; date = 31; hours = 0; minutes = 0; seconds = 30 }

handlers-NotPast_example :
    ((r : LocalDate)
      → handle_day_select ten_past_nine next_day (some ten_past_nine) ≡ some r
      → NotPast ten_past_nine r)
    × ((r : LocalDate)
        → handle_hour_change ten_past_nine next_day (some (decimal 14)) ≡ some r
        → NotPast ten_past_nine r)
    × ((r : LocalDate)
        → handle_minute_change next_day (some (decimal 25)) ≡ some r
        → NotPast ten_past_nine r)
unfolding min_hour min_minute
handlers-NotPast_example =
    handlers-NotPast ten_past_nine next_day ten_past_nine 14 25
      (omega arith, omega arith, omega arith, omega arith, omega arith)
      (omega arith, omega arith, omega arith, omega arith, omega arith)
      (omega arith, omega arith, omega arith, omega arith, omega arith) (omega arith) (omega arith)
      (omega arith) (omega arith) (omega arith) (λ same. ground arith)

parse_local_date_time_lem_example :
    parse_local_date_time (date_text 2025 3 30 ++ (b'T' ∷ time_text 7 5))
    ≡ some (record { year = 2025; month = 3 - 1; day = 30; hours = 7; minutes = 5 })
parse_local_date_time_lem_example =
    parse_local_date_time_lem 2025 3 30 7 5 (omega arith) (omega arith)

format_duration_bounds_example :
    (h : ℕ) × (m : ℕ) × IsDuration (format_duration 7190) h m
    × (60 * (60 * h + m) ≤ 7190 + 30)
    × (7190 < 60 * (60 * h + m) + 30)
    × (m ≤ 60)
format_duration_bounds_example = format_duration_bounds 7190

day_select_past_example :
    (r : LocalDate) × (handle_day_select late_nine ten_past_nine (some late_nine) ≡ some r)
    × (r.hours ≡ late_nine.hours)
    × (r.minutes ≡ 0)
    × ¬ NotPast late_nine r
day_select_past_example =
    day_select_past late_nine ten_past_nine late_nine (omega arith) refl (omega arith)

short_id_run : short_id (codes "550e8400-e29b-41d4") ≡ codes "#550E"
unfolding short_id
short_id_run = refl

format_duration_run :
    (format_duration 59 ≡ codes "1 min")
    × (format_duration 5400 ≡ codes "1h 30m")
    × (format_duration 7190 ≡ codes "1h 60m")
unfolding format_duration
format_duration_run = (refl, refl, refl)

ensure_utc_suffix_run :
    (ensure_utc_suffix (codes "2026-06-01T00:00:00") ≡ codes "2026-06-01T00:00:00Z")
    × (ensure_utc_suffix (codes "2026-06-01T00:00:00+02:00") ≡ codes "2026-06-01T00:00:00+02:00")
unfolding ensure_utc_suffix
ensure_utc_suffix_run = (refl, refl)

minute_items_run :
    map (λ (i : Text × Text). i.1) (minute_items ten_past_nine ten_past_nine)
    ≡ map codes ("10" ∷ "15" ∷ "20" ∷ "25" ∷ "30" ∷ "35" ∷ "40" ∷ "45" ∷ "50" ∷ "55" ∷ [])
unfolding minute_items min_minute all_minutes pad
minute_items_run = refl
