-- ===== src/Datetime/Duration.antt =====
-- lib/datetime.ts, `formatDuration`.
use traffic_service.Base.{
  ◌==◌, Bool-cases, Text, codes, ℕ, ◌+◌, ◌*◌, ◌/◌, ◌%◌, ◌≤◌, ◌<◌, ◌≡◌, refl, ◌⊎◌, inl, inr, ◌++◌,
  arith,
}
use traffic_service.Base.Decimal.{decimal}
use traffic_service.Datetime.{hours_of, minutes_of, format_duration}

-- The texts for hours and minutes: minutes alone, hours alone, or both.
abbrev pub IsDuration : Text → ℕ → ℕ → Type 0
IsDuration text h m =
    ((h ≡ 0) × (text ≡ decimal m ++ codes " min"))
    ⊎ ((m ≡ 0) × (text ≡ decimal h ++ codes "h"))
    ⊎ (text ≡ decimal h ++ (codes "h " ++ (decimal m ++ codes "m")))

-- The text of `formatDuration` names hours and minutes that are within 30 seconds of the duration,
-- with at most 60 minutes.
pub format_duration_bounds :
    (s : ℕ)
    → (h : ℕ) × (m : ℕ) × IsDuration (format_duration s) h m
      × (60 * (60 * h + m) ≤ s + 30)
      × (s < 60 * (60 * h + m) + 30)
      × (m ≤ 60)
unfolding format_duration
format_duration_bounds s = (
  hours_of s,
  minutes_of s,
  elim (Bool-cases (hours_of s == 0)) [
    | inl no_hours ↦ inl (ground (arith, no_hours), rw no_hours refl)
    | inr some_hours ↦ elim (Bool-cases (minutes_of s == 0)) [
      | inl no_minutes ↦ inr (inl (ground (arith, no_minutes), rw some_hours (rw no_minutes refl)))
      | inr some_minutes ↦ inr (inr (rw some_hours (rw some_minutes refl)))
    ]
  ],
  omega arith,
  omega arith,
  omega arith,
)

-- In the last 30 seconds of an hour after the first, `formatDuration` prints 60 minutes beside
-- the hours instead of the next full hour.
pub format_duration_sixty :
    (s : ℕ) → 3600 ≤ s → 3570 ≤ s % 3600 → format_duration s ≡ decimal (s / 3600) ++ codes "h 60m"
unfolding format_duration
format_duration_sixty s long late = ground arith
