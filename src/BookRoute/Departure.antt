-- ===== src/BookRoute/Departure.antt =====
-- BookRoutePage.tsx: the time of departure, in milliseconds since 1970, which no time precedes.
use traffic_service.Base.SearchParams.{SearchParams, set_param}
use traffic_service.Datetime.{has_zone, ensure_utc_suffix, LocalFields, parse_local_date_time}
use traffic_service.Base.{
  if◌then◌else◌, ◌or_else◌, bind_some, Text, codes, is_truthy, ℕ, ◌+◌, ◌*◌, ◌/◌, ◌≡◌, true, Option,
  none, some, [],
}

-- The runtime's dates in its time zone: `new Date(text)` and the date of local fields, both
-- `none` for an invalid date, and `date.toISOString()`, a text that ends in "Z" and is read back.
pub record Dates : Type 0 where
  pub parse_iso : Text → Option ℕ
  pub of_fields : LocalFields → Option ℕ
  pub to_iso : ℕ → Text
  pub iso_has_zone : (t : ℕ) → has_zone (to_iso t) ≡ true
  pub parse-iso : (t : ℕ) → parse_iso (to_iso t) ≡ some t

abbrev pub five_minutes_ms : ℕ
five_minutes_ms = 5 * 60 * 1000

-- `Math.round(t / d) * d`, where halves round up
unfoldable pub round_to_5 : ℕ → ℕ
round_to_5 t = (t + five_minutes_ms / 2) / five_minutes_ms * five_minutes_ms

abbrev pub departure_key : Text
departure_key = codes "departure"

-- A date that is valid is rounded; an invalid one gives the default.
abbrev pub round_or : ℕ → Option ℕ → ℕ
round_or default none = default
round_or default (some t) = round_to_5 t

module _ (dates : Dates) where
  open dates use {parse_iso, of_fields, to_iso}

  abbrev candidate_of : Text → Option ℕ
  candidate_of raw =
      if has_zone raw
      then parse_iso (ensure_utc_suffix raw)
      else bind_some (parse_local_date_time raw) of_fields

  -- `departureDate`, of the parameter and the default
  unfoldable pub departure_date : Option Text → ℕ → ℕ
  departure_date raw default =
      if is_truthy raw then round_or default (candidate_of (raw or_else [])) else default

  -- `handleDepartureChange`
  unfoldable pub departure_change : ℕ → SearchParams → SearchParams
  departure_change date params = set_param departure_key (to_iso (round_to_5 date)) params
