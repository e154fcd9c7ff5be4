-- ===== src/Datetime.antt =====
-- services/bff/traffic-frontend/src/lib/datetime.ts: the texts that stand for times, references
-- and durations. A text is a list of code units; upper-casing is that of ASCII, which ids are.
pub mod Suffix
pub mod Duration
pub mod Reference
pub mod Local
use traffic_service.Base.{
  leb, ◌==◌, if◌then◌else◌, ◌or_else◌, get_elem?, take, filter, Text, codes, ℕ, ◌+◌, ◌-◌, ◌/◌, ◌%◌,
  Bool, false, ◌&&◌, ◌||◌, not, Option, none, some, List, [], ◌∷◌, ◌++◌, map,
}
use traffic_service.Base.Decimal.{is_digit, decimal, to_number}

-- Whether some tail of a text passes a test: an unanchored `/…$/.test`.
abbrev pub some_tail : (Text → Bool) → Text → Bool
some_tail p [] = p []
some_tail p (c ∷ s) = p (c ∷ s) || some_tail p s

abbrev pub is_z : Text → Bool
is_z (c ∷ []) = c == b'Z'
is_z _ = false

-- `[+-]\d{2}:\d{2}`
abbrev pub is_offset : Text → Bool
is_offset (s ∷ a ∷ b ∷ c ∷ d ∷ e ∷ []) =
    (s == b'+' || s == b'-')
    && (is_digit a && (is_digit b && (c == b':' && (is_digit d && is_digit e))))
is_offset _ = false

abbrev pub has_zone : Text → Bool
has_zone iso = some_tail is_z iso || some_tail is_offset iso

unfoldable pub ensure_utc_suffix : Text → Text
ensure_utc_suffix iso = if has_zone iso then iso else iso ++ b'Z' ∷ []

abbrev push_first : ℕ → List Text → List Text
push_first c [] = (c ∷ []) ∷ []
push_first c (p ∷ ps) = (c ∷ p) ∷ ps

-- `s.split(sep)` for a separator of one character
unfoldable pub split : ℕ → Text → List Text
split sep [] = [] ∷ []
split sep (c ∷ s) = let rest = split sep s in if c == sep then [] ∷ rest else push_first c rest

-- The arguments of `new Date(year, month - 1, day, hours, minutes)`; the month counts from 0.
pub record LocalFields : Type 0 where
  pub year : ℕ
  pub month : ℕ
  pub day : ℕ
  pub hours : ℕ
  pub minutes : ℕ

-- `parts.map(Number)[i] || d`: a missing part, NaN and 0 give the default.
abbrev pub part_or : List Text → ℕ → ℕ → ℕ
part_or parts i d = elim (get_elem? (map to_number parts) i) [
  | some (some n) ↦ if n == 0 then d else n
  | _ ↦ d
]

-- With no number for the year the date is invalid, `none`.
fields_of : List Text → List Text → Option LocalFields
fields_of date time = elim (to_number (get_elem? date 0 or_else [])) [
  | none ↦ none
  | some year ↦ some (record {
    year = year;
    month = part_or date 1 1 - 1;
    day = part_or date 2 1;
    hours = part_or time 0 0;
    minutes = part_or time 1 0;
  })
]

unfoldable pub parse_local_date_time : Text → Option LocalFields
unfolding fields_of
parse_local_date_time iso =
    let parts = split b'T' iso in
    let date = split b'-' (get_elem? parts 0 or_else []) in
    let time = split b':' (get_elem? parts 1 or_else codes "00:00") in fields_of date time

abbrev pub to_upper : ℕ → ℕ
to_upper c = if leb b'a' c && leb c b'z' then c - 32 else c

-- `toLowerCase`, on ASCII
abbrev pub to_lower : ℕ → ℕ
to_lower c = if leb b'A' c && leb c b'Z' then c + 32 else c

abbrev pub is_dash : ℕ → Bool
is_dash c = c == b'-'

unfoldable pub short_id : Text → Text
short_id uuid = b'#' ∷ map to_upper (take 4 (filter (λ c. not (is_dash c)) uuid))

-- `Math.floor(seconds / 3600)` and `Math.round((seconds % 3600) / 60)`, which rounds halves up.
abbrev pub hours_of : ℕ → ℕ
hours_of seconds = seconds / 3600

abbrev pub minutes_of : ℕ → ℕ
minutes_of seconds = (seconds % 3600 + 30) / 60

unfoldable pub format_duration : ℕ → Text
unfolding decimal
format_duration seconds =
    let h = hours_of seconds in
    let m = minutes_of seconds in
    if h == 0
    then decimal m ++ codes " min"
    else if m == 0
    then decimal h ++ codes "h"
    else decimal h ++ (codes "h " ++ (decimal m ++ codes "m"))
