-- ===== src/Bookings.antt =====
-- services/bff/traffic-frontend/src/pages/Bookings/BookingsPage.tsx and components/StatusBadge.tsx.
pub mod Filters
pub mod Stats
pub mod CardDetails
pub mod Ends
use traffic_service.Base.SearchParams.{SearchParams, remove_param, set_param}
use traffic_service.Api.Bookings.{
  BookingStatus, pending, approved, rejected, cancelled, expired, Booking,
}
use traffic_service.Datetime.{to_lower}
use traffic_service.Base.{
  if◌then◌else◌, ◌or_else◌, is_some, bind_some, length, filter, find, any, Text, codes, ◌===◌, ℕ,
  String, Bool, true, false, not, Option, none, some, List, [], ◌∷◌, ◌++◌, map,
}

-- The text of a status in the services' answers.
unfoldable pub status_text : BookingStatus → Text
status_text pending = codes "PENDING"
status_text approved = codes "APPROVED"
status_text rejected = codes "REJECTED"
status_text cancelled = codes "CANCELLED"
status_text expired = codes "EXPIRED"

abbrev pub same_status : BookingStatus → BookingStatus → Bool
same_status pending pending = true
same_status approved approved = true
same_status rejected rejected = true
same_status cancelled cancelled = true
same_status expired expired = true
same_status _ _ = false

pub record BookingFilter : Type 0 where
  pub label : Text
  pub value : Text
  pub statuses : List BookingStatus

abbrev pub filter_of : String → String → List BookingStatus → BookingFilter
filter_of label value statuses = record {
  label = codes label;
  value = codes value;
  statuses = statuses;
}

-- `STAT_FILTERS`
abbrev pub stat_filters : List BookingFilter
stat_filters =
    filter_of "Pending" "pending" (pending ∷ [])
    ∷ filter_of "Approved" "approved" (approved ∷ [])
    ∷ filter_of "Rejected" "rejected" (rejected ∷ [])
    ∷ filter_of "Closed" "closed" (cancelled ∷ expired ∷ [])
    ∷ []

-- `filter.statuses.includes(booking.status)`
abbrev pub includes_status : BookingFilter → Booking → Bool
includes_status f b = any (same_status b.status) f.statuses

abbrev pub status_key : Text
status_key = codes "status"

-- `activeFilter`, of the parameter in the address
unfoldable pub active_filter : Option Text → Option BookingFilter
active_filter active =
    bind_some active (λ a. find (λ (f : BookingFilter). f.value === a) stat_filters)

abbrev filtered_by : Option BookingFilter → Option (List Booking) → Option (List Booking)
filtered_by none bookings = bookings
filtered_by (some f) bookings = some (filter (includes_status f) (bookings or_else []))

unfoldable pub filtered_bookings : Option Text → Option (List Booking) → Option (List Booking)
filtered_bookings active bookings = filtered_by (active_filter active) bookings

-- `toggleFilter`; the button "Total" passes null.
unfoldable pub toggle_filter : Option Text → Option Text → SearchParams → SearchParams
toggle_filter none active params = remove_param status_key params
toggle_filter (some status) none params = set_param status_key status params
toggle_filter (some status) (some a) params =
    if status === a then remove_param status_key params else set_param status_key status params

pub record StatCard : Type 0 where
  pub label : Text
  pub count : ℕ
  pub active : Bool

abbrev pub is_active : Option Text → Text → Bool
is_active none value = false
is_active (some a) value = a === value

unfoldable pub stat_card : Option (List Booking) → Option Text → BookingFilter → StatCard
stat_card bookings active f = record {
  label = f.label;
  count = length (filter (includes_status f) (bookings or_else []));
  active = is_active active f.value;
}

-- The five cards: "Total" and one for each filter.
unfoldable pub stat_cards : Option (List Booking) → Option Text → List StatCard
unfolding stat_card
stat_cards bookings active =
    record {
      label = codes "Total";
      count = length (bookings or_else []);
      active = not (is_some active);
    }
    ∷ map (stat_card bookings active) stat_filters

-- What stands in the place of the list when it is empty, with the label in lower case.
unfoldable pub empty_message : Option Text → Text
empty_message active = elim (active_filter active) [
  | none ↦ codes "No bookings yet."
  | some f ↦ codes "No " ++ (map to_lower f.label ++ codes " bookings.")
]

-- `onToggle` of a card: the booking whose details are open.
unfoldable pub toggle_expanded : Text → Option Text → Option Text
toggle_expanded id none = some id
toggle_expanded id (some e) = if e === id then none else some id
