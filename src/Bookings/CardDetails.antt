-- ===== src/Bookings/CardDetails.antt =====
-- BookingsPage.tsx, `BookingCard`, and components/StatusBadge.tsx.
use mathlib.Core.Option
use traffic_service.RouteMap.Features.{SegmentData}
use traffic_service.Api.Bookings.{
  BookingStatus, pending, approved, rejected, cancelled, expired, Booking, SegmentReservation,
}
use traffic_service.Api.Routes.{RouteResult, Segment}
use traffic_service.Bookings.{status_text, same_status}
use traffic_service.Datetime.{ensure_utc_suffix, short_id}
use traffic_service.Base.{
  if◌then◌else◌, Text, codes, Bool, true, false, ◌||◌, Option, none, some, List, [], ◌∷◌, ◌++◌, map,
}

-- `canCancel`
unfoldable pub can_cancel : Booking → Bool
can_cancel b = same_status b.status pending || same_status b.status approved

pub data BadgeColor : Type 0 where
  yellow green red gray : BadgeColor

-- `STATUS_COLORS[status] ?? …`: a status with no entry is gray.
unfoldable pub status_color : BookingStatus → BadgeColor
status_color pending = yellow
status_color approved = green
status_color rejected = red
status_color cancelled = gray
status_color expired = gray

-- `STATUS_DESCRIPTIONS[status]`
unfoldable pub status_description : BookingStatus → Text
status_description pending = codes "Awaiting route assessment — usually instant"
status_description approved = codes "Road capacity reserved for your departure window"
status_description rejected = codes "No capacity available on this route"
status_description cancelled = codes "Booking was cancelled"
status_description expired = codes "Departure time has passed"

-- The title of a card: the two ends of the route once it is known, else its reference.
pub data Title : Type 0 where
  from_to : Text → Text → Title
  reference : Text → Title

-- The list of reservations: nothing before the answer, a note for an empty one.
pub data Reservations : Type 0 where
  loading no_answer none_found : Reservations
  listed : List (Text × Text × Text) → Reservations

pub record CardView : Type 0 where
  pub title : Title
  pub badge : Text × BadgeColor
  pub departure : Text
  pub description : Text
  pub cancel_button : Option Bool
  pub details : Option Reservations
  pub segments_on_map : Option (List SegmentData)

abbrev title_of : Booking → Option RouteResult → Title
title_of b (some r) = from_to r.origin r.destination
title_of b none = reference (codes "Route " ++ short_id b.route_id)

-- The section's functions print a date and a time of day in the driver's own style.
module _ (to_locale to_locale_time : Text → Text) where
  -- `formatUTCToLocal` and `formatUTCToLocalTime`
  unfoldable pub format_utc_to_local : Text → Text
  format_utc_to_local iso = to_locale (ensure_utc_suffix iso)

  unfoldable pub format_utc_to_local_time : Text → Text
  format_utc_to_local_time iso = to_locale_time (ensure_utc_suffix iso)

  abbrev reservation_line : SegmentReservation → Text × Text × Text
  reservation_line r = (
    short_id r.segment_id,
    format_utc_to_local_time r.time_window_start,
    format_utc_to_local_time r.time_window_end,
  )

  abbrev reservations_view : Bool → Option (List SegmentReservation) → Reservations
  reservations_view true none = loading
  reservations_view false none = no_answer
  reservations_view _ (some []) = none_found
  reservations_view _ (some (r ∷ rs)) = listed (map reservation_line (r ∷ rs))

  -- The segments are drawn with no reservations.
  abbrev map_data : Segment → SegmentData
  map_data seg = record {
    segment_id = seg.segment_id;
    name = some seg.name;
    region = some seg.region;
    coordinates = seg.coordinates;
    capacity = seg.capacity;
    reserved = some 0;
    utilization = some (codes "0");
  }

  -- A card, with the answers to its three queries so far; two of them run once it is open.
  unfoldable pub booking_card :
      Booking
      → Option RouteResult
      → Option (List Segment)
      → Bool
      → Option (List SegmentReservation)
      → Bool
      → Bool
      → CardView
  unfolding status_text status_color status_description can_cancel
  booking_card b route segments loads reservations is_cancelling expanded = record {
    title = title_of b route;
    badge = (status_text b.status, status_color b.status);
    departure = format_utc_to_local b.departure_time;
    description = status_description b.status;
    cancel_button = if can_cancel b then some is_cancelling else none;
    details = if expanded then some (reservations_view loads reservations) else none;
    segments_on_map = if expanded then Option.map (map map_data) segments else none;
  }
