-- ===== src/ConflictDetection/Tables.antt =====
-- conflict-detection-service/src/infrastructure/postgres: the tables that the service reads and
-- writes, and one function per query of the repositories.
use traffic_service.Base.Sets.{set_item, contains}
use traffic_service.Base.{
  ltb, ◌==◌, if◌then◌else◌, ◌or_else◌, length, filter, Text, ◌===◌, ℕ, Bool, ◌&&◌, not, Option,
  none, some, List, [], ◌∷◌,
}

-- A row of segment_reservations.
pub record Reservation : Type 0 where
  pub booking_id : Text
  pub segment_id : Text
  pub time_window_start : ℕ
  pub time_window_end : ℕ

-- A row of road_segments.
pub record RoadSegment : Type 0 where
  pub segment_id : Text
  pub capacity : Option ℕ

-- A row of routes.
pub record StoredRoute : Type 0 where
  pub route_id : Text
  pub segment_ids : Option (List Text)
  pub estimated_duration : Option ℕ

pub record Route : Type 0 where
  pub route_id : Text
  pub segment_ids : List Text
  pub estimated_duration : ℕ

-- Python's `n or other`.
abbrev pub or_number : Option ℕ → ℕ → ℕ
or_number none d = d
or_number (some n) d = if n == 0 then d else n

-- `PostgresRouteRepository.get_by_id`
unfoldable pub get_by_id : List StoredRoute → Text → Option Route
get_by_id [] id = none
get_by_id (row ∷ rows) id =
    if row.route_id === id
    then some (record {
      route_id = row.route_id;
      segment_ids = row.segment_ids or_else [];
      estimated_duration = or_number row.estimated_duration 3600;
    })
    else get_by_id rows id

-- The condition of `PostgresReservationRepository.count_overlapping`
abbrev pub overlaps : Text → ℕ → ℕ → Reservation → Bool
overlaps id from until r =
    (r.segment_id === id) && (ltb r.time_window_start until && ltb from r.time_window_end)

unfoldable pub count_overlapping : List Reservation → Text → ℕ → ℕ → ℕ
count_overlapping reservations id from until = length (filter (overlaps id from until) reservations)

-- `PostgresReservationRepository.create`; the rows of a table are in no order.
unfoldable pub create : Text → Text → ℕ → ℕ → List Reservation → List Reservation
create booking id from until reservations =
    record {
      booking_id = booking;
      segment_id = id;
      time_window_start = from;
      time_window_end = until;
    }
    ∷ reservations

-- `PostgresReservationRepository.delete_by_booking`: what is left, and how many rows are gone.
unfoldable pub delete_by_booking : List Reservation → Text → List Reservation × ℕ
delete_by_booking reservations booking = (
  filter (λ r. not (r.booking_id === booking)) reservations,
  length (filter (λ r. r.booking_id === booking) reservations),
)

-- The dictionary that `PostgresSegmentRepository.get_capacities` makes of the rows that it finds.
-- The rows are given in the order of the query.
unfoldable pub capacities_of : List RoadSegment → List Text → List (Text × ℕ) → List (Text × ℕ)
capacities_of [] ids found = found
capacities_of (s ∷ ss) ids found = capacities_of ss ids (
    if contains s.segment_id ids
    then set_item s.segment_id (or_number s.capacity 0) found
    else found)

unfoldable pub get_capacities : List RoadSegment → List Text → List (Text × ℕ)
unfolding capacities_of
get_capacities segments ids = capacities_of segments ids []
