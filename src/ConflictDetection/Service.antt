-- ===== src/ConflictDetection/Service.antt =====
-- conflict-detection-service/src/application/conflict_service.py: the operations of
-- `ConflictService`, on the tables as they are when the operation starts. `none` is a `KeyError`.
use traffic_service.ConflictDetection.Tables.{
  Reservation, RoadSegment, Route, get_by_id, count_overlapping, create, delete_by_booking,
  get_capacities, StoredRoute,
}
use traffic_service.Base.Sets.{set_of, set_item, get_item}
use traffic_service.Base.{
  leb, ◌==◌, if◌then◌else◌, length, Text, ℕ, ◌+◌, ◌*◌, Bool, true, false, not, Option, none, some,
  List, [], ◌∷◌,
}

abbrev pub segment_offset_seconds : ℕ
segment_offset_seconds = 300

-- The start and the end of the window of the segment at an index.
abbrev pub start_at : ℕ → ℕ → ℕ
start_at departure index = departure + segment_offset_seconds * index * 1000

abbrev pub end_at : ℕ → ℕ → ℕ → ℕ
end_at departure duration index = start_at departure index + duration * 1000

pub record AssessmentResult : Type 0 where
  pub booking_id : Text
  pub route_id : Text
  pub segments_available : Bool

-- The first loop of `assess_and_reserve`, and that of `check_routes_availability`, from an index on:
-- whether it runs to its end.
unfoldable pub fits_from : List Reservation → List (Text × ℕ) → ℕ → ℕ → ℕ → List Text → Option Bool
fits_from reservations capacities departure duration index [] = some true
fits_from reservations capacities departure duration index (id ∷ ids) =
    let overlap : ℕ =
      count_overlapping reservations id (start_at departure index)
        (end_at departure duration index) in
    let rest = fits_from reservations capacities departure duration (index + 1) ids in
    elim (get_item capacities id) [
      | none ↦ none
      | some capacity ↦ if leb capacity overlap then some false else rest
    ]

-- The second loop of `assess_and_reserve`.
unfoldable pub reserve_from : Text → ℕ → ℕ → ℕ → List Text → List Reservation → List Reservation
reserve_from booking departure duration index [] reservations = reservations
reserve_from booking departure duration index (id ∷ ids) reservations =
    reserve_from booking departure duration (index + 1) ids
      (create booking id (start_at departure index) (end_at departure duration index) reservations)

abbrev pub assessed : Text → Text → Bool → List Reservation → AssessmentResult × List Reservation
assessed booking route fits reservations =
    (record { booking_id = booking; route_id = route; segments_available = fits }, reservations)

-- `assess_and_reserve` from the route that it found on
unfoldable pub assess_route :
    List RoadSegment
    → Text
    → ℕ
    → Text
    → Route
    → List Reservation
    → Option (AssessmentResult × List Reservation)
unfolding fits_from reserve_from
assess_route segments booking departure id route reservations =
    let ids = route.segment_ids in
    let duration : ℕ = route.estimated_duration in
    let capacities = get_capacities segments ids in
    if length ids == 0
    then some (assessed booking id true reservations)
    else if not (length capacities == length ids)
    then some (assessed booking id false reservations)
    else elim (fits_from reservations capacities departure duration 0 ids) [
      | none ↦ none
      | some false ↦ some (assessed booking id false reservations)
      | some true ↦
          some
            (assessed booking id true (reserve_from booking departure duration 0 ids reservations))
    ]

unfoldable pub assess_and_reserve :
    List StoredRoute
    → List RoadSegment
    → Text
    → Text
    → ℕ
    → List Reservation
    → Option (AssessmentResult × List Reservation)
unfolding assess_route
assess_and_reserve routes segments booking id departure reservations = elim (get_by_id routes id) [
  | none ↦ some (assessed booking id false reservations)
  | some route ↦ assess_route segments booking departure id route reservations
]

unfoldable pub release_reservations : List Reservation → Text → List Reservation × ℕ
release_reservations = delete_by_booking

-- An item of the body of POST /utilization, its times parsed.
pub record UtilizationWindow : Type 0 where
  pub segment_id : Text
  pub window_start : ℕ
  pub window_end : ℕ

-- `get_segment_utilization` from the dictionary that it has so far on
unfoldable pub utilization_from :
    List Reservation → List UtilizationWindow → List (Text × ℕ) → List (Text × ℕ)
utilization_from reservations [] found = found
utilization_from reservations (w ∷ ws) found = utilization_from reservations ws (
    set_item w.segment_id (count_overlapping reservations w.segment_id w.window_start w.window_end)
      found)

-- `get_segment_utilization`
unfoldable pub segment_utilization : List Reservation → List UtilizationWindow → List (Text × ℕ)
unfolding utilization_from
segment_utilization reservations windows = utilization_from reservations windows []

-- One candidate of `check_routes_availability`
unfoldable pub candidate_available : List RoadSegment → ℕ → List Reservation → Route → Option Bool
candidate_available segments departure reservations candidate =
    let ids = candidate.segment_ids in
    let capacities = get_capacities segments ids in
    if length ids == 0
    then some true
    else if not (length capacities == length (set_of ids))
    then some false
    else fits_from reservations capacities departure candidate.estimated_duration 0 ids

-- `check_routes_availability` from the dictionary that it has so far on
unfoldable pub routes_availability_from :
    List RoadSegment
    → ℕ
    → List Reservation
    → List Route
    → List (Text × Bool)
    → Option (List (Text × Bool))
unfolding candidate_available
routes_availability_from segments departure reservations [] results = some results
routes_availability_from segments departure reservations (c ∷ cs) results =
    elim (candidate_available segments departure reservations c) [
      | none ↦ none
      | some fits ↦
          routes_availability_from segments departure reservations cs
            (set_item c.route_id fits results)
    ]

-- `check_routes_availability`
unfoldable pub routes_availability :
    List RoadSegment → List Route → ℕ → List Reservation → Option (List (Text × Bool))
unfolding routes_availability_from
routes_availability segments candidates departure reservations =
    routes_availability_from segments departure reservations candidates []
