-- ===== src/ConflictDetection/Reserved.antt =====
-- conflict-detection-service: the rows that an accepted booking adds.
use traffic_service.ConflictDetection.Assessed.{IsFree, assess_route-settled}
use traffic_service.ConflictDetection.Service.{start_at, end_at, reserve_from, assess_route}
use traffic_service.ConflictDetection.Tables.{Reservation, RoadSegment, Route, create}
use traffic_service.Base.{
  length, get_elem?, Text, ℕ, zero, suc, ◌+◌, ◌*◌, ◌≡◌, refl, ap, ◌∙◌, ◌↔◌, Bool, true, false, some,
  List, [], ◌∷◌, arith,
}

-- One row for each segment in its order, for this booking: the first from the departure on, each
-- other one five minutes after the one before, all for the duration of the route in seconds.
abbrev pub IsReserved : Text → ℕ → ℕ → List Text → List Reservation → Type 0
IsReserved booking departure duration ids rows =
    (length rows ≡ length ids)
    × ((i : ℕ) (id : Text)
        → get_elem? ids i ≡ some id
        → get_elem? rows i
          ≡ some (record {
            booking_id = booking;
            segment_id = id;
            time_window_start = departure + 300000 * i;
            time_window_end = departure + 300000 * i + 1000 * duration;
          }))

-- The table after the rows were added one after the other, each at its head.
abbrev pub added : List Reservation → List Reservation → List Reservation
added [] table = table
added (row ∷ rows) table = added rows (row ∷ table)

abbrev rows_from : Text → ℕ → ℕ → ℕ → List Text → List Reservation
rows_from booking departure duration index [] = []
rows_from booking departure duration index (id ∷ ids) =
    record {
      booking_id = booking;
      segment_id = id;
      time_window_start = departure + 300000 * index;
      time_window_end = departure + 300000 * index + 1000 * duration;
    }
    ∷ rows_from booking departure duration (index + 1) ids

reserve_from-added :
    (booking : Text) (departure duration index : ℕ) (ids : List Text) (table : List Reservation)
    → reserve_from booking departure duration index ids table
      ≡ added (rows_from booking departure duration index ids) table
unfolding reserve_from create
reserve_from-added booking departure duration index [] table = refl
reserve_from-added booking departure duration index (id ∷ ids) table =
    let same : create booking id (start_at departure index) (end_at departure duration index) table
        ≡ (record {
          booking_id = booking;
          segment_id = id;
          time_window_start = departure + 300000 * index;
          time_window_end = departure + 300000 * index + 1000 * duration;
        }
            ∷ table) =
      ground arith in
    reserve_from-added booking departure duration (index + 1) ids _
    ∙ ap (added (rows_from booking departure duration (index + 1) ids)) same

length-rows_from :
    (booking : Text) (departure duration index : ℕ) (ids : List Text)
    → length (rows_from booking departure duration index ids) ≡ length ids
length-rows_from booking departure duration index [] = refl
length-rows_from booking departure duration index (id ∷ ids) =
    ap suc (length-rows_from booking departure duration (index + 1) ids)

get_elem?-rows_from :
    (booking : Text) (departure duration index : ℕ) (ids : List Text) (i : ℕ) (id : Text)
    → get_elem? ids i ≡ some id
    → get_elem? (rows_from booking departure duration index ids) i
      ≡ some (record {
        booking_id = booking;
        segment_id = id;
        time_window_start = departure + 300000 * (index + i);
        time_window_end = departure + 300000 * (index + i) + 1000 * duration;
      })
get_elem?-rows_from booking departure duration index [] i id e = ground arith
get_elem?-rows_from booking departure duration index (j ∷ ids) zero id e =
    let none_added : index + 0 ≡ index = omega arith in rw none_added (ground (arith, e))
get_elem?-rows_from booking departure duration index (j ∷ ids) (suc i) id e =
    let moved : index + suc i ≡ index + 1 + i = omega arith in
    rw moved (get_elem?-rows_from booking departure duration (index + 1) ids i id e)

-- The operation always comes to an answer. It accepts the booking exactly when the route is free,
-- and then adds to the table one row for each segment in its order, for this booking: the first
-- from the departure on, each other one five minutes after the one before, all for the duration of
-- the route. Otherwise the table stays as it is.
pub assess_route_lem :
    (segments : List RoadSegment) (booking id : Text) (departure : ℕ) (route : Route)
    (reservations : List Reservation)
    → (fits : Bool) × (after : List Reservation) × (assess_route segments booking departure id route
          reservations
        ≡ some (record { booking_id = booking; route_id = id; segments_available = fits }, after))
      × ((fits ≡ true) ↔ IsFree segments departure reservations route)
      × (fits ≡ true
          → (rows : List Reservation) × IsReserved booking departure route.estimated_duration
              route.segment_ids rows
            × (after ≡ added rows reservations))
      × (fits ≡ false → after ≡ reservations)
assess_route_lem segments booking id departure route reservations =
    let (fits, run, free) = assess_route-settled segments booking id departure route reservations in
    (
      fits,
      _,
      run,
      free,
      (λ h. (
        rows_from booking departure route.estimated_duration 0 route.segment_ids,
        (
          length-rows_from booking departure route.estimated_duration 0 route.segment_ids,
          λ i j e.
              let counted : 0 + i ≡ i = omega arith in
              rw counted at (
                get_elem?-rows_from booking departure route.estimated_duration 0 route.segment_ids i
                  j e),
        ),
        rw h (
            reserve_from-added booking departure route.estimated_duration 0 route.segment_ids
              reservations),
      )),
      (λ h. rw h refl),
    )
