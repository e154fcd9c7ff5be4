-- ===== src/ConflictDetection/Preview.antt =====
-- conflict-detection-service: the preview of several routes against the assessment of one booking.
use traffic_service.ConflictDetection.Tables.{Reservation, RoadSegment, Route, get_capacities}
use traffic_service.ConflictDetection.Assessed.{settled, length-zero, assess_route-settled, IsFree}
use traffic_service.ConflictDetection.Capacities.{
  AllKnown, get_capacities-AllKnown, length-get_capacities-set_of,
}
use traffic_service.ConflictDetection.Fits.{
  HasRoom, fits_from-total, fits_from-HasRoom, HasRoom-fits_from,
}
use traffic_service.ConflictDetection.Service.{
  fits_from, assess_route, candidate_available, routes_availability_from, routes_availability,
}
use traffic_service.Base.Sets.{distinct, set_of, set_item, get_item, get_item-set_item}
use traffic_service.Base.{
  ◌==◌, if◌then◌else◌, Bool-cases, Option-cases, length, Text, ◌===◌, ℕ, ◌≡◌, refl, sym, ◌↔◌, inl,
  inr, Bool, true, false, ◌&&◌, Option, none, some, List, [], ◌∷◌, arith,
}

-- The preview of one route comes to an answer: it is free exactly when each of its segments is in
-- the table and has room at its time.
pub candidate_available_lem :
    (segments : List RoadSegment) (departure : ℕ) (reservations : List Reservation)
    (candidate : Route)
    → let ids = candidate.segment_ids in
      let capacities = get_capacities segments ids in
      (fits : Bool) × (candidate_available segments departure reservations candidate ≡ some fits)
      × ((fits ≡ true) ↔ (
          AllKnown capacities ids
          × HasRoom reservations capacities departure candidate.estimated_duration 0 ids))
unfolding candidate_available
candidate_available_lem segments departure reservations candidate =
    let ids = candidate.segment_ids in
    let duration = candidate.estimated_duration in
    let capacities = get_capacities segments ids in
    elim (Bool-cases (length ids == 0)) [
      | inl none_left ↦
          let e : ids ≡ [] = length-zero ids (ground (arith, none_left)) in
          (true, rw e refl, ((λ h. rw e (tt, tt)), (λ h. refl)))
      | inr some_left ↦ elim (Bool-cases (length capacities == length (set_of ids))) [
        | inr fewer ↦ (
          false,
          rw some_left (rw fewer refl),
          (
            (λ e. ground arith),
            (λ h. ground (arith, fewer, length-get_capacities-set_of segments ids h.0)),
          ),
        )
        | inl complete ↦
            let known = get_capacities-AllKnown segments ids (ground (arith, complete)) in
            elim (Option-cases (fits_from reservations capacities departure duration 0 ids)) [
              | inl never ↦ absurd (
                  ground (
                    arith,
                    never,
                    fits_from-total reservations capacities departure duration 0 ids known,
                  ))
              | inr (true, e) ↦ (
                true,
                rw some_left (rw complete e),
                (
                  (λ h. (
                    known,
                    fits_from-HasRoom reservations capacities departure duration 0 ids e,
                  )),
                  (λ h. refl),
                ),
              )
              | inr (false, e) ↦ (
                false,
                rw some_left (rw complete e),
                (
                  (λ h. ground arith),
                  (λ h. ground (
                    arith,
                    e,
                    HasRoom-fits_from reservations capacities departure duration 0 ids h.1,
                  )),
                ),
              )
            ]
      ]
    ]

accepted_iff :
    (segments : List RoadSegment) (departure : ℕ) (reservations : List Reservation) (route : Route)
    (fits accepted : Bool)
    → ((fits ≡ true) ↔ (
        AllKnown (get_capacities segments route.segment_ids) route.segment_ids
        × HasRoom reservations
            (get_capacities segments route.segment_ids)
            departure
            route.estimated_duration
            0
            route.segment_ids))
    → ((accepted ≡ true) ↔ IsFree segments departure reservations route)
    → accepted ≡ (fits && distinct route.segment_ids)
accepted_iff segments departure reservations route fits true free taken =
    let h = taken.0 refl in ground (arith, h.0, free.1 (h.1, h.2))
accepted_iff segments departure reservations route true false free taken =
    elim (Bool-cases (distinct route.segment_ids)) [
      | inl d ↦ absurd (ground (arith, taken.1 (d, (free.0 refl).0, (free.0 refl).1)))
      | inr d ↦ sym d
    ]
accepted_iff segments departure reservations route false false free taken = refl

-- For the same route, time and reservations both come to an answer, and the booking is accepted
-- exactly when the preview says that the route is free and no segment stands twice in it.
pub candidate_available-assess_route :
    (segments : List RoadSegment) (booking id : Text) (departure : ℕ) (route : Route)
    (reservations : List Reservation)
    → (fits accepted : Bool) × (candidate_available segments departure reservations route
        ≡ some fits)
      × (assess_route segments booking departure id route reservations
          ≡ some (settled booking id departure route reservations accepted))
      × (accepted ≡ (fits && distinct route.segment_ids))
candidate_available-assess_route segments booking id departure route reservations =
    let (fits, p, free) = candidate_available_lem segments departure reservations route in
    let (accepted, a, taken) =
      assess_route-settled segments booking id departure route reservations in
    (
      fits,
      accepted,
      p,
      a,
      accepted_iff segments departure reservations route fits accepted free taken,
    )

-- What the preview says of the last of the candidates that have an id.
abbrev pub last_preview : List RoadSegment → ℕ → List Reservation → List Route → Text → Option Bool
last_preview segments departure reservations [] id = none
last_preview segments departure reservations (c ∷ cs) id =
    elim (last_preview segments departure reservations cs id) [
      | some fits ↦ some fits
      | none ↦
          if c.route_id === id then candidate_available segments departure reservations c else none
    ]

routes_availability_from_lem :
    (segments : List RoadSegment) (departure : ℕ) (reservations : List Reservation)
    (candidates : List Route) (found : List (Text × Bool))
    → (results : List (Text × Bool)) × (routes_availability_from segments departure reservations
          candidates found
        ≡ some results)
      × ((id : Text)
          → get_item results id
            ≡ elim (last_preview segments departure reservations candidates id) [
              | some fits ↦ some fits
              | none ↦ get_item found id
            ])
unfolding routes_availability_from
routes_availability_from_lem segments departure reservations [] found = (found, refl, λ id. refl)
routes_availability_from_lem segments departure reservations (c ∷ cs) found =
    let (fits, p, free) = candidate_available_lem segments departure reservations c in
    let (results, e, items) =
      routes_availability_from_lem segments departure reservations cs
        (set_item c.route_id fits found) in
    (
      results,
      rw (routes_availability_from, p) e,
      λ id. ground (arith, items id, p, get_item-set_item id c.route_id fits found),
    )

-- The preview of several routes never fails, and says of each id what the preview of the last
-- candidate with that id says.
pub check_routes_availability_lem :
    (segments : List RoadSegment) (candidates : List Route) (departure : ℕ)
    (reservations : List Reservation)
    → (results : List (Text × Bool)) × (routes_availability segments candidates departure
          reservations
        ≡ some results)
      × ((id : Text)
          → get_item results id ≡ last_preview segments departure reservations candidates id)
unfolding routes_availability get_item
check_routes_availability_lem segments candidates departure reservations =
    let (results, e, items) =
      routes_availability_from_lem segments departure reservations candidates [] in
    (results, e, λ id. ground (arith, items id))
