-- ===== src/ConflictDetection/Assessed.antt =====
-- conflict-detection-service: which bookings `assess_and_reserve` accepts, and what it leaves.
use traffic_service.ConflictDetection.Tables.{
  Reservation, RoadSegment, Route, get_capacities, StoredRoute, get_by_id,
}
use traffic_service.ConflictDetection.Capacities.{
  AllKnown, get_capacities_complete, length-get_capacities,
}
use traffic_service.ConflictDetection.Fits.{
  HasRoom, fits_from-total, fits_from-HasRoom, HasRoom-fits_from,
}
use traffic_service.ConflictDetection.Service.{
  AssessmentResult, fits_from, reserve_from, assessed, assess_route, assess_and_reserve,
}
use traffic_service.Base.Sets.{distinct}
use traffic_service.Base.{
  ◌==◌, if◌then◌else◌, Bool-cases, Option-cases, length, Text, ℕ, ◌≡◌, refl, ◌↔◌, inl, inr, Bool,
  true, false, some, List, [], ◌∷◌, arith,
}

-- No segment of the route is repeated, each is in the table, and each has room at its time.
abbrev pub IsFree : List RoadSegment → ℕ → List Reservation → Route → Type 0
IsFree segments departure reservations route =
    let ids = route.segment_ids in
    let capacities = get_capacities segments ids in
    (distinct ids ≡ true)
    × AllKnown capacities ids
    × HasRoom reservations capacities departure route.estimated_duration 0 ids

-- What the operation answers and leaves, where the booking fits and where it does not.
abbrev pub settled :
    Text → Text → ℕ → Route → List Reservation → Bool → AssessmentResult × List Reservation
settled booking id departure route reservations fits = assessed booking id fits (
    if fits
    then reserve_from booking departure route.estimated_duration 0 route.segment_ids reservations
    else reservations)

pub length-zero : (ids : List Text) → length ids ≡ 0 → ids ≡ []
length-zero [] e = refl
length-zero (id ∷ ids) e = ground arith

pub assess_route-settled :
    (segments : List RoadSegment) (booking id : Text) (departure : ℕ) (route : Route)
    (reservations : List Reservation)
    → (fits : Bool) × (assess_route segments booking departure id route reservations
        ≡ some (settled booking id departure route reservations fits))
      × ((fits ≡ true) ↔ IsFree segments departure reservations route)
unfolding assess_route
assess_route-settled segments booking id departure route reservations =
    let ids = route.segment_ids in
    let capacities = get_capacities segments ids in
    elim (Bool-cases (length ids == 0)) [
      | inl none_left ↦
          let e : ids ≡ [] = length-zero ids (ground (arith, none_left)) in
          (true, (rw e refl), ((λ h. rw e (refl, tt, tt)), (λ h. refl)))
      | inr some_left ↦ elim (Bool-cases (length capacities == length ids)) [
        | inr fewer ↦ (
          false,
          rw some_left (rw fewer refl),
          (
            (λ e. ground arith),
            (λ h. ground (arith, fewer, length-get_capacities segments ids h.0 h.1)),
          ),
        )
        | inl complete ↦
            let parts = get_capacities_complete segments ids (ground (arith, complete)) in
            elim (Option-cases
              (fits_from reservations capacities departure route.estimated_duration 0 ids)) [
                | inl never ↦ absurd (
                    ground (
                      arith,
                      never,
                      fits_from-total reservations capacities departure route.estimated_duration 0
                          ids parts.1,
                    ))
                | inr (true, e) ↦ (
                  true,
                  rw some_left (rw complete (rw e refl)),
                  (
                    (λ h. (
                      parts.0,
                      parts.1,
                      fits_from-HasRoom reservations capacities departure route.estimated_duration 0
                          ids e,
                    )),
                    (λ h. refl),
                  ),
                )
                | inr (false, e) ↦ (
                  false,
                  rw some_left (rw complete (rw e refl)),
                  (
                    (λ h. ground arith),
                    (λ h. ground (
                      arith,
                      e,
                      HasRoom-fits_from reservations capacities departure route.estimated_duration 0
                          ids h.2,
                    )),
                  ),
                )
              ]
      ]
    ]

-- Every assessment has a result, for the booking that it was asked for.
pub assess_and_reserve-total :
    (routes : List StoredRoute) (segments : List RoadSegment) (booking route : Text) (departure : ℕ)
    (reservations : List Reservation)
    → (result : AssessmentResult × List Reservation) × (assess_and_reserve routes segments booking
          route departure reservations
        ≡ some result)
      × (result.0.booking_id ≡ booking)
unfolding assess_and_reserve
assess_and_reserve-total routes segments booking route departure reservations =
    elim (Option-cases (get_by_id routes route)) [
      | inl e ↦ (assessed booking route false reservations, rw (assess_and_reserve, e) refl, refl)
      | inr (found, e) ↦
          let (fits, step, free) =
            assess_route-settled segments booking route departure found reservations in
          (
            settled booking route departure found reservations fits,
            rw (assess_and_reserve, e) step,
            refl,
          )
    ]
