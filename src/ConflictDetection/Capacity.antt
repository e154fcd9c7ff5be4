-- ===== src/ConflictDetection/Capacity.antt =====
-- conflict-detection-service: at no time has a segment more reservations than its capacity.
use traffic_service.ConflictDetection.Assessed.{IsFree, settled, assess_route-settled}
use traffic_service.ConflictDetection.Tables.{
  Reservation, RoadSegment, count_overlapping, create, Route, StoredRoute, get_by_id,
  delete_by_booking, get_capacities,
}
use traffic_service.ConflictDetection.Capacities.{capacity_of, get_capacities-get_item}
use traffic_service.ConflictDetection.Fits.{HasRoom, HasRoom-create}
use traffic_service.ConflictDetection.Service.{
  reserve_from, start_at, end_at, AssessmentResult, assessed, assess_and_reserve,
}
use traffic_service.Base.Sets.{contains, distinct, get_item}
use traffic_service.Base.{
  ltb, leb, if◌then◌else◌, Bool-cases, Option-cases, ◌or_else◌, length, filter, Text, ===_iff,
  ◌===◌, ℕ, suc, ◌+◌, ◌≤◌, ◌<◌, ◌≡◌, refl, ◌∙◌, ◌↔◌, inl, inr, Bool, true, false, ◌&&◌, some, List,
  [], ◌∷◌, arith,
}

abbrev covers : Text → ℕ → Reservation → Bool
covers id time r =
    (r.segment_id === id) && (leb r.time_window_start time && ltb time r.time_window_end)

-- How many reservations a segment has at one time.
abbrev pub occupancy : List Reservation → Text → ℕ → ℕ
occupancy reservations id time = length (filter (covers id time) reservations)

abbrev pub IsWithinCapacity : List RoadSegment → List Reservation → Type 0
IsWithinCapacity segments reservations =
    (id : Text) (time : ℕ) → occupancy reservations id time ≤ (capacity_of segments id or_else 0)

occupancy-count_overlapping-le :
    (reservations : List Reservation) (id : Text) (time from until : ℕ)
    → from ≤ time
    → time < until
    → occupancy reservations id time ≤ count_overlapping reservations id from until
unfolding count_overlapping
occupancy-count_overlapping-le [] id time from until h k = omega arith
occupancy-count_overlapping-le (r ∷ rs) id time from until h k =
    ground (arith, occupancy-count_overlapping-le rs id time from until h k)

module _ (booking : Text) (departure duration : ℕ) where
  create-occupancy :
      (j : Text) (from until : ℕ) (reservations : List Reservation) (id : Text) (time : ℕ)
      → occupancy (create booking j from until reservations) id time ≡ (
          if (j === id) && (leb from time && ltb time until)
          then suc (occupancy reservations id time)
          else occupancy reservations id time)
  unfolding create
  create-occupancy j from until reservations id time = ground arith

  reserve_from-off :
      (index : ℕ) (ids : List Text) (reservations : List Reservation) (id : Text) (time : ℕ)
      → contains id ids ≡ false
      → occupancy (reserve_from booking departure duration index ids reservations) id time
        ≡ occupancy reservations id time
  unfolding reserve_from
  reserve_from-off index [] reservations id time off = refl
  reserve_from-off index (j ∷ ids) reservations id time off =
      reserve_from-off (index + 1) ids _ id time (ground arith)
      ∙ ground (
        arith,
        create-occupancy j (start_at departure index) (end_at departure duration index) reservations
            id time,
        off,
      )

  -- One more reservation of a segment, in a window with room for it.
  create-le :
      (j : Text) (from until : ℕ) (reservations : List Reservation) (id : Text) (time bound : ℕ)
      → occupancy reservations id time ≤ bound
      → count_overlapping reservations id from until < bound
      → occupancy (create booking j from until reservations) id time ≤ bound
  create-le j from until reservations id time bound h room = ground (
    arith,
    create-occupancy j from until reservations id time,
    occupancy-count_overlapping-le reservations id time from until,
    h,
    room,
  )

  not_in : (j : Text) (ids : List Text) → distinct (j ∷ ids) ≡ true → contains j ids ≡ false
  not_in j ids d = ground arith

  reserve_from-le :
      (capacities : List (Text × ℕ)) (index : ℕ) (ids : List Text) (reservations : List Reservation)
      (id : Text) (time : ℕ)
      → distinct ids ≡ true
      → HasRoom reservations capacities departure duration index ids
      → contains id ids ≡ true
      → occupancy reservations id time ≤ (get_item capacities id or_else 0)
      → occupancy (reserve_from booking departure duration index ids reservations) id time
        ≤ (get_item capacities id or_else 0)
  unfolding reserve_from
  reserve_from-le capacities index [] reservations id time d room m h = h
  reserve_from-le capacities index (j ∷ ids) reservations id time d room m h =
      let from = start_at departure index in
      let until = end_at departure duration index in
      let more = create booking j from until reservations in
      elim (Bool-cases (j === id)) [
        | inl here ↦
            let e : j ≡ id = (===_iff j id).0 here in
            let least : count_overlapping reservations id from until
                < (get_item capacities id or_else 0) =
              rw e at room.0 in
            rw (reserve_from-off (index + 1) ids more id time (rw e at (not_in j ids d)))
              (create-le j from until reservations id time _ h least)
        | inr there ↦
            reserve_from-le capacities (index + 1) ids more id time (ground arith)
              (HasRoom-create reservations capacities departure duration (index + 1) ids booking j
                from until (ground arith) room.1)
              (ground arith)
              (ground (arith, create-occupancy j from until reservations id time, h, there))
      ]

-- A booking that is accepted leaves every segment within its capacity.
settled-IsWithinCapacity :
    (segments : List RoadSegment) (booking id : Text) (departure : ℕ) (route : Route)
    (reservations : List Reservation) (fits : Bool)
    → ((fits ≡ true) ↔ IsFree segments departure reservations route)
    → IsWithinCapacity segments reservations
    → IsWithinCapacity segments (settled booking id departure route reservations fits).1
settled-IsWithinCapacity segments booking id departure route reservations false free h j time =
    h j time
settled-IsWithinCapacity segments booking id departure route reservations true free h j time =
    let ids = route.segment_ids in
    let known = free.0 refl in
    elim (Bool-cases (contains j ids)) [
      | inr off ↦
          rw
            (reserve_from-off booking departure route.estimated_duration 0 ids reservations j time
              off)
            (h j time)
      | inl on ↦
          let e : get_item (get_capacities segments ids) j ≡ capacity_of segments j =
            rw on at (get_capacities-get_item segments ids j) in
          rw e at (
            reserve_from-le booking departure route.estimated_duration (get_capacities segments ids)
              0 ids reservations j time known.0 known.2 on (rw e (h j time)))
    ]

pub assess_and_reserve-IsWithinCapacity :
    (routes : List StoredRoute) (segments : List RoadSegment) (booking id : Text) (departure : ℕ)
    (reservations : List Reservation)
    → IsWithinCapacity segments reservations
    → (result : AssessmentResult × List Reservation) × (assess_and_reserve routes segments booking
          id departure reservations
        ≡ some result)
      × IsWithinCapacity segments result.1
unfolding assess_and_reserve
assess_and_reserve-IsWithinCapacity routes segments booking id departure reservations h =
    elim (Option-cases (get_by_id routes id)) [
      | inl e ↦ (assessed booking id false reservations, rw (assess_and_reserve, e) refl, h)
      | inr (route, e) ↦
          let (fits, step, free) =
            assess_route-settled segments booking id departure route reservations in
          (
            settled booking id departure route reservations fits,
            rw (assess_and_reserve, e) step,
            settled-IsWithinCapacity segments booking id departure route reservations fits free h,
          )
    ]

pub occupancy-delete_by_booking-le :
    (reservations : List Reservation) (booking id : Text) (time : ℕ)
    → occupancy (delete_by_booking reservations booking).0 id time ≤ occupancy reservations id time
unfolding delete_by_booking
occupancy-delete_by_booking-le [] booking id time = omega arith
occupancy-delete_by_booking-le (r ∷ rs) booking id time =
    ground (arith, occupancy-delete_by_booking-le rs booking id time)
