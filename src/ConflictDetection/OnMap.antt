-- ===== src/ConflictDetection/OnMap.antt =====
-- The frontend's map of a route against the conflict detection service's assessment of it.
use traffic_service.ConflictDetection.Counts.{
  windows_at, ids_of, read_windows-windows_from, Counted, utilization_from-Counted,
  utilization_items-reservations_of, Counted-answer,
}
use traffic_service.ConflictDetection.Assessed.{settled, assess_route-settled}
use traffic_service.RouteMap.Colors.{segment_capacity_color_iff}
use traffic_service.RouteMap.Features.{SegmentColor, full_color, segment_capacity_color, feature_of}
use traffic_service.ConflictDetection.Capacities.{capacity_of, get_capacities-get_item, AllKnown}
use traffic_service.ConflictDetection.Fits.{HasRoom}
use traffic_service.Base.Double.{Double}
use traffic_service.Base.Json.{Json}
use traffic_service.BookRoute.Windows.{reservations_of, map_segment, segment_windows}
use traffic_service.ConflictDetection.Tables.{
  Reservation, count_overlapping, RoadSegment, Route, get_capacities,
}
use traffic_service.ConflictDetection.Endpoints.{utilization_items, utilization}
use traffic_service.ConflictDetection.Service.{start_at, end_at, assess_route, segment_utilization}
use traffic_service.Base.Sets.{contains, distinct, get_item, Subset-intro, is_some-get_item}
use traffic_service.Api.Routes.{Segment, SegmentUtilization, RouteResult}
use traffic_service.Base.{
  ltb, ltb→lt, Bool-cases, ◌or_else◌, is_some, All, Text, ===_iff, ===_refl, ℕ, ◌+◌, ◌<◌, ◌≡◌, refl,
  sym, ◌∙◌, ◌≢◌, ◌↔◌, inl, inr, Bool, true, Option, some, List, [], ◌∷◌, arith,
}

-- The map knows the capacity of each segment that the table has, and it is not 0.
abbrev pub CapacitiesKnown : List RoadSegment → List Segment → Type 0
CapacitiesKnown table ss =
    All
      (λ (s : Segment).
        (0 < (s.capacity or_else 0))
        × (capacity_of table s.segment_id ≡ some (s.capacity or_else 0)))
      ss

known_in_table :
    (table : List RoadSegment) (ss : List Segment) (id : Text)
    → CapacitiesKnown table ss
    → contains id (ids_of ss) ≡ true
    → is_some (capacity_of table id) ≡ true
known_in_table table [] id known m = ground arith
known_in_table table (s ∷ ss) id known m =
    ground (arith, ===_iff s.segment_id id, known.0.1, known_in_table table ss id known.1)

CapacitiesKnown-AllKnown :
    (table : List RoadSegment) (ss : List Segment)
    → CapacitiesKnown table ss
    → AllKnown (get_capacities table (ids_of ss)) (ids_of ss)
CapacitiesKnown-AllKnown table ss known = Subset-intro (ids_of ss) _ (λ j m. ground (
  arith,
  m,
  is_some-get_item j (get_capacities table (ids_of ss)),
  get_capacities-get_item table (ids_of ss) j,
  known_in_table table ss j known m,
))

module _ (divide : ℕ → ℕ → Double) (rounded : Double → ℕ → ℕ) (shape : Segment → Json Double) where
  -- The color of a segment on the map of this page.
  abbrev pub color_on_map : List SegmentUtilization → Segment → SegmentColor
  color_on_map answer s = (feature_of rounded (map_segment divide (some answer) s) (shape s)).color

  color_on_map_lem :
      (answer : List SegmentUtilization) (s : Segment) (n : ℕ)
      → reservations_of answer s.segment_id ≡ some n
      → color_on_map answer s ≡ segment_capacity_color n (s.capacity or_else 0)
  unfolding feature_of map_segment
  color_on_map_lem answer s n e = rw e

  not_full-HasRoom :
      (table : List RoadSegment) (capacities : List (Text × ℕ)) (reservations : List Reservation)
      (departure duration index : ℕ) (answer : List SegmentUtilization) (ss : List Segment)
      → CapacitiesKnown table ss
      → ((id : Text)
          → contains id (ids_of ss) ≡ true
          → get_item capacities id ≡ capacity_of table id)
      → Counted reservations departure duration (reservations_of answer) index ss
      → All (λ s. color_on_map answer s ≢ full_color) ss
        ↔ HasRoom reservations capacities departure duration index (ids_of ss)
  not_full-HasRoom table capacities reservations departure duration index answer [] known same h =
      ((λ a. tt), (λ a. tt))
  not_full-HasRoom table capacities reservations departure duration index answer (s ∷ ss) known same
        h =
      let rest =
        not_full-HasRoom table capacities reservations departure duration (index + 1) answer ss
          known.1 (λ id m. same id (ground arith)) h.1 in
      let n =
        count_overlapping reservations s.segment_id (start_at departure index)
          (end_at departure duration index) in
      let c : color_on_map answer s ≡ segment_capacity_color n (s.capacity or_else 0) =
        color_on_map_lem answer s n h.0 in
      let k : get_item capacities s.segment_id ≡ some (s.capacity or_else 0) =
        same s.segment_id (ground (arith, ===_refl s.segment_id)) ∙ known.0.1 in
      let full = (segment_capacity_color_iff n (s.capacity or_else 0)).0 in
      (
        (λ a. (
          rw k (elim (Bool-cases (ltb n (s.capacity or_else 0))) [
            | inl free ↦ ltb→lt n (s.capacity or_else 0) free
            | inr taken ↦ absurd (a.0 (c ∙ full.1 (known.0.0, ground arith)))
          ]),
          rest.0 a.1,
        )),
        (λ a. (λ e. omega (arith, (full.0 (sym c ∙ e)).1, rw k at a.0), rest.1 a.1)),
      )

  -- The map of a route and the assessment of a booking of it agree: where the map has the service's
  -- answer for the departure, the stored route's segments in their order without repetition, its
  -- duration and capacities other than 0, the booking is accepted exactly when the map shows no
  -- segment as full.
  pub color_on_map-assess_route :
      (to_iso : ℕ → Text) (read_time : Text → Option ℕ) (table : List RoadSegment)
      (booking id : Text) (departure : ℕ) (route : Route) (shown : RouteResult) (ss : List Segment)
      (reservations : List Reservation)
      → ((n : ℕ) → read_time (to_iso n) ≡ some n)
      → route.segment_ids ≡ ids_of ss
      → shown.estimated_duration ≡ some route.estimated_duration
      → distinct (ids_of ss) ≡ true
      → CapacitiesKnown table ss
      → (answer : List SegmentUtilization) × (accepted : Bool) × (utilization read_time reservations
            (segment_windows to_iso departure shown ss)
          ≡ some answer)
        × (assess_route table booking departure id route reservations
            ≡ some (settled booking id departure route reservations accepted))
        × ((accepted ≡ true) ↔ All (λ s. color_on_map answer s ≢ full_color) ss)
  unfolding utilization segment_windows segment_utilization
  color_on_map-assess_route to_iso read_time table booking id departure route shown ss reservations
        reads same_ids lasts d known =
      let duration = route.estimated_duration in
      let windows = windows_at departure duration 0 ss in
      let counts = segment_utilization reservations windows in
      let answer = utilization_items counts windows in
      let counted =
        Counted-answer reservations departure duration 0 counts answer ss
          (λ j m. rw m at (utilization_items-reservations_of counts departure duration 0 ss j))
          (utilization_from-Counted reservations departure duration 0 ss [] d) in
      let (accepted, run, free) =
        assess_route-settled table booking id departure route reservations in
      let agree =
        not_full-HasRoom table (get_capacities table (ids_of ss)) reservations departure duration 0
          answer ss known (λ j m. rw m at (get_capacities-get_item table (ids_of ss) j)) counted in
      (
        answer,
        accepted,
        rw lasts
            (rw (read_windows-windows_from to_iso read_time reads departure duration 0 ss) refl),
        run,
        (
          (λ a. agree.1 (rw same_ids at (free.0 a).2)),
          (λ a. free.1 (rw same_ids (d, CapacitiesKnown-AllKnown table ss known, agree.0 a))),
        ),
      )
