-- ===== src/BookRoute/Utilization.antt =====
-- BookRoutePage.tsx: the windows that are asked for, and what becomes of the answer.
use mathlib.Core.Option
use traffic_service.BookRoute.Windows.{
  segment_offset_ms, windows_from, segment_windows, reservations_of, map_segment,
}
use traffic_service.RouteMap.Features.{segment_capacity_color, feature_of}
use traffic_service.Base.Double.{Double}
use traffic_service.Base.Json.{Json}
use traffic_service.Api.Routes.{RouteResult, Segment, SegmentUtilization, SegmentWindow}
use traffic_service.Base.{
  ◌or_else◌, get_elem?, All, Text, ===_iff, ℕ, zero, suc, ◌+◌, ◌*◌, ◌≡◌, refl, ◌≢◌, ◌⊎◌, inl, inr,
  none, some, List, [], ◌∷◌, arith,
}

-- The window of the segment at a place in the list.
abbrev pub window_at : (ℕ → Text) → ℕ → ℕ → ℕ → Segment → SegmentWindow
window_at to_iso departure duration index s = record {
  segment_id = s.segment_id;
  window_start = to_iso (departure + index * segment_offset_ms);
  window_end = to_iso (departure + index * segment_offset_ms + duration);
}

windows_from-get_elem? :
    (to_iso : ℕ → Text) (departure duration i k : ℕ) (ss : List Segment)
    → get_elem? (windows_from to_iso departure duration i ss) k
      ≡ Option.map (window_at to_iso departure duration (i + k)) (get_elem? ss k)
unfolding windows_from
windows_from-get_elem? to_iso departure duration i k [] = refl
windows_from-get_elem? to_iso departure duration i zero (s ∷ ss) =
    let e : i + 0 ≡ i = omega arith in rw e
windows_from-get_elem? to_iso departure duration i (suc k) (s ∷ ss) =
    let e : i + suc k ≡ i + 1 + k = omega arith in
    rw e (windows_from-get_elem? to_iso departure duration (i + 1) k ss)

-- The windows are those of the segments in their order: the one at a place begins five minutes
-- for each place after the departure, and lasts as long as the route is estimated to take, or no
-- time where there is no estimate.
pub segment_windows_lem :
    (to_iso : ℕ → Text) (departure : ℕ) (route : RouteResult) (segments : List Segment) (k : ℕ)
    → get_elem? (segment_windows to_iso departure route segments) k
      ≡ Option.map
          (window_at to_iso departure ((route.estimated_duration or_else 0) * 1000) k)
          (get_elem? segments k)
unfolding segment_windows
segment_windows_lem to_iso departure route segments k =
    let e : 0 + k ≡ k = omega arith in
    rw e at (
      windows_from-get_elem? to_iso departure ((route.estimated_duration or_else 0) * 1000) 0 k
        segments)

-- The last entry of an answer that is for a segment states this number of reservations.
abbrev pub Lists : Text → ℕ → List SegmentUtilization → Type 0
Lists id n [] = ⊥
Lists id n (u ∷ us) =
    ((u.segment_id ≡ id)
      × (u.active_reservations ≡ n)
      × All (λ (v : SegmentUtilization). v.segment_id ≢ id) us)
    ⊎ Lists id n us

reservations_of-none :
    (id : Text) (us : List SegmentUtilization)
    → All (λ (v : SegmentUtilization). v.segment_id ≢ id) us
    → reservations_of us id ≡ none
unfolding reservations_of
reservations_of-none id [] h = refl
reservations_of-none id (u ∷ us) h =
    ground (arith, ===_iff u.segment_id id, reservations_of-none id us h.1)

reservations_of-Lists :
    (id : Text) (n : ℕ) (us : List SegmentUtilization)
    → Lists id n us
    → reservations_of us id ≡ some n
unfolding reservations_of
reservations_of-Lists id n [] h = absurd h
reservations_of-Lists id n (u ∷ us) (inl here) =
    ground (arith, ===_iff u.segment_id id, reservations_of-none id us here.2)
reservations_of-Lists id n (u ∷ us) (inr later) =
    ground (arith, reservations_of-Lists id n us later)

-- On the map of this page a segment has the color of the reservations that the answer states last
-- for it and of its capacity; with no such entry it has the color of no reservation.
pub feature_of-map_segment :
    (divide : ℕ → ℕ → Double) (rounded : Double → ℕ → ℕ) (answer : List SegmentUtilization)
    (seg : Segment) (shape : Json Double) (n : ℕ)
    → let f = feature_of rounded (map_segment divide (some answer) seg) shape in
      (Lists seg.segment_id n answer → f.color ≡ segment_capacity_color n (seg.capacity or_else 0))
      × (All (λ (v : SegmentUtilization). v.segment_id ≢ seg.segment_id) answer
          → f.color ≡ segment_capacity_color 0 (seg.capacity or_else 0))
unfolding feature_of map_segment
feature_of-map_segment divide rounded answer seg shape n = (
  (λ h. rw (reservations_of-Lists seg.segment_id n answer h)),
  (λ h. rw (reservations_of-none seg.segment_id answer h)),
)
