-- ===== src/BookRoute/Windows.antt =====
-- BookRoutePage.tsx: the time windows for which the use of each segment is asked, and what the
-- map and the card are given. The section's function is the quotient of two whole numbers.
use traffic_service.RouteMap.Features.{SegmentData}
use traffic_service.Base.Double.{Double}
use traffic_service.Api.Routes.{RouteResult, Segment, SegmentUtilization, SegmentWindow}
use traffic_service.Base.{
  ◌==◌, if◌then◌else◌, ◌or_else◌, Text, ◌===◌, ℕ, ◌+◌, ◌*◌, Option, none, some, List, [], ◌∷◌, map,
}

abbrev pub segment_offset_ms : ℕ
segment_offset_ms = 300 * 1000

-- `segments.map((s, index) => …)` from an index on
unfoldable pub windows_from : (ℕ → Text) → ℕ → ℕ → ℕ → List Segment → List SegmentWindow
windows_from to_iso departure duration index [] = []
windows_from to_iso departure duration index (s ∷ ss) =
    record {
      segment_id = s.segment_id;
      window_start = to_iso (departure + index * segment_offset_ms);
      window_end = to_iso (departure + index * segment_offset_ms + duration);
    }
    ∷ windows_from to_iso departure duration (index + 1) ss

unfoldable pub segment_windows : (ℕ → Text) → ℕ → RouteResult → List Segment → List SegmentWindow
unfolding windows_from
segment_windows to_iso departure route segments =
    windows_from to_iso departure ((route.estimated_duration or_else 0) * 1000) 0 segments

-- `utilization[id]`, of the answer's entries the last with that id
unfoldable pub reservations_of : List SegmentUtilization → Text → Option ℕ
reservations_of [] id = none
reservations_of (u ∷ us) id = elim (reservations_of us id) [
  | some n ↦ some n
  | none ↦ if u.segment_id === id then some u.active_reservations else none
]

abbrev pub positive_or_one : Option ℕ → ℕ
positive_or_one none = 1
positive_or_one (some n) = if n == 0 then 1 else n

unfoldable pub map_segment :
    (ℕ → ℕ → Double) → Option (List SegmentUtilization) → Segment → SegmentData
unfolding reservations_of
map_segment divide answer seg =
    let reserved : ℕ = reservations_of (answer or_else []) seg.segment_id or_else 0 in
    record {
      segment_id = seg.segment_id;
      name = some seg.name;
      region = some seg.region;
      coordinates = seg.coordinates;
      capacity = seg.capacity;
      reserved = some reserved;
      utilization = some (divide reserved (positive_or_one seg.capacity));
    }

-- `mapSegments`
unfoldable pub map_segments :
    (ℕ → ℕ → Double)
    → Option (List SegmentUtilization)
    → Option (List Segment)
    → Option (List SegmentData)
unfolding map_segment
map_segments divide answer none = none
map_segments divide answer (some segs) = some (map (map_segment divide answer) segs)
