-- ===== src/RouteMap/Colors.antt =====
-- RouteMap.tsx, `segmentCapacityColor`.
use traffic_service.RouteMap.Features.{
  available_color, medium_color, full_color, segment_capacity_color,
}
use traffic_service.Base.{ℕ, ◌+◌, ◌≤◌, ◌<◌, ◌≡◌, ◌≢◌, ◌↔◌, ◌⊎◌, arith}

-- A segment is drawn as full exactly when it has a capacity and the reservations reach it, as
-- half full exactly when they reach half of it and not all, and as available otherwise: so also
-- where the capacity is 0.
pub segment_capacity_color_iff :
    (reserved capacity : ℕ)
    → ((segment_capacity_color reserved capacity ≡ full_color)
        ↔ ((0 < capacity) × (capacity ≤ reserved)))
      × ((segment_capacity_color reserved capacity ≡ medium_color)
          ↔ ((reserved < capacity) × (capacity ≤ reserved + reserved)))
      × ((segment_capacity_color reserved capacity ≡ available_color)
          ↔ ((capacity ≡ 0) ⊎ (reserved + reserved < capacity)))
unfolding segment_capacity_color
segment_capacity_color_iff reserved capacity = (
  ((ground arith), (ground arith)),
  ((ground arith), (ground arith)),
  ((ground arith), (ground arith)),
)

-- More reservations never make a segment look freer: from full it stays full, and from half full
-- it stays half full or becomes full.
pub segment_capacity_color_mono :
    (r s capacity : ℕ)
    → r ≤ s
    → (segment_capacity_color r capacity ≡ full_color
        → segment_capacity_color s capacity ≡ full_color)
      × (segment_capacity_color r capacity ≡ medium_color
          → segment_capacity_color s capacity ≢ available_color)
unfolding segment_capacity_color
segment_capacity_color_mono r s capacity h = (ground arith, ground arith)
