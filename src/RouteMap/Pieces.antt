-- ===== src/RouteMap/Pieces.antt =====
-- RouteMap.tsx, `splitRouteIntoSegmentGeometries`: the pieces join up and cover the route.
use traffic_service.RouteMap.Geometry.{
  extract_coordinates, geometry, start_index, end_index, slice, piece, indices_from, split_route,
}
use traffic_service.Base.Double.{Double}
use traffic_service.Base.Json.{Json}
use native.Mathlib.Nat.{div-lt_iff_lt-mul, div-le_of_le-mul}
use traffic_service.Base.{
  ltb, ◌==◌, Bool-cases, length, drop, All, length-take, length-drop, length-map, ℕ, zero, suc, ◌+◌,
  ◌-◌, ◌≤◌, ◌<◌, ◌≡◌, refl, ap, ◌∙◌, inl, inr, ◌||◌, List, [], map, arith,
}

-- The first coordinate of a piece lies before the end of the route.
start_index-lt : (e n i : ℕ) → 0 < e → i < n → start_index e n i < e
start_index-lt e n i pe h = (div-lt_iff_lt-mul (omega arith)).1 (grind arith)

start_index-le : (e n i : ℕ) → i ≤ n → start_index e n i ≤ e
start_index-le e n i h = div-le_of_le-mul n (grind arith)

-- Each piece is a stretch of at least one edge within the route.
end_index_bounds :
    (e n i : ℕ) → 0 < e → i < n → (start_index e n i < end_index e n i) × (end_index e n i ≤ e)
unfolding end_index
end_index_bounds e n i pe h = ground (arith, start_index-lt e n i pe h, start_index-le e n (i + 1))

length-slice :
    {A : Type 0} (xs : List A) (from to : ℕ)
    → to ≤ length xs
    → length (slice xs from to) ≡ to - from
length-slice xs from to h =
    omega (arith, length-take (to - from) (drop from xs), length-drop from xs)

length-piece :
    (coords : List (Json Double)) (n i : ℕ)
    → 2 ≤ length coords
    → i < n
    → 2 ≤ length (piece coords n i)
unfolding piece
length-piece coords n i two h =
    let e = length coords - 1 in
    let bounds = end_index_bounds e n i (omega arith) h in
    omega (arith, bounds, length-slice coords (start_index e n i) (end_index e n i + 1))

-- A piece of a route, as a GeoJSON line of at least two coordinates.
abbrev pub IsLine : Json Double → Type 0
IsLine g = (cs : List (Json Double)) × (g ≡ geometry "LineString" cs) × (2 ≤ length cs)

map-IsLine :
    (coords : List (Json Double)) (n k i : ℕ)
    → 2 ≤ length coords
    → i + k ≤ n
    → All IsLine (map (λ j. geometry "LineString" (piece coords n j)) (indices_from k i))
map-IsLine coords n zero i two h = tt
map-IsLine coords n (suc k) i two h = (
  (piece coords n i, refl, length-piece coords n i two (omega arith)),
  map-IsLine coords n k (suc i) two (omega arith),
)

length-indices_from : (k i : ℕ) → length (indices_from k i) ≡ k
length-indices_from zero i = refl
length-indices_from (suc k) i = ap suc (length-indices_from k (suc i))

-- A route with at least two coordinates is cut into one line for each segment, each of at least
-- two coordinates; any other route gives no line.
pub split_route-IsLine :
    (route : Json Double) (n : ℕ)
    → All IsLine (split_route route n)
      × (2 ≤ length (extract_coordinates route) → length (split_route route n) ≡ n)
      × (length (extract_coordinates route) < 2 → split_route route n ≡ [])
unfolding split_route
split_route-IsLine route n =
    let coords = extract_coordinates route in
    elim (Bool-cases (n == 0 || ltb (length coords) 2)) [
      | inl few ↦ rw few (tt, (λ two. ground arith), λ _. refl)
      | inr enough ↦ rw enough (
        map-IsLine coords n n 0 (ground arith) (omega arith),
        (λ two.
            length-map (indices_from n 0) (λ i. geometry "LineString" (piece coords n i))
            ∙ length-indices_from n 0),
        (λ lt. absurd (ground arith)),
      )
    ]
