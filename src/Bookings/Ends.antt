-- ===== src/Bookings/Ends.antt =====
-- BookingsPage.tsx, `extractPoints`: the markers at the two ends of a route.
use traffic_service.RouteMap.Geometry.{member, is_true, has_type, array_of}
use traffic_service.Base.Double.{Double}
use traffic_service.Base.Json.{Json, null, arr, elements}
use traffic_service.Base.{
  if◌then◌else◌, ◌or_else◌, bind_some, get_elem?, get_last?, codes, not, Option, none, some, List,
  [], ◌∷◌,
}

-- `crashes` is a TypeError, which reading an element of `undefined` or of `null` is.
pub data Ends : Type 0 where
  no_ends crashes : Ends
  ends :
      Option (Json Double) × Option (Json Double)
      → Option (Json Double) × Option (Json Double)
      → Ends

-- The values at 0 and 1 of a position.
abbrev pub position : Option (Json Double) → Option (Option (Json Double) × Option (Json Double))
position none = none
position (some null) = none
position (some (arr vs)) = some (get_elem? (elements vs) 0, get_elem? (elements vs) 1)
position (some _) = some (none, none)

abbrev pub ends_of : Option (Json Double) → Option (Json Double) → Ends
ends_of start stop = elim (position start) [
  | none ↦ crashes
  | some s ↦ elim (position stop) [ none ↦ crashes | some e ↦ ends s e ]
]

-- The lines of a multi-line that are `undefined` or no arrays have no positions.
abbrev pub first_position : List (Json Double) → Option (Json Double)
first_position [] = none
first_position (line ∷ lines) = get_elem? (array_of line) 0

abbrev pub last_position : List (Json Double) → Option (Json Double)
last_position lines = bind_some (get_last? lines) (λ line. get_last? (array_of line))

unfoldable pub extract_points : Option (Json Double) → Ends
extract_points none = no_ends
extract_points (some g) =
    let coordinates = array_of (member (codes "coordinates") g or_else null) in
    if not (is_true (some g))
    then no_ends
    else if has_type "LineString" g
    then ends_of (get_elem? coordinates 0) (get_last? coordinates)
    else if has_type "MultiLineString" g
    then ends_of (first_position coordinates) (last_position coordinates)
    else no_ends
