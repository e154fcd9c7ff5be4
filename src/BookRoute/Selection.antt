-- ===== src/BookRoute/Selection.antt =====
-- BookRoutePage.tsx: which route is shown, and what is shown beside it.
use traffic_service.Base.Double.{Double}
use traffic_service.Base.Json.{Json}
use traffic_service.Api.Routes.{RouteResult, RouteAvailability}
use traffic_service.RouteMap.Geometry.{is_true}
use traffic_service.Datetime.{format_duration}
use mathlib.Core.Option
use traffic_service.Base.{
  leb, ◌==◌, if◌then◌else◌, ◌or_else◌, length, get_elem?, filter, find_index, any, Text, ◌===◌, ℕ,
  ◌+◌, Bool, true, false, ◌&&◌, not, Option, none, some, List, [], ◌∷◌, map,
}

-- `availabilityMap.get(id)`: of the entries with that id the last one counts.
unfoldable pub availability_of : List RouteAvailability → Text → Option Bool
availability_of [] id = none
availability_of (a ∷ rest) id = elim (availability_of rest id) [
  | some b ↦ some b
  | none ↦ if a.route_id === id then some a.available else none
]

abbrev pub is_available : Option Bool → Bool
is_available (some true) = true
is_available _ = false

abbrev pub available_route : List RouteAvailability → RouteResult → Bool
available_route answer r = is_available (availability_of answer r.route_id)

unfoldable pub selected_route_index :
    Option ℕ → Option (List RouteResult) → Option (List RouteAvailability) → ℕ
selected_route_index (some i) routes answer = i
selected_route_index none (some routes) (some answer) =
    find_index (available_route answer) routes or_else 0
selected_route_index none _ _ = 0

unfoldable pub route_at : Option (List RouteResult) → ℕ → Option RouteResult
route_at none i = none
route_at (some routes) i = get_elem? routes i

unfoldable pub no_available_routes : Option (List RouteAvailability) → Bool
no_available_routes none = false
no_available_routes (some answer) =
    not (length answer == 0) && not (any (λ (a : RouteAvailability). a.available) answer)

-- `allRoutes.filter((_, i) => i !== selected)` from an index on
abbrev pub without : ℕ → ℕ → List RouteResult → List RouteResult
without selected i [] = []
without selected i (r ∷ rs) =
    let rest = without selected (i + 1) rs in if i == selected then rest else r ∷ rest

unfoldable pub alternative_geometries : Option (List RouteResult) → ℕ → Option (List (Json Double))
alternative_geometries none selected = none
alternative_geometries (some routes) selected =
    if leb (length routes) 1
    then none
    else some (
        filter (λ (g : Json Double). is_true (some g))
          (map (λ (r : RouteResult). r.geometry) (without selected 0 routes)))

-- The badge of a route in the list: shown only where its availability is known.
pub data Badge : Type 0 where
  fully_booked available no_badge : Badge

abbrev pub badge_of : Option Bool → Badge
badge_of none = no_badge
badge_of (some true) = available
badge_of (some false) = fully_booked

pub record RouteRow : Type 0 where
  pub key : Text
  pub number : ℕ
  pub duration : Option Text
  pub badge : Badge
  pub is_selected : Bool

abbrev rows_from : List RouteAvailability → ℕ → ℕ → List RouteResult → List RouteRow
rows_from answer selected i [] = []
rows_from answer selected i (r ∷ rs) =
    record {
      key = r.route_id;
      number = i + 1;
      duration = Option.map format_duration r.estimated_duration;
      badge = badge_of (availability_of answer r.route_id);
      is_selected = i == selected;
    }
    ∷ rows_from answer selected (i + 1) rs

-- The list of routes, which is there for more than one.
unfoldable pub route_rows :
    Option (List RouteResult) → Option (List RouteAvailability) → ℕ → List RouteRow
route_rows none answer selected = []
route_rows (some routes) answer selected =
    if leb (length routes) 1 then [] else rows_from (answer or_else []) selected 0 routes
