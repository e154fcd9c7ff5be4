-- ===== src/Tests/Maps.antt =====
-- The map and the search field at the test data.
use traffic_service.BookRoute.Windows.{map_segment}
use traffic_service.RouteMap.Drawn.{HasLine, Drawn, segment_features-Drawn}
use traffic_service.RouteMap.Bounds.{
  BoundsApi, Shape, line_strings, json_of, positions, fit_bounds_to_geometry, fit_bounds_covers,
}
use traffic_service.RouteMap.UpToDate.{sync_all}
use traffic_service.RouteMap.Html.{escape_html}
use traffic_service.RouteMap.Mounted.{MapProps, Mounted, container_ref, run_effect}
use traffic_service.RouteMap.Sync.{Props, sync}
use traffic_service.RouteMap.LastDrawn.{IsDrawn, sync_all_draws}
use traffic_service.RouteMap.Features.{SegmentData, segment_features}
use traffic_service.RouteMap.Escaped.{IsInert, unescape, escape_html-IsInert}
use traffic_service.RouteMap.Geometry.{
  member, has_type, extract_coordinates, piece, split_route, to_coordinate_pair,
}
use traffic_service.Base.Double.{Double}
use traffic_service.Base.Json.{Json, num, arr, nil, cons, lookup_field}
use traffic_service.Tests.Store.{Store, store, empty_store}
use traffic_service.Tests.Data.{
  line_of_four, two_segments, six_reserved, rounded, quotient, dublin, howth,
}
use traffic_service.Api.Routes.{Segment}
use traffic_service.LocationSearch.{SearchBox}
use traffic_service.Base.{
  Option-cases, is_some, length, any, All, codes, ===_refl, ◌===◌, ℕ, ◌≤◌, String, ◌≡◌, refl, sym,
  ◌⊎◌, inl, inr, Bool, true, false, ◌&&◌, Option, none, some, List, [], ◌∷◌, map, arith,
}

abbrev segment_on_map : Segment → SegmentData
segment_on_map = map_segment quotient (some six_reserved)

abbrev empty_box : SearchBox
empty_box = record {
  query = [];
  suggestions = [];
  is_open = false;
  display_value = [];
  debounce = none;
  in_flight = [];
}

abbrev ten_places : ℕ
ten_places = 10

escape_html-IsInert_example :
    All IsInert (escape_html (some (codes "<b>A & B</b>")))
    × (unescape (length (codes "<b>A & B</b>")) (escape_html (some (codes "<b>A & B</b>")))
        ≡ (codes "<b>A & B</b>"))
escape_html-IsInert_example = escape_html-IsInert (codes "<b>A & B</b>")

segment_features-Drawn_example :
    Drawn rounded
      (map segment_on_map two_segments)
      (segment_features rounded (map segment_on_map two_segments) line_of_four)
    × (All HasLine (map segment_on_map two_segments)
          ⊎ (2 ≤ length (extract_coordinates line_of_four))
        → length (segment_features rounded (map segment_on_map two_segments) line_of_four)
          ≡ length (map segment_on_map two_segments))
segment_features-Drawn_example =
    segment_features-Drawn rounded (map segment_on_map two_segments) line_of_four

escape_html_run :
    escape_html (some (codes "<b>A & 'B'</b>")) ≡ codes "&lt;b&gt;A &amp; &#039;B&#039;&lt;/b&gt;"
unfolding escape_html
escape_html_run = refl

split_route_run :
    map (λ (g : Json Double). length (extract_coordinates g)) (split_route line_of_four 2)
    ≡ 2 ∷ 3 ∷ []
unfolding split_route extract_coordinates member lookup_field ◌===◌ has_type piece
split_route_run = refl

abbrev first_props : Props
first_props = record {
  geometry = some line_of_four;
  alternative_geometries = some (line_of_four ∷ []);
  segments = none;
}

abbrev last_props : Props
last_props = record {
  geometry = some line_of_four;
  alternative_geometries = none;
  segments = some (map segment_on_map two_segments);
}

-- The route with an alternative is drawn first, and then its segments.
sync_all_draws_example :
    IsDrawn store rounded last_props
      (sync store rounded last_props (sync_all store rounded (first_props ∷ []) empty_store))
sync_all_draws_example = sync_all_draws store rounded (first_props ∷ []) last_props empty_store (
  ((inl (refl, refl), λ l n. λ h. ground arith), (inl (refl, refl), λ l n. λ h. ground arith)),
  (none, (refl, refl, refl, refl, refl, refl), λ l n. (λ h. ground arith, λ h. ground arith)),
)

abbrev same_position : Option (Double × Double) → Option (Double × Double) → Bool
same_position (some p) (some q) = (p.0 === q.0) && (p.1 === q.1)
same_position none q = false
same_position (some p) none = false

-- Bounds that hold their positions as they stand.
abbrev has_position : List (Double × Double) → Json Double → Bool
has_position b q = any (λ p. same_position (some p) (to_coordinate_pair (some q))) b

abbrev extend_bounds : List (Double × Double) → Json Double → Option (List (Double × Double))
extend_bounds b q = elim (to_coordinate_pair (some q)) [ none ↦ none | some p ↦ some (p ∷ b) ]

extend_has :
    (b c : List (Double × Double)) (q : Json Double)
    → extend_bounds b q ≡ some c
    → has_position c q ≡ true
extend_has b c q e = elim (Option-cases (to_coordinate_pair (some q))) [
  | inl bad ↦ absurd (ground (arith, rw (extend_bounds, bad) at e))
  | inr (p, good) ↦
      let same : (p ∷ b) ≡ c = ground (arith, rw (extend_bounds, good) at e) in
      rw (sym same) (rw good (ground (arith, ===_refl p.0, ===_refl p.1)))
]

extend_keeps_position :
    (b c : List (Double × Double)) (q r : Json Double)
    → extend_bounds b q ≡ some c
    → has_position b r ≡ true
    → has_position c r ≡ true
extend_keeps_position b c q r e h = elim (Option-cases (to_coordinate_pair (some q))) [
  | inl bad ↦ absurd (ground (arith, rw (extend_bounds, bad) at e))
  | inr (p, good) ↦
      let same : (p ∷ b) ≡ c = ground (arith, rw (extend_bounds, good) at e) in
      rw (sym same) (ground (arith, h))
]

extend_total :
    (b : List (Double × Double)) (q : Json Double)
    → is_some (to_coordinate_pair (some q)) ≡ true
    → (c : List (Double × Double)) × (extend_bounds b q ≡ some c)
extend_total b q valid = elim (Option-cases (to_coordinate_pair (some q))) [
  | inl bad ↦ absurd (ground (arith, rw bad at valid))
  | inr (p, good) ↦ (p ∷ b, rw (extend_bounds, good) refl)
]

abbrev list_bounds : BoundsApi (List (Double × Double))
list_bounds = record {
  is_position = λ q. is_some (to_coordinate_pair (some q));
  has = has_position;
  bounds_at = extend_bounds [];
  extend = extend_bounds;
  at_position = extend_total [];
  extend_position = extend_total;
  at_contains = λ p b e. extend_has [] b p e;
  extend_contains = extend_has;
  extend_keeps = extend_keeps_position;
}

abbrev position : String → String → Json Double
position x y = arr (cons (num (codes x)) (cons (num (codes y)) nil))

abbrev two_lines : Shape
two_lines = line_strings ((position "0" "0" ∷ position "1" "0" ∷ []) ∷ (position "2" "5" ∷ []) ∷ [])

fit_bounds_covers_example :
    (b : List (Double × Double)) × (fit_bounds_to_geometry list_bounds (some (json_of two_lines))
      ≡ some b)
    × All (λ q. has_position b q ≡ true) (positions two_lines)
unfolding to_coordinate_pair
fit_bounds_covers_example =
    fit_bounds_covers list_bounds two_lines (omega arith) (refl, (refl, (refl, tt)))

abbrev first_map_props : MapProps
first_map_props = record { drawn = first_props; origin = some dublin; destination = none }

abbrev last_map_props : MapProps
last_map_props = record { drawn = last_props; origin = some dublin; destination = some howth }

abbrev unmounted : Mounted Store (List (Double × Double)) Unit
unmounted = record {
  view = none;
  markers = record { on_map = []; markers_ref = []; next_key = 0 };
  on_map_click = none;
  awaits_idle = none;
}

abbrev mounted_once : Mounted Store (List (Double × Double)) Unit
mounted_once =
    run_effect store list_bounds rounded (λ m. false) empty_store first_map_props
      (container_ref store list_bounds rounded (λ m. false) empty_store (some (codes "pk")) true
        unmounted)
