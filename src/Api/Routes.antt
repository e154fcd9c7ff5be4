-- ===== src/Api/Routes.antt =====
-- api/routes.ts
use traffic_service.Api.Http.{
  get, post, Request, Outcome, resolved, Fetch, ◌>>=◌, handle_response, content_type, auth_headers,
  assign,
}
use traffic_service.Base.Double.{Double}
use traffic_service.Base.Decimal.{decimal}
use traffic_service.Base.Json.{Json, num, str, arr, obj, end, field, items}
use traffic_service.Api.Auth.{text_field}
use traffic_service.Base.{
  ◌or_else◌, Text, codes, ℕ, Bool, Option, none, some, List, [], ◌∷◌, ◌++◌, map,
}

pub record RouteResult : Type 0 where
  pub route_id : Text
  pub origin : Text
  pub destination : Text
  pub segment_ids : Option (List Text)
  pub geometry : Json Double
  pub estimated_duration : Option ℕ
  pub created_at : Text

pub record Segment : Type 0 where
  pub segment_id : Text
  pub osm_way_id : Option Text
  pub name : Text
  pub region : Text
  pub capacity : Option ℕ
  pub coordinates : Json Double

unfoldable pub find_request : Option Text → Double → Double → Double → Double → Request
find_request token origin_lat origin_lng dest_lat dest_lng = record {
  method = get;
  url = codes "/api/routes/routes";
  query =
      (codes "origin_lat", origin_lat)
      ∷ (codes "origin_lng", origin_lng)
      ∷ (codes "dest_lat", dest_lat)
      ∷ (codes "dest_lng", dest_lng)
      ∷ [];
  headers = auth_headers token;
  body = none;
}

unfoldable pub find_routes :
    Option Text
    → Fetch (List RouteResult)
    → Double
    → Double
    → Double
    → Double
    → Outcome (List RouteResult)
unfolding find_request handle_response
find_routes token fetch origin_lat origin_lng dest_lat dest_lng = do
  response ← fetch (find_request token origin_lat origin_lng dest_lat dest_lng)
  handle_response response (codes "Failed to find route")

unfoldable pub segments_request : Option Text → Text → Request
segments_request token route_id = record {
  method = get;
  url = codes "/api/routes/routes/" ++ (route_id ++ codes "/segments");
  query = [];
  headers = auth_headers token;
  body = none;
}

unfoldable pub get_route_segments :
    Option Text → Fetch (List Segment) → Text → Outcome (List Segment)
unfolding segments_request handle_response
get_route_segments token fetch route_id = do
  response ← fetch (segments_request token route_id)
  handle_response response (codes "Failed to fetch route segments")

unfoldable pub route_request : Option Text → Text → Request
route_request token route_id = record {
  method = get;
  url = codes "/api/routes/routes/" ++ route_id;
  query = [];
  headers = auth_headers token;
  body = none;
}

unfoldable pub fetch_route : Option Text → Fetch RouteResult → Text → Outcome RouteResult
unfolding route_request handle_response
fetch_route token fetch route_id = do
  response ← fetch (route_request token route_id)
  handle_response response (codes "Failed to fetch route")

pub record SegmentUtilization : Type 0 where
  pub segment_id : Text
  pub active_reservations : ℕ

pub record SegmentWindow : Type 0 where
  pub segment_id : Text
  pub window_start : Text
  pub window_end : Text

-- `{ utilization: SegmentUtilization[] }`
pub record UtilizationResponse : Type 0 where
  pub utilization : List SegmentUtilization

abbrev window_json : SegmentWindow → Json Text
window_json w = obj (
    text_field "segment_id" w.segment_id
      (text_field "window_start" w.window_start (text_field "window_end" w.window_end end)))

unfoldable pub utilization_request : Option Text → List SegmentWindow → Request
unfolding assign
utilization_request token segments = record {
  method = post;
  url = codes "/api/conflict-detection/utilization";
  query = [];
  headers = assign content_type.0 content_type.1 (auth_headers token);
  body = some (obj (field (codes "segments") (arr (items (map window_json segments))) end));
}

unfoldable pub get_segment_utilization :
    Option Text → Fetch UtilizationResponse → List SegmentWindow → Outcome (List SegmentUtilization)
unfolding utilization_request handle_response
get_segment_utilization token fetch segments = do
  response ← fetch (utilization_request token segments)
  answer ← handle_response response (codes "Failed to fetch utilization")
  resolved answer.utilization

pub record RouteAvailability : Type 0 where
  pub route_id : Text
  pub available : Bool

-- `{ routes: RouteAvailability[] }`
pub record AvailabilityResponse : Type 0 where
  pub routes : List RouteAvailability

abbrev pub route_json : RouteResult → Json Text
route_json r = obj (
    text_field "route_id" r.route_id (
      field (codes "segment_ids") (arr (items (map str (r.segment_ids or_else []))))
        (field (codes "estimated_duration") (num (decimal (r.estimated_duration or_else 0))) end)))

unfoldable pub availability_request : Option Text → List RouteResult → Text → Request
unfolding assign
availability_request token routes departure_time = record {
  method = post;
  url = codes "/api/conflict-detection/availability";
  query = [];
  headers = assign content_type.0 content_type.1 (auth_headers token);
  body = some (
      obj (
        field (codes "routes") (arr (items (map route_json routes)))
          (text_field "departure_time" departure_time end)));
}

unfoldable pub check_routes_availability :
    Option Text
    → Fetch AvailabilityResponse
    → List RouteResult
    → Text
    → Outcome (List RouteAvailability)
unfolding availability_request handle_response
check_routes_availability token fetch routes departure_time = do
  response ← fetch (availability_request token routes departure_time)
  answer ← handle_response response (codes "Failed to check route availability")
  resolved answer.routes
