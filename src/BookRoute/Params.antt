-- ===== src/BookRoute/Params.antt =====
-- BookRoutePage.tsx: origin and destination in the address, and clicks on the map.
use traffic_service.Base.Double.{Double, is_nan, FloatText}
use traffic_service.Base.SearchParams.{SearchParams, get_param, remove_param, set_param}
use traffic_service.Api.Http.{Outcome, Fetch}
use traffic_service.Api.Routes.{RouteResult, find_routes}
use traffic_service.Base.{
  ◌==◌, if◌then◌else◌, ◌or_else◌, Text, codes, is_truthy, ℕ, Bool, ◌&&◌, not, Option, none, some,
  List, [], ◌++◌,
}

pub record Coord : Type 0 where
  pub lng : Double
  pub lat : Double

-- The names of the three parameters of a place.
pub record Place : Type 0 where
  pub lat_key : Text
  pub lng_key : Text
  pub name_key : Text

abbrev pub origin : Place
origin = record {
  lat_key = codes "originLat";
  lng_key = codes "originLng";
  name_key = codes "originName";
}

abbrev pub destination : Place
destination = record {
  lat_key = codes "destLat";
  lng_key = codes "destLng";
  name_key = codes "destName";
}

-- `handleOriginClear` and `handleDestClear`
unfoldable pub clear_place : Place → SearchParams → SearchParams
clear_place p params =
    remove_param p.name_key (remove_param p.lng_key (remove_param p.lat_key params))

-- `searchParams.get_param(key) ?? ""`
abbrev pub param : Text → SearchParams → Text
param key params = get_param key params or_else []

-- `isValid`
unfoldable pub is_valid : SearchParams → Bool
is_valid params =
    is_truthy (get_param origin.lat_key params)
    && (is_truthy (get_param origin.lng_key params)
        && (is_truthy (get_param destination.lat_key params)
            && is_truthy (get_param destination.lng_key params)))

module _ (ft : FloatText) where
  open ft use {parse_float, to_fixed}

  -- `handleOriginSelect` and `handleDestSelect`
  unfoldable pub select_place : Place → Text → Double → Double → SearchParams → SearchParams
  select_place p name lng lat params =
      set_param p.name_key name
        (set_param p.lng_key (to_fixed 6 lng) (set_param p.lat_key (to_fixed 6 lat) params))

  -- `originCoord` and `destCoord`
  unfoldable pub coord_of : Place → SearchParams → Option Coord
  coord_of p params =
      let lat = parse_float (param p.lat_key params) in
      let lng = parse_float (param p.lng_key params) in
      if not (is_nan lat) && not (is_nan lng) then some (record { lng = lng; lat = lat }) else none

  -- `${lat.toFixed(4)}, ${lng.toFixed(4)}`
  abbrev pub coord_label : Double → Double → Text
  coord_label lat lng = to_fixed 4 lat ++ (codes ", " ++ to_fixed 4 lng)

  -- `originName` and `destName`
  unfoldable pub place_name : Place → SearchParams → Text
  place_name p params =
      let lat = param p.lat_key params in
      let lng = param p.lng_key params in
      get_param p.name_key params
      or_else (if is_truthy (some lat) && is_truthy (some lng)
          then coord_label (parse_float lat) (parse_float lng)
          else [])

  -- The address and `clickCountRef`.
  pub record Clicks : Type 0 where
    pub params : SearchParams
    pub click_count : ℕ

  -- `handleMapClick`
  unfoldable pub map_click : Coord → Clicks → Clicks
  map_click c s =
      let label = coord_label c.lat c.lng in
      if s.click_count == 0
      then record {
        params = set_param (codes "originName") label (
            set_param (codes "originLng") (to_fixed 6 c.lng)
              (set_param (codes "originLat") (to_fixed 6 c.lat) s.params));
        click_count = 1;
      }
      else record {
        params = set_param (codes "destName") label (
            set_param (codes "destLng") (to_fixed 6 c.lng)
              (set_param (codes "destLat") (to_fixed 6 c.lat) s.params));
        click_count = 0;
      }

  -- The call that `mutate` makes: `findRoutes` at the four numbers of the address.
  unfoldable pub search_routes :
      Option Text → Fetch (List RouteResult) → SearchParams → Outcome (List RouteResult)
  search_routes token fetch params =
      find_routes token fetch (parse_float (param origin.lat_key params))
        (parse_float (param origin.lng_key params)) (parse_float (param destination.lat_key params))
        (parse_float (param destination.lng_key params))
