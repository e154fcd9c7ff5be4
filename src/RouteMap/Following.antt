-- ===== src/RouteMap/Following.antt =====
-- RouteMap.tsx: the map follows the properties of the component.
use mathlib.Core.Option
use traffic_service.BookRoute.Params.{Coord}
use traffic_service.RouteMap.Layers.{MapApi}
use traffic_service.RouteMap.Bounds.{BoundsApi}
use traffic_service.RouteMap.UpToDate.{IsTidy, ShowsProps}
use traffic_service.RouteMap.Html.{Properties}
use traffic_service.RouteMap.Mounted.{
  MapProps, View, Mounted, container_ref, keep_handler, handle_mousemove, handle_mouseleave,
  run_effect, handle_idle,
}
use traffic_service.RouteMap.Markers.{pins, pin, IsHeld}
use traffic_service.Base.Double.{Double}
use traffic_service.Base.{
  Text, codes, is_truthy, ℕ, ◌≡◌, ◌⊎◌, Bool, true, Option, none, some, List, ◌++◌,
}

module _ {M B H : Type 0} (api : MapApi M) (bounds_api : BoundsApi B)
    (rounded_product : Double → ℕ → ℕ) (loaded : M → Bool) (new_map : M) where
  -- The component's life from its mounting with a token on, with the properties that it has at last:
  -- new properties, the map's event, another handler, and the mouse.
  pub data Follows : MapProps → Mounted M B H → Type 0 where
    mounts :
        (token : Text) (props : MapProps) (s : Mounted M B H)
        → is_truthy (some token) ≡ true
        → Follows props (
            run_effect api bounds_api rounded_product loaded new_map props
              (container_ref api bounds_api rounded_product loaded new_map (some token) true s))
    has_props :
        {old : MapProps} {s : Mounted M B H} (props : MapProps)
        → Follows old s
        → Follows props (run_effect api bounds_api rounded_product loaded new_map props s)
    goes_idle :
        {props : MapProps} {s : Mounted M B H}
        → Follows props s
        → Follows props (handle_idle api bounds_api rounded_product loaded new_map s)
    has_handler :
        {props : MapProps} {s : Mounted M B H} (handler : Option H)
        → Follows props s
        → Follows props (keep_handler api bounds_api rounded_product loaded new_map handler s)
    mouse_moves :
        {props : MapProps} {s : Mounted M B H} (place : Coord) (under : M → List Properties)
        → Follows props s
        → Follows props (record s { view = Option.map (handle_mousemove api place under) s.view })
    mouse_leaves :
        {props : MapProps} {s : Mounted M B H}
        → Follows props s
        → Follows props (record s { view = Option.map (handle_mouseleave api) s.view })

  -- The map shows these properties with their markers and awaits nothing, or awaits the event that
  -- will draw them.
  abbrev pub IsFollowing : MapProps → Mounted M B H → Type 0
  IsFollowing props s =
      (v : View M B) × (s.view ≡ some v)
      × IsTidy api rounded_product v.route_map
      × IsHeld s.markers
      × ((s.awaits_idle ≡ some props)
          ⊎ ((s.awaits_idle ≡ none)
              × ShowsProps api rounded_product props.drawn v.route_map
              × (pins s.markers.on_map
                  ≡ pin (codes "#22c55e") props.origin ++ pin (codes "#ef4444") props.destination)))
