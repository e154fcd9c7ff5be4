-- ===== src/RouteMap/Mounted.antt =====
-- RouteMap.tsx, the component: the map that it creates and removes, the events of the mouse, and
-- the effect that waits for a map that is not loaded.
use traffic_service.BookRoute.Params.{Coord}
use traffic_service.RouteMap.Layers.{MapApi}
use traffic_service.RouteMap.Bounds.{BoundsApi, fit_bounds_to_geometry}
use traffic_service.RouteMap.Html.{Properties, segment_popup_html}
use traffic_service.RouteMap.Markers.{Markers, sync_markers}
use traffic_service.RouteMap.Sync.{Props, sync}
use traffic_service.RouteMap.SegmentLayers.{hitbox_layer}
use traffic_service.RouteMap.Features.{or_next}
use traffic_service.Base.Double.{Double}
use traffic_service.Base.{
  if◌then◌else◌, is_some, Text, codes, is_truthy, ℕ, Bool, ◌&&◌, not, Option, none, some, List, [],
  ◌∷◌,
}

-- The properties that the effect depends on.
pub record MapProps : Type 0 where
  pub drawn : Props
  pub origin : Option Coord
  pub destination : Option Coord

-- What is on the page: the map with the bounds that it was fitted to last, the cursor over it and
-- its popup with a place and a content.
pub record View (M : Type 0) (B : Type 0) : Type 0 where
  pub route_map : M
  pub fitted : Option B
  pub cursor : Text
  pub popup : Option (Coord × Text)

-- `mapRef` and `popupRef`, `markersRef` with the markers, `onMapClickRef`, and the properties that
-- a listener to "idle" is to draw.
pub record Mounted (M : Type 0) (B : Type 0) (H : Type 0) : Type 0 where
  pub view : Option (View M B)
  pub markers : Markers
  pub on_map_click : Option H
  pub awaits_idle : Option MapProps

abbrev pub without_popup : {M B : Type 0} → View M B → View M B
without_popup v = record v { cursor = []; popup = none }

module _ {M B : Type 0} (api : MapApi M) where
  -- The listener to "mousemove", with what the map finds under the mouse in the layer.
  unfoldable pub handle_mousemove : Coord → (M → List Properties) → View M B → View M B
  handle_mousemove place under v =
      if not (is_some (api.get_layer hitbox_layer.id v.route_map))
      then without_popup v
      else elim (under v.route_map) [
        | [] ↦ without_popup v
        | p ∷ ps ↦ record v { cursor = codes "pointer"; popup = some (place, segment_popup_html p) }
      ]

  -- The listener to "mouseleave"
  unfoldable pub handle_mouseleave : View M B → View M B
  handle_mouseleave v = without_popup v

module _ {M B H : Type 0} (api : MapApi M) (bounds_api : BoundsApi B)
    (rounded_product : Double → ℕ → ℕ) (loaded : M → Bool) (new_map : M) where
  -- `containerRef`, called with an element or with null; the token is that of the build. With the
  -- map its markers and its listeners go.
  unfoldable pub container_ref : Option Text → Bool → Mounted M B H → Mounted M B H
  container_ref token node s =
      let gone : Mounted M B H = record s {
        view = none;
        markers = record s.markers { on_map = [] };
        awaits_idle = none;
      } in
      if node && is_truthy token
      then record gone {
        view = some (record { route_map = new_map; fitted = none; cursor = []; popup = none });
      }
      else gone

  -- The effect for `onMapClick`
  unfoldable pub keep_handler : Option H → Mounted M B H → Mounted M B H
  keep_handler handler s = record s { on_map_click = handler }

  -- The listener to "click": which handler is called, and with which place.
  unfoldable pub handle_click : Coord → Mounted M B H → Option (H × Coord)
  handle_click place s = elim s.on_map_click [ none ↦ none | some handler ↦ some (handler, place) ]

  -- `sync` of the effect
  unfoldable pub sync_view : MapProps → View M B → Mounted M B H → Mounted M B H
  unfolding sync sync_markers fit_bounds_to_geometry
  sync_view props v s = record s {
    view = some (record v {
      route_map = sync api rounded_product props.drawn v.route_map;
      fitted = or_next (fit_bounds_to_geometry bounds_api props.drawn.geometry) v.fitted;
    });
    markers = sync_markers props.origin props.destination s.markers;
  }

  -- The effect for new properties, after what the effect before has returned was called.
  unfoldable pub run_effect : MapProps → Mounted M B H → Mounted M B H
  run_effect props s = elim s.view [
    | none ↦ record s { awaits_idle = none }
    | some v ↦
        if loaded v.route_map
        then sync_view props v (record s { awaits_idle = none })
        else record s { awaits_idle = some props }
  ]

  -- The event "idle"
  unfoldable pub handle_idle : Mounted M B H → Mounted M B H
  handle_idle s = elim s.awaits_idle [
    | none ↦ s
    | some props ↦ elim s.view [
      | none ↦ s
      | some v ↦ sync_view props v (record s { awaits_idle = none })
    ]
  ]
