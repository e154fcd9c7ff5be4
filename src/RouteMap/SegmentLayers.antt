-- ===== src/RouteMap/SegmentLayers.antt =====
-- RouteMap.tsx, `syncSegmentLayers`: two sources, three layers of lines over the first and one of
-- circles over the second.
use traffic_service.Base.Double.{Double}
use traffic_service.Base.Json.{Json}
use traffic_service.RouteMap.Layers.{
  MapApi, LayerSpec, SourceData, drop_layer, drop_source, segment_lines, boundary_points_data,
  layer_of, set_to,
}
use traffic_service.RouteMap.Features.{SegmentData, segment_features, segment_boundaries}
use traffic_service.Base.{if◌then◌else◌, is_some, Text, codes, ℕ, Option, none, some, List, [], ◌∷◌}

abbrev pub segment_source : Text
segment_source = codes "route-segments"

abbrev pub boundary_source : Text
boundary_source = codes "route-segment-boundaries"

abbrev pub outline_layer : LayerSpec
outline_layer = layer_of "route-segment-outline" "line" "route-segments" (
    set_to "line-cap" "round"
    ∷ set_to "line-join" "round"
    ∷ set_to "line-color" "#ffffff"
    ∷ set_to "line-width" "11"
    ∷ set_to "line-opacity" "0.85"
    ∷ [])

abbrev pub segment_layer : LayerSpec
segment_layer = layer_of "route-segment-lines" "line" "route-segments" (
    set_to "line-cap" "round"
    ∷ set_to "line-join" "round"
    ∷ set_to "line-color" "get color"
    ∷ set_to "line-width" "7"
    ∷ set_to "line-opacity" "0.9"
    ∷ [])

abbrev pub hitbox_layer : LayerSpec
hitbox_layer =
    layer_of "route-segment-hitbox" "line" "route-segments"
      (set_to "line-color" "#000000" ∷ set_to "line-width" "18" ∷ set_to "line-opacity" "0" ∷ [])

abbrev pub boundary_layer : LayerSpec
boundary_layer = layer_of "route-segment-boundaries" "circle" "route-segment-boundaries" (
    set_to "circle-radius" "3"
    ∷ set_to "circle-color" "#111827"
    ∷ set_to "circle-opacity" "0.8"
    ∷ set_to "circle-stroke-color" "#ffffff"
    ∷ set_to "circle-stroke-width" "1.5"
    ∷ [])

module _ {M : Type 0} (api : MapApi M) where
  open api use {get_source, add_source, set_data, add_layer}

  abbrev pub remove_segments : M → M
  remove_segments m = drop_source api segment_source (
      drop_source api boundary_source (
        drop_layer api outline_layer.id (
          drop_layer api segment_layer.id
            (drop_layer api hitbox_layer.id (drop_layer api boundary_layer.id m)))))

  -- `(map.getSource(id) as … | undefined)?.setData(data)`
  abbrev pub set_if_there : Text → SourceData → M → M
  set_if_there id d m = if is_some (get_source id m) then set_data id d m else m

  abbrev pub draw_segments : SourceData → SourceData → M → M
  draw_segments lines ends_between m =
      if is_some (get_source segment_source m)
      then set_if_there boundary_source ends_between (set_data segment_source lines m)
      else add_layer boundary_layer (
          add_layer hitbox_layer (
            add_layer segment_layer (
              add_layer outline_layer
                (add_source boundary_source ends_between (add_source segment_source lines m)))))

module _ {M : Type 0} (api : MapApi M) (rounded_product : Double → ℕ → ℕ) where
  unfoldable pub sync_segment_layers : Option (List SegmentData) → Json Double → M → M
  sync_segment_layers none route m = remove_segments api m
  sync_segment_layers (some []) route m = remove_segments api m
  sync_segment_layers (some (s ∷ ss)) route m =
      let features = segment_features rounded_product (s ∷ ss) route in
      draw_segments api (segment_lines features)
        (boundary_points_data (segment_boundaries features)) m
