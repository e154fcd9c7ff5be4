-- ===== src/RouteMap/Segmented.antt =====
-- RouteMap.tsx, `syncSegmentLayers`: what the map shows afterwards.
use traffic_service.RouteMap.SegmentsDrawn.{KeepsOthers, IsSegmentMap, drawn_Holds}
use traffic_service.RouteMap.SegmentsGone.{Holds, removed_Holds}
use traffic_service.RouteMap.Features.{SegmentData, segment_features, segment_boundaries}
use traffic_service.Base.Double.{Double}
use traffic_service.Base.Json.{Json}
use traffic_service.RouteMap.SegmentLayers.{sync_segment_layers}
use traffic_service.RouteMap.Layers.{MapApi, SourceData, segment_lines, boundary_points_data}
use traffic_service.Base.{◌or_else◌, ℕ, refl, ◌∙◌, Option, none, some, List, [], ◌∷◌}

module _ {M : Type 0} (api : MapApi M) (rounded_product : Double → ℕ → ℕ) where
  -- The data that a rendering draws of its segments.
  abbrev pub segment_data : List SegmentData → Json Double → Option (SourceData × SourceData)
  segment_data [] route = none
  segment_data (s ∷ ss) route =
      let features = segment_features rounded_product (s ∷ ss) route in
      some (segment_lines features, boundary_points_data (segment_boundaries features))

  pub sync_segments-Holds :
      (segments : Option (List SegmentData)) (route : Json Double) (m : M)
      → IsSegmentMap api m
      → let after = sync_segment_layers api rounded_product segments route m in
        Holds api (segment_data (segments or_else []) route) after × KeepsOthers api m after
  unfolding sync_segment_layers
  sync_segments-Holds none route m h =
      let (holds, layers) = removed_Holds api m h.2 in
      (holds, λ l foreign. layers l ∙ rw foreign refl)
  sync_segments-Holds (some []) route m h =
      let (holds, layers) = removed_Holds api m h.2 in
      (holds, λ l foreign. layers l ∙ rw foreign refl)
  sync_segments-Holds (some (s ∷ ss)) route m h = drawn_Holds api _ _ m h
