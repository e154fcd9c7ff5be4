-- ===== src/RouteMap/LastDrawn.antt =====
-- RouteMap.tsx: what stands on the map after the last properties, in the words of the properties.
use traffic_service.RouteMap.Drawn.{Drawn, segment_features-Drawn}
use traffic_service.RouteMap.Layers.{
  SourceData, plain_lines, one_line, segment_lines, boundary_points_data, MapApi, alternatives_data,
  route_data,
}
use traffic_service.RouteMap.UpToDate.{IsTidy, sync_all, sync_all-last}
use traffic_service.RouteMap.Sync.{Props, sync}
use traffic_service.RouteMap.Segmented.{segment_data}
use traffic_service.RouteMap.Features.{SegmentData, Feature, segment_features, segment_boundaries}
use traffic_service.RouteMap.SegmentsGone.{Holds}
use traffic_service.Base.Double.{Double}
use traffic_service.Base.Json.{Json, null, obj, Fields}
use traffic_service.Base.{
  ◌==◌, if◌then◌else◌, ◌or_else◌, is_some, length, Text, codes, ℕ, ◌≡◌, false, Option, none, some,
  List, [], ◌∷◌, arith,
}

-- The alternatives are all drawn, as lines in their order, and nothing where there is none.
abbrev pub AlternativesOn : List (Json Double) → Option SourceData → Option Text → Type 0
AlternativesOn [] source layer = (source ≡ none) × (layer ≡ none)
AlternativesOn (g ∷ gs) source layer =
    (source ≡ some (plain_lines (g ∷ gs))) × (layer ≡ some (codes "alt-routes"))

-- The whole route is drawn where it is an object and there is no segment; with segments it is
-- hidden.
abbrev pub RouteOn :
    List SegmentData → Option (Json Double) → Option SourceData → Option Text → Type 0
RouteOn (s ∷ ss) geometry source layer = (source ≡ none) × (layer ≡ none)
RouteOn [] none source layer = (source ≡ none) × (layer ≡ none)
RouteOn [] (some geometry) source layer =
    (fs : Fields Double)
    → geometry ≡ obj fs
    → (source ≡ some (one_line geometry)) × (layer ≡ some (codes "route-line"))

alternatives_on :
    (gs : Option (List (Json Double))) (source : Option SourceData) (layer : Option Text)
    → source ≡ alternatives_data gs
    → layer ≡ (if is_some (alternatives_data gs) then some (codes "alt-routes") else none)
    → AlternativesOn (gs or_else []) source layer
alternatives_on none source layer s l = (s, l)
alternatives_on (some []) source layer s l = (s, l)
alternatives_on (some (g ∷ gs)) source layer s l = (s, l)

route_on :
    (segments : List SegmentData) (geometry : Option (Json Double)) (source : Option SourceData)
    (layer : Option Text)
    → let drawn_alone = if length segments == 0 then geometry else none in
      source ≡ route_data drawn_alone
      → layer ≡ (if is_some (route_data drawn_alone) then some (codes "route-line") else none)
      → RouteOn segments geometry source layer
route_on (s ∷ ss) geometry source layer e l =
    let some_there : (length (s ∷ ss) == 0) ≡ false = ground arith in
    (rw some_there at e, rw some_there at l)
route_on [] none source layer e l = (e, l)
route_on [] (some geometry) source layer e l = λ fs same. rw same (rw same at e, rw same at l)

module _ {M : Type 0} (api : MapApi M) (rounded_product : Double → ℕ → ℕ) where
  open api use {get_source, get_layer}

  -- Without segments none of their sources and layers is there; with segments their source has the
  -- features drawn for them, under three layers, and another source the points between them.
  abbrev pub SegmentsOn : List SegmentData → M → Type 0
  SegmentsOn [] m =
      (get_source (codes "route-segments") m ≡ none)
      × (get_source (codes "route-segment-boundaries") m ≡ none)
      × (get_layer (codes "route-segment-outline") m ≡ none)
      × (get_layer (codes "route-segment-lines") m ≡ none)
      × (get_layer (codes "route-segment-hitbox") m ≡ none)
      × (get_layer (codes "route-segment-boundaries") m ≡ none)
  SegmentsOn (s ∷ ss) m =
      (features : List Feature) × (points : List (Double × Double)) × Drawn rounded_product (s ∷ ss)
        features
      × (get_source (codes "route-segments") m ≡ some (segment_lines features))
      × (get_source (codes "route-segment-boundaries") m ≡ some (boundary_points_data points))
      × (get_layer (codes "route-segment-outline") m ≡ some (codes "route-segments"))
      × (get_layer (codes "route-segment-lines") m ≡ some (codes "route-segments"))
      × (get_layer (codes "route-segment-hitbox") m ≡ some (codes "route-segments"))
      × (get_layer (codes "route-segment-boundaries") m ≡ some (codes "route-segment-boundaries"))

  segments_on :
      (segments : List SegmentData) (route : Json Double) (m : M)
      → Holds api (segment_data api rounded_product segments route) m
      → SegmentsOn segments m
  segments_on [] route m h = h
  segments_on (s ∷ ss) route m h = (
    segment_features rounded_product (s ∷ ss) route,
    segment_boundaries (segment_features rounded_product (s ∷ ss) route),
    (segment_features-Drawn rounded_product (s ∷ ss) route).0,
    h.0,
    h.1,
    h.2,
    h.3,
    h.4,
    h.5,
  )

  abbrev pub IsDrawn : Props → M → Type 0
  IsDrawn props m =
      AlternativesOn (props.alternative_geometries or_else []) (get_source (codes "alt-routes") m)
        (get_layer (codes "alt-routes-layer") m)
      × RouteOn (props.segments or_else []) props.geometry (get_source (codes "route-line") m)
          (get_layer (codes "route-line-layer") m)
      × SegmentsOn (props.segments or_else []) m

  -- However the properties changed before, the map then shows of the last ones: all alternative
  -- routes in their order; the whole route where it is an object and there are no segments; and with
  -- segments not the whole route but the features drawn for them, and points. Each part has its
  -- layers, and there is no source and no layer of a part with nothing to show.
  pub sync_all_draws :
      (ps : List Props) (props : Props) (m : M)
      → IsTidy api rounded_product m
      → IsDrawn props (sync api rounded_product props (sync_all api rounded_product ps m))
  sync_all_draws ps props m h =
      let (alt_source, alt_layer, route_source, route_layer, holds) =
        sync_all-last api rounded_product ps props m h in
      let after = sync api rounded_product props (sync_all api rounded_product ps m) in
      (
        alternatives_on props.alternative_geometries _ _ alt_source alt_layer,
        route_on (props.segments or_else []) props.geometry _ _ route_source route_layer,
        segments_on (props.segments or_else []) (props.geometry or_else null) after holds,
      )
