-- ===== src/RouteMap/UpToDate.antt =====
-- RouteMap.tsx: whatever the map showed before, the effect leaves just what its properties say.
use traffic_service.RouteMap.Foreign.{
  alternatives-IsForeign, route-IsForeign, lines-IsSegmentMap, segments-other, segments-IsAttached,
}
use traffic_service.RouteMap.Sync.{Props, plain_route, sync}
use traffic_service.RouteMap.Segmented.{segment_data, sync_segments-Holds}
use traffic_service.Base.Double.{Double}
use traffic_service.Base.Json.{null}
use traffic_service.RouteMap.SegmentsDrawn.{IsSegmentMap, KeepsOthers-IsSole}
use traffic_service.RouteMap.Synced.{
  sync_lines-Shows, sync_lines-IsAttached, sync_lines-other, IsMap, apart, apart_back,
}
use traffic_service.RouteMap.SegmentsGone.{Holds}
use traffic_service.RouteMap.Layers.{
  MapApi, alternatives_layer, route_layer, sync_lines, alternatives_data, route_data,
  sync_alternative_lines, sync_route_line,
}
use traffic_service.Base.{
  if◌then◌else◌, ◌or_else◌, is_some, codes, ℕ, ◌≡◌, ◌∙◌, none, some, List, [], ◌∷◌,
}

module _ {M : Type 0} (api : MapApi M) (rounded_product : Double → ℕ → ℕ) where
  open api use {get_source, get_layer}

  -- The three parts are as a drawing left them; so they are before the first one too.
  abbrev pub IsTidy : M → Type 0
  IsTidy m = IsMap api m × IsSegmentMap api m

  abbrev pub ShowsProps : Props → M → Type 0
  ShowsProps props m =
      let alternatives = alternatives_data props.alternative_geometries in
      let route = route_data (plain_route props) in
      (get_source (codes "alt-routes") m ≡ alternatives)
      × (get_layer (codes "alt-routes-layer") m
          ≡ (if is_some alternatives then some (codes "alt-routes") else none))
      × (get_source (codes "route-line") m ≡ route)
      × (get_layer (codes "route-line-layer") m
          ≡ (if is_some route then some (codes "route-line") else none))
      × Holds api
          (segment_data api rounded_product (props.segments or_else [])
            (props.geometry or_else null))
          m

  pub sync-IsTidy :
      (props : Props) (m : M)
      → IsTidy m
      → ShowsProps props (sync api rounded_product props m)
        × IsTidy (sync api rounded_product props m)
  unfolding sync sync_alternative_lines sync_route_line
  sync-IsTidy props m ((ha, hr), hs) =
      let segments = props.segments in
      let route = props.geometry or_else null in
      let alternatives = alternatives_data props.alternative_geometries in
      let first = sync_lines api alternatives_layer alternatives m in
      let second = sync_lines api route_layer (route_data (plain_route props)) first in
      let shows_a = sync_lines-Shows api alternatives_layer alternatives m ha in
      let r1 =
        sync_lines-other api alternatives_layer route_layer alternatives m (apart api) ha hr in
      let a1 = sync_lines-IsAttached api alternatives_layer alternatives m ha in
      let s1 =
        lines-IsSegmentMap api alternatives_layer alternatives m alternatives-IsForeign ha hs in
      let shows_r = sync_lines-Shows api route_layer (route_data (plain_route props)) first r1 in
      let a2 =
        sync_lines-other api route_layer alternatives_layer (route_data (plain_route props)) first
          (apart_back api) r1 a1 in
      let r2 = sync_lines-IsAttached api route_layer (route_data (plain_route props)) first r1 in
      let s2 =
        lines-IsSegmentMap api route_layer (route_data (plain_route props)) first route-IsForeign r1
          s1 in
      let (holds, keeps) = sync_segments-Holds api rounded_product segments route second s2 in
      (
        (
          segments-other api rounded_product segments route (codes "alt-routes") second
                alternatives-IsForeign.2 alternatives-IsForeign.3
              ∙ shows_r.2 (codes "alt-routes") (apart_back api).0
              ∙ shows_a.0,
          keeps (codes "alt-routes-layer") alternatives-IsForeign.8
              ∙ shows_r.3 (codes "alt-routes-layer") (apart_back api).1
              ∙ shows_a.1,
          segments-other api rounded_product segments route (codes "route-line") second
                route-IsForeign.2 route-IsForeign.3
              ∙ shows_r.0,
          keeps (codes "route-line-layer") route-IsForeign.8 ∙ shows_r.1,
          holds,
        ),
        (
          (
            segments-IsAttached api rounded_product segments route alternatives_layer second
                alternatives-IsForeign s2 a2,
            segments-IsAttached api rounded_product segments route route_layer second
                route-IsForeign s2 r2,
          ),
          (
            segment_data api rounded_product (segments or_else []) route,
            holds,
            KeepsOthers-IsSole api second _ keeps s2.2,
          ),
        ),
      )

  abbrev pub sync_all : List Props → M → M
  sync_all [] m = m
  sync_all (props ∷ rest) m = sync_all rest (sync api rounded_product props m)

  sync_all-IsTidy : (ps : List Props) (m : M) → IsTidy m → IsTidy (sync_all ps m)
  sync_all-IsTidy [] m h = h
  sync_all-IsTidy (props ∷ rest) m h = sync_all-IsTidy rest _ (sync-IsTidy props m h).1

  pub sync_all-last :
      (ps : List Props) (props : Props) (m : M)
      → IsTidy m
      → ShowsProps props (sync api rounded_product props (sync_all ps m))
  sync_all-last ps props m h = (sync-IsTidy props (sync_all ps m) (sync_all-IsTidy ps m h)).0
