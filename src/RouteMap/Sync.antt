-- ===== src/RouteMap/Sync.antt =====
-- RouteMap.tsx: the lines and segments that the effect brings up to date.
use traffic_service.RouteMap.SegmentLayers.{sync_segment_layers}
use traffic_service.RouteMap.Features.{SegmentData}
use traffic_service.Base.Double.{Double}
use traffic_service.Base.Json.{Json, null}
use traffic_service.RouteMap.Layers.{MapApi, sync_alternative_lines, sync_route_line}
use traffic_service.Base.{◌==◌, if◌then◌else◌, ◌or_else◌, length, ℕ, Option, none, List, []}

-- The properties of the component that the effect draws.
pub record Props : Type 0 where
  pub geometry : Option (Json Double)
  pub alternative_geometries : Option (List (Json Double))
  pub segments : Option (List SegmentData)

-- `segments?.length ? null : geometry`
abbrev pub plain_route : Props → Option (Json Double)
plain_route props = if length (props.segments or_else []) == 0 then props.geometry else none

module _ {M : Type 0} (api : MapApi M) (rounded_product : Double → ℕ → ℕ) where
  unfoldable pub sync : Props → M → M
  sync props m =
      sync_segment_layers api rounded_product props.segments (props.geometry or_else null) (
        sync_route_line api (plain_route props)
          (sync_alternative_lines api props.alternative_geometries m))
