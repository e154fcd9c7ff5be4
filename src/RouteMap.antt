-- ===== src/RouteMap.antt =====
-- services/bff/traffic-frontend/src/components/RouteMap.tsx: what the map draws for a route and
-- its segments. Geometries are the JSON values that the services send. Mapbox is an argument.
pub mod Geometry
pub mod Features
pub mod Html
pub mod Layers
pub mod Synced
pub mod SegmentLayers
pub mod MapSteps
pub mod SegmentsGone
pub mod SegmentsDrawn
pub mod Segmented
pub mod Sync
pub mod Foreign
pub mod UpToDate
pub mod LastDrawn
pub mod Colors
pub mod Pieces
pub mod Drawn
pub mod Escaped
pub mod Markers
pub mod Bounds
pub mod Mounted
pub mod Following
