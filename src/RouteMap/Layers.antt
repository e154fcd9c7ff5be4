-- ===== src/RouteMap/Layers.antt =====
-- RouteMap.tsx: the sources and layers of the map. The map library is an interface: what its
-- operations do to the data of sources and to the layers that draw them.
use traffic_service.Api.Http.{property}
use traffic_service.RouteMap.Features.{Feature}
use traffic_service.RouteMap.Geometry.{is_true}
use traffic_service.Base.Double.{Double}
use traffic_service.Base.Json.{Json}
use traffic_service.Base.{
  if◌then◌else◌, is_some, Text, codes, ◌===◌, String, ◌≡◌, ◌≢◌, false, Option, none, some, List, [],
  ◌∷◌,
}

-- The data of a source: lines with no properties, one such line, segments, or points.
pub data SourceData : Type 0 where
  plain_lines : List (Json Double) → SourceData
  one_line : Json Double → SourceData
  segment_lines : List Feature → SourceData
  boundary_points_data : List (Double × Double) → SourceData

pub record LayerSpec : Type 0 where
  pub id : Text
  pub kind : Text
  pub source : Text
  pub paint : List (Text × Text)

-- The map: the data of a source, and the source of a layer. An operation touches only what it
-- names. A source is added once, replaced once it is there, and removed once no layer draws it;
-- a layer is added once its source is there.
pub record MapApi (M : Type 0) : Type 0 where
  pub get_source : Text → M → Option SourceData
  pub get_layer : Text → M → Option Text
  pub add_source : Text → SourceData → M → M
  pub set_data : Text → SourceData → M → M
  pub remove_source : Text → M → M
  pub add_layer : LayerSpec → M → M
  pub remove_layer : Text → M → M
  pub source_added :
      (i : Text) (d : SourceData) (m : M)
      → get_source i m ≡ none
      → get_source i (add_source i d m) ≡ some d
  pub source_set :
      (i : Text) (d e : SourceData) (m : M)
      → get_source i m ≡ some e
      → get_source i (set_data i d m) ≡ some d
  pub source_removed :
      (i : Text) (m : M)
      → ((l : Text) → get_layer l m ≢ some i)
      → get_source i (remove_source i m) ≡ none
  pub layer_added :
      (spec : LayerSpec) (d : SourceData) (m : M)
      → get_layer spec.id m ≡ none
      → get_source spec.source m ≡ some d
      → get_layer spec.id (add_layer spec m) ≡ some spec.source
  pub layer_removed : (i : Text) (m : M) → get_layer i (remove_layer i m) ≡ none
  pub sources_apart :
      (i j : Text) (d : SourceData) (m : M)
      → (i === j) ≡ false
      → (get_source j (add_source i d m) ≡ get_source j m)
        × (get_source j (set_data i d m) ≡ get_source j m)
        × (get_source j (remove_source i m) ≡ get_source j m)
  pub layers_apart :
      (spec : LayerSpec) (i j : Text) (m : M)
      → ((spec.id === j) ≡ false → get_layer j (add_layer spec m) ≡ get_layer j m)
        × ((i === j) ≡ false → get_layer j (remove_layer i m) ≡ get_layer j m)
  pub layers_keep_sources :
      (spec : LayerSpec) (i j : Text) (m : M)
      → (get_source j (add_layer spec m) ≡ get_source j m)
        × (get_source j (remove_layer i m) ≡ get_source j m)
  pub sources_keep_layers :
      (i j : Text) (d : SourceData) (m : M)
      → (get_layer j (add_source i d m) ≡ get_layer j m)
        × (get_layer j (set_data i d m) ≡ get_layer j m)
        × (get_layer j (remove_source i m) ≡ get_layer j m)

abbrev pub layer_of : String → String → String → List (Text × Text) → LayerSpec
layer_of id kind source paint = record {
  id = codes id;
  kind = codes kind;
  source = codes source;
  paint = paint;
}

abbrev pub set_to : String → String → Text × Text
set_to property value = (codes property, codes value)

abbrev pub alternatives_layer : LayerSpec
alternatives_layer = layer_of "alt-routes-layer" "line" "alt-routes" (
    set_to "line-color" "#9ca3af"
    ∷ set_to "line-width" "3"
    ∷ set_to "line-opacity" "0.5"
    ∷ set_to "line-dasharray" "2,2"
    ∷ [])

abbrev pub route_layer : LayerSpec
route_layer =
    layer_of "route-line-layer" "line" "route-line"
      (set_to "line-color" "#3b82f6" ∷ set_to "line-width" "4" ∷ set_to "line-opacity" "0.8" ∷ [])

-- The data of the alternative routes, with `none` for nothing to draw.
abbrev pub alternatives_data : Option (List (Json Double)) → Option SourceData
alternatives_data none = none
alternatives_data (some []) = none
alternatives_data (some (g ∷ gs)) = some (plain_lines (g ∷ gs))

abbrev pub route_data : Option (Json Double) → Option SourceData
route_data none = none
route_data (some g) = if is_true (some g) then some (one_line g) else none

module _ {M : Type 0} (api : MapApi M) where
  open api use {get_source, get_layer, add_source, set_data, remove_source, add_layer, remove_layer}

  -- `if (map.getLayer(id)) map.removeLayer(id)`, and the same for a source.
  abbrev pub drop_layer : Text → M → M
  drop_layer id m = if is_some (get_layer id m) then remove_layer id m else m

  abbrev pub drop_source : Text → M → M
  drop_source id m = if is_some (get_source id m) then remove_source id m else m

  -- What `syncAlternativeLines` and `syncRouteLine` do alike with their data.
  unfoldable pub sync_lines : LayerSpec → Option SourceData → M → M
  sync_lines spec none m = drop_source spec.source (drop_layer spec.id m)
  sync_lines spec (some d) m =
      if is_some (get_source spec.source m)
      then set_data spec.source d m
      else add_layer spec (add_source spec.source d m)

  unfoldable pub sync_alternative_lines : Option (List (Json Double)) → M → M
  unfolding sync_lines
  sync_alternative_lines geometries m =
      sync_lines alternatives_layer (alternatives_data geometries) m

  unfoldable pub sync_route_line : Option (Json Double) → M → M
  unfolding sync_lines
  sync_route_line shape m = sync_lines route_layer (route_data shape) m
