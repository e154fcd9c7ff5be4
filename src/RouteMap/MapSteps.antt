-- ===== src/RouteMap/MapSteps.antt =====
-- RouteMap.tsx: what single changes of the map do to each source and to each layer.
use traffic_service.RouteMap.SegmentLayers.{outline_layer}
use traffic_service.RouteMap.Layers.{MapApi, SourceData, LayerSpec, drop_layer, drop_source}
use traffic_service.Base.{
  if◌then◌else◌, Option-cases, Text, ===_iff, ◌===◌, ◌≡◌, refl, ◌≢◌, inl, inr, none, some, arith,
}

module _ {M : Type 0} (api : MapApi M) where
  open api use {get_source, get_layer, add_source, set_data, add_layer}

  pub drop_layer_layers :
      (i j : Text) (m : M)
      → get_layer j (drop_layer api i m) ≡ (if i === j then none else get_layer j m)
  drop_layer_layers i j m = elim (Option-cases (get_layer i m)) [
    | inl lacks ↦ ground (arith, ===_iff i j, lacks)
    | inr (s, has) ↦
        ground
          (arith, ===_iff i j, has, api.layer_removed i m, (api.layers_apart outline_layer i j m).1)
  ]

  pub drop_layer_sources : (i j : Text) (m : M) → get_source j (drop_layer api i m) ≡ get_source j m
  drop_layer_sources i j m = elim (Option-cases (get_layer i m)) [
    | inl lacks ↦ rw lacks refl
    | inr (s, has) ↦ rw has (api.layers_keep_sources outline_layer i j m).1
  ]

  pub drop_source_sources :
      (i j : Text) (m : M)
      → ((l : Text) → get_layer l m ≢ some i)
      → get_source j (drop_source api i m) ≡ (if i === j then none else get_source j m)
  drop_source_sources i j m undrawn_source = elim (Option-cases (get_source i m)) [
    | inl lacks ↦ ground (arith, ===_iff i j, lacks)
    | inr (d, has) ↦
        ground (
          arith,
          ===_iff i j,
          has,
          api.source_removed i m undrawn_source,
          api.sources_apart i j d m,
        )
  ]

  pub drop_source_layers : (i j : Text) (m : M) → get_layer j (drop_source api i m) ≡ get_layer j m
  drop_source_layers i j m = elim (Option-cases (get_source i m)) [
    | inl lacks ↦ rw lacks refl
    | inr (d, has) ↦ rw has (api.sources_keep_layers i j d m).2
  ]

  pub added_source :
      (i j : Text) (d : SourceData) (m : M)
      → get_source i m ≡ none
      → get_source j (add_source i d m) ≡ (if i === j then some d else get_source j m)
  added_source i j d m lacks =
      ground (arith, ===_iff i j, api.source_added i d m lacks, api.sources_apart i j d m)

  pub added_layer :
      (spec : LayerSpec) (j : Text) (d : SourceData) (m : M)
      → get_layer spec.id m ≡ none
      → get_source spec.source m ≡ some d
      → get_layer j (add_layer spec m) ≡ (if spec.id === j then some spec.source else get_layer j m)
  added_layer spec j d m lacks has = ground (
    arith,
    ===_iff spec.id j,
    api.layer_added spec d m lacks has,
    (api.layers_apart spec spec.id j m).0,
  )
