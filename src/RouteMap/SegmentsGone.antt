-- ===== src/RouteMap/SegmentsGone.antt =====
-- RouteMap.tsx, `syncSegmentLayers` without segments.
use traffic_service.RouteMap.MapSteps.{
  drop_layer_layers, drop_layer_sources, drop_source_sources, drop_source_layers,
}
use traffic_service.RouteMap.SegmentLayers.{
  outline_layer, segment_source, boundary_source, segment_layer, hitbox_layer, boundary_layer,
  remove_segments,
}
use traffic_service.RouteMap.Layers.{MapApi, SourceData, drop_layer, drop_source}
use traffic_service.Base.{
  if◌then◌else◌, Bool-cases, any, Text, ◌===◌, ◌≡◌, ◌∙◌, ◌≢◌, inl, inr, Bool, false, Option, none,
  some, [], ◌∷◌, arith,
}

abbrev pub is_segment_layer : Text → Bool
is_segment_layer l =
    any (λ i. i === l)
      (outline_layer.id ∷ segment_layer.id ∷ hitbox_layer.id ∷ boundary_layer.id ∷ [])

module _ {M : Type 0} (api : MapApi M) where
  open api use {get_source, get_layer, add_source, set_data, add_layer}

  -- What the map holds of the segments: nothing, or the two data with the four layers over them.
  abbrev pub Holds : Option (SourceData × SourceData) → M → Type 0
  Holds none m =
      (get_source segment_source m ≡ none)
      × (get_source boundary_source m ≡ none)
      × (get_layer outline_layer.id m ≡ none)
      × (get_layer segment_layer.id m ≡ none)
      × (get_layer hitbox_layer.id m ≡ none)
      × (get_layer boundary_layer.id m ≡ none)
  Holds (some (lines, ends_between)) m =
      (get_source segment_source m ≡ some lines)
      × (get_source boundary_source m ≡ some ends_between)
      × (get_layer outline_layer.id m ≡ some segment_source)
      × (get_layer segment_layer.id m ≡ some segment_source)
      × (get_layer hitbox_layer.id m ≡ some segment_source)
      × (get_layer boundary_layer.id m ≡ some boundary_source)

  -- No other layer draws the two sources.
  abbrev pub IsSole : M → Type 0
  IsSole m =
      (l : Text)
      → is_segment_layer l ≡ false
      → (get_layer l m ≢ some segment_source) × (get_layer l m ≢ some boundary_source)

  abbrev undrawn_map : M → M
  undrawn_map m = drop_layer api outline_layer.id (
      drop_layer api segment_layer.id
        (drop_layer api hitbox_layer.id (drop_layer api boundary_layer.id m)))

  undrawn_map_layers :
      (l : Text) (m : M)
      → get_layer l (undrawn_map m) ≡ (if is_segment_layer l then none else get_layer l m)
  undrawn_map_layers l m = ground (
    arith,
    drop_layer_layers api boundary_layer.id l m,
    drop_layer_layers api hitbox_layer.id l (drop_layer api boundary_layer.id m),
    drop_layer_layers api segment_layer.id l
        (drop_layer api hitbox_layer.id (drop_layer api boundary_layer.id m)),
    drop_layer_layers api outline_layer.id l (
        drop_layer api segment_layer.id
          (drop_layer api hitbox_layer.id (drop_layer api boundary_layer.id m))),
  )

  pub undrawn_map_sources : (j : Text) (m : M) → get_source j (undrawn_map m) ≡ get_source j m
  undrawn_map_sources j m =
      drop_layer_sources api outline_layer.id j (
        drop_layer api segment_layer.id
          (drop_layer api hitbox_layer.id (drop_layer api boundary_layer.id m)))
      ∙ drop_layer_sources api segment_layer.id j
          (drop_layer api hitbox_layer.id (drop_layer api boundary_layer.id m))
      ∙ drop_layer_sources api hitbox_layer.id j (drop_layer api boundary_layer.id m)
      ∙ drop_layer_sources api boundary_layer.id j m

  undrawn_map-IsSole :
      (l : Text) (m : M)
      → IsSole m
      → (get_layer l (undrawn_map m) ≢ some segment_source)
        × (get_layer l (undrawn_map m) ≢ some boundary_source)
  undrawn_map-IsSole l m sole = elim (Bool-cases (is_segment_layer l)) [
    | inl own ↦ rw (undrawn_map_layers l m) (rw own (λ h. ground arith, λ h. ground arith))
    | inr foreign ↦ rw (undrawn_map_layers l m) (rw foreign (sole l foreign))
  ]

  pub removed_Holds :
      (m : M)
      → IsSole m
      → Holds none (remove_segments api m)
        × ((l : Text)
            → get_layer l (remove_segments api m)
              ≡ (if is_segment_layer l then none else get_layer l m))
  unfolding ◌===◌
  removed_Holds m sole =
      let bare = undrawn_map m in
      let halved = drop_source api boundary_source bare in
      let layers : (l : Text)
          → get_layer l (remove_segments api m)
            ≡ (if is_segment_layer l then none else get_layer l m) =
        λ l.
          drop_source_layers api segment_source l halved
          ∙ drop_source_layers api boundary_source l bare
          ∙ undrawn_map_layers l m in
      let of_boundary =
        drop_source_sources api boundary_source boundary_source bare
          (λ l. (undrawn_map-IsSole l m sole).1) in
      let of_segments : (j : Text)
          → get_source j (remove_segments api m)
            ≡ (if segment_source === j then none else get_source j halved) =
        λ j. drop_source_sources api segment_source j halved (λ l.
          rw (drop_source_layers api boundary_source l bare) (undrawn_map-IsSole l m sole).0) in
      (
        (
          of_segments segment_source,
          of_segments boundary_source ∙ of_boundary,
          layers outline_layer.id,
          layers segment_layer.id,
          layers hitbox_layer.id,
          layers boundary_layer.id,
        ),
        layers,
      )
