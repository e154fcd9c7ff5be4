-- ===== src/RouteMap/Foreign.antt =====
-- RouteMap.tsx: drawing lines and drawing segments leave each other alone.
use traffic_service.RouteMap.Segmented.{segment_data, sync_segments-Holds}
use traffic_service.RouteMap.Features.{SegmentData}
use traffic_service.Base.Double.{Double}
use traffic_service.Base.Json.{Json}
use traffic_service.RouteMap.SegmentsDrawn.{lacks_all, IsSegmentMap, KeepsOthers, over_sources}
use traffic_service.RouteMap.Synced.{IsAttached, sync_lines-Shows, other_source}
use traffic_service.RouteMap.SegmentLayers.{
  segment_source, boundary_source, outline_layer, segment_layer, hitbox_layer, boundary_layer,
  remove_segments, draw_segments, set_if_there, sync_segment_layers,
}
use traffic_service.RouteMap.SegmentsGone.{is_segment_layer, Holds, IsSole, undrawn_map_sources}
use traffic_service.RouteMap.Layers.{
  MapApi, SourceData, LayerSpec, alternatives_layer, route_layer, drop_source, sync_lines,
}
use traffic_service.Base.{
  Bool-cases, Option-cases, ◌or_else◌, Text, ===_iff, ◌===◌, ℕ, ◌≡◌, refl, sym, ◌∙◌, ◌≢◌, ◌⊎◌, inl,
  inr, true, false, Option, none, some, List, [], ◌∷◌, arith,
}

-- A layer of lines with names that are not those of the segments.
abbrev pub IsForeign : LayerSpec → Type 0
IsForeign spec =
    ((spec.source === segment_source) ≡ false)
    × ((spec.source === boundary_source) ≡ false)
    × ((segment_source === spec.source) ≡ false)
    × ((boundary_source === spec.source) ≡ false)
    × ((spec.id === outline_layer.id) ≡ false)
    × ((spec.id === segment_layer.id) ≡ false)
    × ((spec.id === hitbox_layer.id) ≡ false)
    × ((spec.id === boundary_layer.id) ≡ false)
    × (is_segment_layer spec.id ≡ false)

pub alternatives-IsForeign : IsForeign alternatives_layer
unfolding ◌===◌
alternatives-IsForeign = (refl, refl, refl, refl, refl, refl, refl, refl, refl)

pub route-IsForeign : IsForeign route_layer
unfolding ◌===◌
route-IsForeign = (refl, refl, refl, refl, refl, refl, refl, refl, refl)

module _ {M : Type 0} (api : MapApi M) where
  open api use {get_source, get_layer}

  lines-Holds :
      (spec : LayerSpec) (d : Option SourceData) (m : M) (o : Option (SourceData × SourceData))
      → IsForeign spec
      → IsAttached api spec m
      → Holds api o m
      → Holds api o (sync_lines api spec d m)
  lines-Holds spec d m none f h (a, b, p, q, r, s) =
      let (source, layer, sources, layers) = sync_lines-Shows api spec d m h in
      (
        sources _ f.0 ∙ a,
        sources _ f.1 ∙ b,
        layers _ f.4 ∙ p,
        layers _ f.5 ∙ q,
        layers _ f.6 ∙ r,
        layers _ f.7 ∙ s,
      )
  lines-Holds spec d m (some pair) f h (a, b, p, q, r, s) =
      let (source, layer, sources, layers) = sync_lines-Shows api spec d m h in
      (
        sources _ f.0 ∙ a,
        sources _ f.1 ∙ b,
        layers _ f.4 ∙ p,
        layers _ f.5 ∙ q,
        layers _ f.6 ∙ r,
        layers _ f.7 ∙ s,
      )

  lines-IsSole :
      (spec : LayerSpec) (d : Option SourceData) (m : M)
      → IsForeign spec
      → IsAttached api spec m
      → IsSole api m
      → IsSole api (sync_lines api spec d m)
  lines-IsSole spec d m f h sole l foreign =
      let (source, layer, sources, layers) = sync_lines-Shows api spec d m h in
      elim (Bool-cases (spec.id === l)) [
        | inl same ↦ (
          other_source api spec segment_layer d l (sync_lines api spec d m)
              ((===_iff spec.id l).0 same) f.0 layer,
          other_source api spec boundary_layer d l (sync_lines api spec d m)
              ((===_iff spec.id l).0 same) f.1 layer,
        )
        | inr differs ↦ rw (layers l differs) (sole l foreign)
      ]

  pub lines-IsSegmentMap :
      (spec : LayerSpec) (d : Option SourceData) (m : M)
      → IsForeign spec
      → IsAttached api spec m
      → IsSegmentMap api m
      → IsSegmentMap api (sync_lines api spec d m)
  lines-IsSegmentMap spec d m f h (o, holds, sole) =
      (o, lines-Holds spec d m o f h holds, lines-IsSole spec d m f h sole)

  drop_source_other :
      (i j : Text) (m : M) → (i === j) ≡ false → get_source j (drop_source api i m) ≡ get_source j m
  drop_source_other i j m n = elim (Option-cases (get_source i m)) [
    | inl lacks ↦ rw lacks refl
    | inr (d, has) ↦ rw has (api.sources_apart i j d m n).2
  ]

  removed_other :
      (j : Text) (m : M)
      → (segment_source === j) ≡ false
      → (boundary_source === j) ≡ false
      → get_source j (remove_segments api m) ≡ get_source j m
  removed_other j m a b =
      drop_source_other segment_source j _ a
      ∙ drop_source_other boundary_source j _ b
      ∙ undrawn_map_sources api j m

  set_other :
      (i j : Text) (d : SourceData) (m : M)
      → (i === j) ≡ false
      → get_source j (set_if_there api i d m) ≡ get_source j m
  set_other i j d m n = elim (Option-cases (get_source i m)) [
    | inl lacks ↦ rw lacks refl
    | inr (e, has) ↦ rw has (api.sources_apart i j d m n).1
  ]

  drawn_other :
      (lines ends_between : SourceData) (j : Text) (m : M)
      → (segment_source === j) ≡ false
      → (boundary_source === j) ≡ false
      → get_source j (draw_segments api lines ends_between m) ≡ get_source j m
  drawn_other lines ends_between j m a b = elim (Option-cases (get_source segment_source m)) [
    | inl lacks ↦ rw lacks (
        over_sources api j _
        ∙ (api.sources_apart boundary_source j ends_between _ b).0
        ∙ (api.sources_apart segment_source j lines m a).0)
    | inr (d, has) ↦ rw has (
        set_other boundary_source j ends_between _ b
        ∙ (api.sources_apart segment_source j lines m a).1)
  ]

  segment_layer_source :
      (o : Option (SourceData × SourceData)) (l : Text) (m : M)
      → Holds api o m
      → is_segment_layer l ≡ true
      → (get_layer l m ≡ none)
        ⊎ ((get_layer l m ≡ some segment_source) ⊎ (get_layer l m ≡ some boundary_source))
  segment_layer_source none l m holds own = inl (lacks_all api m holds l own)
  segment_layer_source (some pair) l m (a, b, p, q, r, s) own = ground (
    arith,
    ===_iff outline_layer.id l,
    ===_iff segment_layer.id l,
    ===_iff hitbox_layer.id l,
    ===_iff boundary_layer.id l,
  )

module _ {M : Type 0} (api : MapApi M) (rounded_product : Double → ℕ → ℕ) where
  open api use {get_source, get_layer}

  pub segments-other :
      (segments : Option (List SegmentData)) (route : Json Double) (j : Text) (m : M)
      → (segment_source === j) ≡ false
      → (boundary_source === j) ≡ false
      → get_source j (sync_segment_layers api rounded_product segments route m) ≡ get_source j m
  unfolding sync_segment_layers
  segments-other none route j m a b = removed_other api j m a b
  segments-other (some []) route j m a b = removed_other api j m a b
  segments-other (some (s ∷ ss)) route j m a b = drawn_other api _ _ j m a b

  segments-sole :
      (spec : LayerSpec) (o : Option (SourceData × SourceData)) (l : Text) (before m : M)
      → IsForeign spec
      → Holds api o m
      → KeepsOthers api before m
      → get_layer l before ≢ some spec.source
      → get_layer l m ≢ some spec.source
  segments-sole spec o l before m f holds keeps undrawn_by shown =
      elim (Bool-cases (is_segment_layer l)) [
        | inl own ↦ elim (segment_layer_source api o l m holds own) [
          | inl lacks ↦ ground (arith, lacks, shown)
          | inr (inl drawn_by) ↦
              ground (arith, ===_iff segment_source spec.source, f.2, drawn_by, shown)
          | inr (inr drawn_by) ↦
              ground (arith, ===_iff boundary_source spec.source, f.3, drawn_by, shown)
        ]
        | inr foreign ↦ undrawn_by (sym (keeps l foreign) ∙ shown)
      ]

  pub segments-IsAttached :
      (segments : Option (List SegmentData)) (route : Json Double) (spec : LayerSpec) (m : M)
      → IsForeign spec
      → IsSegmentMap api m
      → IsAttached api spec m
      → IsAttached api spec (sync_segment_layers api rounded_product segments route m)
  segments-IsAttached segments route spec m f h (state, sole) =
      let (holds, keeps) = sync_segments-Holds api rounded_product segments route m h in
      rw (segments-other segments route spec.source m f.2 f.3, keeps spec.id f.8)
        (
          state,
          λ l n.
              segments-sole spec (segment_data api rounded_product (segments or_else []) route) l m
                _ f holds keeps (sole l n),
        )
