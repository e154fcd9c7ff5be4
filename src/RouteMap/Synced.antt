-- ===== src/RouteMap/Synced.antt =====
-- RouteMap.tsx: what drawing lines changes on the map.
use traffic_service.RouteMap.Layers.{
  MapApi, SourceData, LayerSpec, sync_lines, alternatives_layer, route_layer,
}
use traffic_service.Base.{
  if◌then◌else◌, Bool-cases, is_some, Text, ===_iff, ◌===◌, ◌≡◌, refl, sym, ◌∙◌, ◌≢◌, ◌⊎◌, inl, inr,
  false, Option, none, some, arith,
}

module _ {M : Type 0} (api : MapApi M) where
  open api use {get_source, get_layer}

  -- The layer is there exactly when its source is, and draws it; no other layer draws it.
  abbrev pub IsAttached : LayerSpec → M → Type 0
  IsAttached spec m =
      (((get_source spec.source m ≡ none) × (get_layer spec.id m ≡ none))
        ⊎ ((d : SourceData) × (get_source spec.source m ≡ some d)
            × (get_layer spec.id m ≡ some spec.source)))
      × ((l : Text) → (spec.id === l) ≡ false → get_layer l m ≢ some spec.source)

  -- The source has just these data and its layer is there just for some data; the sources and
  -- layers of other names are as they were.
  abbrev pub Shows : LayerSpec → Option SourceData → M → M → Type 0
  Shows spec d before m =
      (get_source spec.source m ≡ d)
      × (get_layer spec.id m ≡ (if is_some d then some spec.source else none))
      × ((j : Text) → (spec.source === j) ≡ false → get_source j m ≡ get_source j before)
      × ((l : Text) → (spec.id === l) ≡ false → get_layer l m ≡ get_layer l before)

  undrawn :
      (spec : LayerSpec) (m : M)
      → ((l : Text) → (spec.id === l) ≡ false → get_layer l m ≢ some spec.source)
      → (l : Text) → get_layer l (api.remove_layer spec.id m) ≢ some spec.source
  undrawn spec m sole l shown = elim (Bool-cases (spec.id === l)) [
    | inl same ↦
        ground (arith, ===_iff spec.id l, api.layer_removed l m, api.layer_removed spec.id m, shown)
    | inr differs ↦ sole l differs (sym ((api.layers_apart spec spec.id l m).1 differs) ∙ shown)
  ]

  pub sync_lines-Shows :
      (spec : LayerSpec) (d : Option SourceData) (m : M)
      → IsAttached spec m
      → Shows spec d m (sync_lines api spec d m)
  unfolding sync_lines
  sync_lines-Shows spec none m (inl (no_source, no_layer), sole) =
      let e : sync_lines api spec none m ≡ m = rw no_layer (rw no_source refl) in
      rw e (no_source, no_layer, (λ j n. refl), (λ l n. refl))
  sync_lines-Shows spec none m (inr (old, source, layer), sole) =
      let bare = api.remove_layer spec.id m in
      let kept : get_source spec.source bare ≡ some old =
        (api.layers_keep_sources spec spec.id spec.source m).1 ∙ source in
      let e : sync_lines api spec none m ≡ api.remove_source spec.source bare =
        rw layer (rw kept refl) in
      rw e (
        api.source_removed spec.source bare (undrawn spec m sole),
        (api.sources_keep_layers spec.source spec.id old bare).2 ∙ api.layer_removed spec.id m,
        (λ j n.
            (api.sources_apart spec.source j old bare n).2
            ∙ (api.layers_keep_sources spec spec.id j m).1),
        (λ l n.
            (api.sources_keep_layers spec.source l old bare).2
            ∙ (api.layers_apart spec spec.id l m).1 n),
      )
  sync_lines-Shows spec (some d) m (inl (no_source, no_layer), sole) =
      let with_source = api.add_source spec.source d m in
      let source : get_source spec.source with_source ≡ some d =
        api.source_added spec.source d m no_source in
      let e : sync_lines api spec (some d) m ≡ api.add_layer spec with_source = rw no_source refl in
      rw e (
        (api.layers_keep_sources spec spec.id spec.source with_source).0 ∙ source,
        api.layer_added spec d with_source
            ((api.sources_keep_layers spec.source spec.id d m).0 ∙ no_layer) source,
        (λ j n.
            (api.layers_keep_sources spec spec.id j with_source).0
            ∙ (api.sources_apart spec.source j d m n).0),
        (λ l n.
            (api.layers_apart spec spec.id l with_source).0 n
            ∙ (api.sources_keep_layers spec.source l d m).0),
      )
  sync_lines-Shows spec (some d) m (inr (old, source, layer), sole) =
      let e : sync_lines api spec (some d) m ≡ api.set_data spec.source d m = rw source refl in
      rw e (
        api.source_set spec.source d old m source,
        (api.sources_keep_layers spec.source spec.id d m).1 ∙ layer,
        (λ j n. (api.sources_apart spec.source j d m n).1),
        (λ l n. (api.sources_keep_layers spec.source l d m).1),
      )

  IsAttached-of :
      (spec : LayerSpec) (d : Option SourceData) (m : M)
      → get_source spec.source m ≡ d
      → get_layer spec.id m ≡ (if is_some d then some spec.source else none)
      → ((l : Text) → (spec.id === l) ≡ false → get_layer l m ≢ some spec.source)
      → IsAttached spec m
  IsAttached-of spec none m source layer sole = (inl (source, layer), sole)
  IsAttached-of spec (some d) m source layer sole = (inr (d, source, layer), sole)

  pub sync_lines-IsAttached :
      (spec : LayerSpec) (d : Option SourceData) (m : M)
      → IsAttached spec m
      → IsAttached spec (sync_lines api spec d m)
  sync_lines-IsAttached spec d m h =
      let (source, layer, sources, layers) = sync_lines-Shows spec d m h in
      IsAttached-of spec d (sync_lines api spec d m) source layer
        (λ l n drawn_by. h.1 l n (sym (layers l n) ∙ drawn_by))

  -- Two layers with names of their own.
  abbrev AreApart : LayerSpec → LayerSpec → Type 0
  AreApart a b = ((a.source === b.source) ≡ false) × ((a.id === b.id) ≡ false)

  pub other_source :
      (a b : LayerSpec) (d : Option SourceData) (l : Text) (m : M)
      → a.id ≡ l
      → (a.source === b.source) ≡ false
      → get_layer a.id m ≡ (if is_some d then some a.source else none)
      → get_layer l m ≢ some b.source
  other_source a b none l m same differ layer shown = ground (arith, same, layer, shown)
  other_source a b (some d) l m same differ layer shown =
      ground (arith, ===_iff a.source b.source, same, layer, shown)

  pub sync_lines-other :
      (a b : LayerSpec) (d : Option SourceData) (m : M)
      → AreApart a b
      → IsAttached a m
      → IsAttached b m
      → IsAttached b (sync_lines api a d m)
  sync_lines-other a b d m (sources_differ, ids_differ) ha hb =
      let (source, layer, sources, layers) = sync_lines-Shows a d m ha in
      rw (sources b.source sources_differ, layers b.id ids_differ)
        (
          hb.0,
          λ l n shown. elim (Bool-cases (a.id === l)) [
            | inl same ↦
                other_source a b d l (sync_lines api a d m) ((===_iff a.id l).0 same) sources_differ
                  layer shown
            | inr differs ↦ hb.1 l n (sym (layers l differs) ∙ shown)
          ],
        )

  -- The two layers of lines are as they should be.
  abbrev pub IsMap : M → Type 0
  IsMap m = IsAttached alternatives_layer m × IsAttached route_layer m

  pub apart : AreApart alternatives_layer route_layer
  unfolding ◌===◌
  apart = (refl, refl)

  pub apart_back : AreApart route_layer alternatives_layer
  unfolding ◌===◌
  apart_back = (refl, refl)
