-- ===== src/RouteMap/SegmentsDrawn.antt =====
-- RouteMap.tsx, `syncSegmentLayers` with segments, for the first time and again.
use traffic_service.RouteMap.MapSteps.{added_source, added_layer}
use traffic_service.RouteMap.SegmentsGone.{is_segment_layer, Holds, IsSole}
use traffic_service.RouteMap.SegmentLayers.{
  outline_layer, segment_source, boundary_source, segment_layer, hitbox_layer, boundary_layer,
  draw_segments,
}
use traffic_service.RouteMap.Layers.{MapApi, SourceData, LayerSpec}
use traffic_service.Base.{
  if◌then◌else◌, any, Text, ===_iff, ◌===◌, ◌≡◌, refl, ◌∙◌, Bool, true, false, Option, none, some,
  [], ◌∷◌, arith,
}

-- Four conditional changes of which none applies.
skip_all :
    (a b c d : Bool) (s t : Option Text) {x y z v w : Option Text}
    → any (λ (e : Bool). e) (a ∷ b ∷ c ∷ d ∷ []) ≡ false
    → y ≡ (if a then s else x)
    → z ≡ (if b then s else y)
    → v ≡ (if c then s else z)
    → w ≡ (if d then t else v)
    → w ≡ x
skip_all false false false false s t h p q r u = u ∙ r ∙ q ∙ p
skip_all true b c d s t h p q r u = ground (arith, h)
skip_all false true c d s t h p q r u = ground (arith, h)
skip_all false false true d s t h p q r u = ground (arith, h)
skip_all false false false true s t h p q r u = ground (arith, h)

module _ {M : Type 0} (api : MapApi M) where
  open api use {get_source, get_layer, add_source, set_data, add_layer}

  -- The layers that are not of the segments stay.
  abbrev pub KeepsOthers : M → M → Type 0
  KeepsOthers before m =
      (l : Text) → is_segment_layer l ≡ false → get_layer l m ≡ get_layer l before

  abbrev pub over : M → M
  over m =
      add_layer boundary_layer
        (add_layer hitbox_layer (add_layer segment_layer (add_layer outline_layer m)))

  pub over_sources : (j : Text) (m : M) → get_source j (over m) ≡ get_source j m
  over_sources j m =
      let kept : (spec : LayerSpec) (n : M) → get_source j (add_layer spec n) ≡ get_source j n =
        λ spec n. (api.layers_keep_sources spec j j n).0 in
      kept boundary_layer _ ∙ kept hitbox_layer _ ∙ kept segment_layer _ ∙ kept outline_layer _

  over-Holds :
      (lines ends_between : SourceData) (m : M)
      → get_source segment_source m ≡ some lines
      → get_source boundary_source m ≡ some ends_between
      → ((l : Text) → is_segment_layer l ≡ true → get_layer l m ≡ none)
      → Holds api (some (lines, ends_between)) (over m) × KeepsOthers m (over m)
  unfolding ◌===◌
  over-Holds lines ends_between m has_lines has_points lacks =
      let three = add_layer outline_layer m in
      let four = add_layer segment_layer three in
      let five = add_layer hitbox_layer four in
      let kept : (spec : LayerSpec) (n : M) (j : Text)
          → get_source j (add_layer spec n) ≡ get_source j n =
        λ spec n j. (api.layers_keep_sources spec j j n).0 in
      let in_three = kept outline_layer m in
      let in_four = kept segment_layer three in
      let l3 = λ (l : Text).
        added_layer api outline_layer l lines m (lacks outline_layer.id refl) has_lines in
      let l4 = λ (l : Text).
        added_layer api segment_layer l lines three
          (l3 segment_layer.id ∙ lacks segment_layer.id refl)
          (in_three segment_source ∙ has_lines) in
      let l5 = λ (l : Text).
        added_layer api hitbox_layer l lines four
          (l4 hitbox_layer.id ∙ l3 hitbox_layer.id ∙ lacks hitbox_layer.id refl)
          (in_four segment_source ∙ in_three segment_source ∙ has_lines) in
      let l6 = λ (l : Text).
        added_layer api boundary_layer l ends_between five
          (l5 boundary_layer.id
            ∙ l4 boundary_layer.id
            ∙ l3 boundary_layer.id
            ∙ lacks boundary_layer.id refl)
          (kept hitbox_layer four boundary_source
            ∙ in_four boundary_source
            ∙ in_three boundary_source
            ∙ has_points) in
      (
        (
          over_sources segment_source m ∙ has_lines,
          over_sources boundary_source m ∙ has_points,
          l6 outline_layer.id ∙ l5 outline_layer.id ∙ l4 outline_layer.id ∙ l3 outline_layer.id,
          l6 segment_layer.id ∙ l5 segment_layer.id ∙ l4 segment_layer.id,
          l6 hitbox_layer.id ∙ l5 hitbox_layer.id,
          l6 boundary_layer.id,
        ),
        λ l foreign.
            skip_all (outline_layer.id === l) (segment_layer.id === l) (hitbox_layer.id === l)
              (boundary_layer.id === l) (some segment_source) (some boundary_source) foreign (l3 l)
              (l4 l) (l5 l) (l6 l),
      )

  pub lacks_all :
      (m : M) → Holds api none m → (l : Text) → is_segment_layer l ≡ true → get_layer l m ≡ none
  lacks_all m holds l own = ground (
    arith,
    ===_iff outline_layer.id l,
    ===_iff segment_layer.id l,
    ===_iff hitbox_layer.id l,
    ===_iff boundary_layer.id l,
  )

  first_Holds :
      (lines ends_between : SourceData) (m : M)
      → Holds api none m
      → Holds api (some (lines, ends_between)) (draw_segments api lines ends_between m)
        × KeepsOthers m (draw_segments api lines ends_between m)
  unfolding ◌===◌
  first_Holds lines ends_between m holds =
      let one = add_source segment_source lines m in
      let two = add_source boundary_source ends_between one in
      let s1 = λ (j : Text). added_source api segment_source j lines m holds.0 in
      let s2 = λ (j : Text).
        added_source api boundary_source j ends_between one (s1 boundary_source ∙ holds.1) in
      let same : (l : Text) → get_layer l two ≡ get_layer l m = λ l.
        (api.sources_keep_layers boundary_source l ends_between one).0
        ∙ (api.sources_keep_layers segment_source l lines m).0 in
      let (drawn_all, kept) =
        over-Holds lines ends_between two (s2 segment_source ∙ s1 segment_source)
          (s2 boundary_source) (λ l own. same l ∙ lacks_all m holds l own) in
      let e : draw_segments api lines ends_between m ≡ over two = rw holds.0 refl in
      rw e (drawn_all, λ l foreign. kept l foreign ∙ same l)

  again_Holds :
      (old : SourceData × SourceData) (lines ends_between : SourceData) (m : M)
      → Holds api (some old) m
      → Holds api (some (lines, ends_between)) (draw_segments api lines ends_between m)
        × KeepsOthers m (draw_segments api lines ends_between m)
  unfolding ◌===◌
  again_Holds old lines ends_between m (old_lines, old_ends, outline, segment, hitbox, boundary) =
      let one = set_data segment_source lines m in
      let two = set_data boundary_source ends_between one in
      let kept : get_source boundary_source one ≡ some old.1 =
        (api.sources_apart segment_source boundary_source lines m refl).1 ∙ old_ends in
      let e : draw_segments api lines ends_between m ≡ two = rw old_lines (rw kept refl) in
      let layers : (l : Text) → get_layer l two ≡ get_layer l m = λ l.
        (api.sources_keep_layers boundary_source l ends_between one).1
        ∙ (api.sources_keep_layers segment_source l lines m).1 in
      rw e (
        (
          (api.sources_apart boundary_source segment_source ends_between one refl).1
              ∙ api.source_set segment_source lines old.0 m old_lines,
          api.source_set boundary_source ends_between old.1 one kept,
          layers outline_layer.id ∙ outline,
          layers segment_layer.id ∙ segment,
          layers hitbox_layer.id ∙ hitbox,
          layers boundary_layer.id ∙ boundary,
        ),
        λ l foreign. layers l,
      )

  abbrev pub IsSegmentMap : M → Type 0
  IsSegmentMap m = (o : Option (SourceData × SourceData)) × Holds api o m × IsSole api m

  pub KeepsOthers-IsSole : (before m : M) → KeepsOthers before m → IsSole api before → IsSole api m
  KeepsOthers-IsSole before m keeps sole l foreign = rw (keeps l foreign) (sole l foreign)

  pub drawn_Holds :
      (lines ends_between : SourceData) (m : M)
      → IsSegmentMap m
      → Holds api (some (lines, ends_between)) (draw_segments api lines ends_between m)
        × KeepsOthers m (draw_segments api lines ends_between m)
  drawn_Holds lines ends_between m (none, holds, sole) = first_Holds lines ends_between m holds
  drawn_Holds lines ends_between m (some old, holds, sole) =
      again_Holds old lines ends_between m holds
