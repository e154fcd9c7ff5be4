-- ===== src/RouteMap/Drawn.antt =====
-- RouteMap.tsx, `syncSegmentLayers`: which segments are drawn, and with what.
use traffic_service.RouteMap.Pieces.{split_route-IsLine}
use mathlib.Core.Option
use traffic_service.RouteMap.Features.{
  SegmentData, segment_capacity_color, Feature, feature_of, features_from, segment_features,
  or_next, push,
}
use traffic_service.RouteMap.Geometry.{extract_coordinates, normalize_line_geometry, split_route}
use traffic_service.Base.Double.{Double}
use traffic_service.Base.Json.{Json}
use traffic_service.Base.{
  ◌or_else◌, is_some, length, get_elem?, All, ℕ, zero, suc, ◌+◌, ◌≤◌, ◌<◌, ◌≡◌, refl, ap, ◌∙◌, ◌⊎◌,
  inl, inr, true, Option, none, some, List, [], ◌∷◌, arith,
}

-- A segment whose own coordinates give a line.
abbrev pub HasLine : SegmentData → Type 0
HasLine seg = is_some (normalize_line_geometry seg.coordinates) ≡ true

or_next-none {ℓ} : {A : Type ℓ} (a b : Option A) → or_next a b ≡ none → a ≡ none
or_next-none none b e = refl
or_next-none (some x) b e = cc

-- One segment more: drawn if it has a line, or a piece of the route stands in for it.
length-push {ℓ κ} :
    {A : Type ℓ} {B : Type κ} (f : A → B) (a b : Option A) (xs : List B)
    → (is_some a ≡ true) ⊎ (is_some b ≡ true)
    → length (push (Option.map f (or_next a b)) xs) ≡ suc (length xs)
length-push f (some x) b xs h = refl
length-push f none (some y) xs h = refl
length-push f none none xs (inl e) = cc
length-push f none none xs (inr e) = cc

get_elem?-some {ℓ} :
    {A : Type ℓ} (xs : List A) (i : ℕ) → i < length xs → is_some (get_elem? xs i) ≡ true
get_elem?-some [] i h = elim h [ ]
get_elem?-some (x ∷ xs) zero h = refl
get_elem?-some (x ∷ xs) (suc i) h = get_elem?-some xs i (omega arith)

module _ (rounded_product : Double → ℕ → ℕ) where
  -- A feature drawn for a segment: its own id, counts and color.
  abbrev pub Draws : SegmentData → Feature → Type 0
  Draws seg f =
      (f.segment_id ≡ seg.segment_id)
      × (f.capacity ≡ (seg.capacity or_else 0))
      × ((r : ℕ) → seg.reserved ≡ some r → f.reserved ≡ r)
      × (f.color ≡ segment_capacity_color f.reserved f.capacity)

  -- Each feature is drawn for a segment of its own, in the order of the segments.
  pub data Drawn : List SegmentData → List Feature → Type 0 where
    done : Drawn [] []
    drawn :
        {seg : SegmentData} {segs : List SegmentData} {f : Feature} {fs : List Feature}
        → Draws seg f
        → Drawn segs fs
        → Drawn (seg ∷ segs) (f ∷ fs)
    skipped :
        {seg : SegmentData} {segs : List SegmentData} {fs : List Feature}
        → normalize_line_geometry seg.coordinates ≡ none
        → Drawn segs fs
        → Drawn (seg ∷ segs) fs

  feature_of-Draws :
      (seg : SegmentData) (shape : Json Double) → Draws seg (feature_of rounded_product seg shape)
  unfolding feature_of
  feature_of-Draws seg shape = (refl, refl, (λ r e. rw e), refl)

  push-Drawn :
      (seg : SegmentData) (shape : Option (Json Double)) {segs : List SegmentData}
      {fs : List Feature}
      → (shape ≡ none → normalize_line_geometry seg.coordinates ≡ none)
      → Drawn segs fs
      → Drawn (seg ∷ segs) (push (Option.map (feature_of rounded_product seg) shape) fs)
  push-Drawn seg none lacks h = skipped (lacks refl) h
  push-Drawn seg (some g) lacks h = drawn (feature_of-Draws seg g) h

  features_from-Drawn :
      (fallback : List (Json Double)) (i : ℕ) (segs : List SegmentData)
      → Drawn segs (features_from rounded_product fallback i segs)
  unfolding features_from
  features_from-Drawn fallback i [] = done
  features_from-Drawn fallback i (seg ∷ segs) =
      push-Drawn seg (or_next (normalize_line_geometry seg.coordinates) (get_elem? fallback i))
        (λ e. or_next-none (normalize_line_geometry seg.coordinates) _ e)
        (features_from-Drawn fallback (suc i) segs)

  length-features_from :
      (fallback : List (Json Double)) (i : ℕ) (segs : List SegmentData)
      → All HasLine segs ⊎ (i + length segs ≤ length fallback)
      → length (features_from rounded_product fallback i segs) ≡ length segs
  unfolding features_from
  length-features_from fallback i [] h = refl
  length-features_from fallback i (seg ∷ segs) (inl (line, lines)) =
      length-push (feature_of rounded_product seg) (normalize_line_geometry seg.coordinates)
        (get_elem? fallback i) _ (inl line)
      ∙ ap suc (length-features_from fallback (suc i) segs (inl lines))
  length-features_from fallback i (seg ∷ segs) (inr enough) =
      length-push (feature_of rounded_product seg) (normalize_line_geometry seg.coordinates)
        (get_elem? fallback i) _ (inr (get_elem?-some fallback i (omega arith)))
      ∙ ap suc (length-features_from fallback (suc i) segs (inr (omega arith)))

  -- Each segment is drawn at most once and in order, with its own id, capacity and reservations
  -- and the color that these give, and is left out only if its coordinates give no line. All
  -- are drawn if each has a line, or if the route has at least two coordinates.
  pub segment_features-Drawn :
      (segs : List SegmentData) (route : Json Double)
      → Drawn segs (segment_features rounded_product segs route)
        × (All HasLine segs ⊎ (2 ≤ length (extract_coordinates route))
            → length (segment_features rounded_product segs route) ≡ length segs)
  unfolding segment_features
  segment_features-Drawn segs route = (
    features_from-Drawn (split_route route (length segs)) 0 segs,
    (λ h. length-features_from (split_route route (length segs)) 0 segs (elim h [
      | inl lines ↦ inl lines
      | inr two ↦ inr (omega (arith, (split_route-IsLine route (length segs)).1 two))
    ])),
  )
