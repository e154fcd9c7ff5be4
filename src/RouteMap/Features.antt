-- ===== src/RouteMap/Features.antt =====
-- RouteMap.tsx: the features drawn for the segments of a route, and the points between them.
use mathlib.Core.Option
use traffic_service.RouteMap.Geometry.{normalize_line_geometry, split_route, segment_end_coordinate}
use traffic_service.Base.Double.{Double}
use traffic_service.Base.Json.{Json}
use traffic_service.Base.{
  leb, if◌then◌else◌, ◌or_else◌, length, get_elem?, Text, codes, ℕ, suc, ◌*◌, Option, none, some,
  List, [], ◌∷◌,
}

pub record SegmentData : Type 0 where
  pub segment_id : Text
  pub name : Option Text
  pub region : Option Text
  pub coordinates : Json Double
  pub capacity : Option ℕ
  pub reserved : Option ℕ
  pub utilization : Option Double

-- `SEGMENT_AVAILABLE_COLOR`, `SEGMENT_MEDIUM_COLOR` and `SEGMENT_FULL_COLOR`
pub data SegmentColor : Type 0 where
  available_color medium_color full_color : SegmentColor

-- `reserved / capacity >= 0.5`, of whole numbers that a double holds exactly.
unfoldable pub segment_capacity_color : ℕ → ℕ → SegmentColor
segment_capacity_color reserved capacity =
    if leb capacity 0
    then available_color
    else if leb capacity reserved
    then full_color
    else if leb capacity (2 * reserved)
    then medium_color
    else available_color

pub record Feature : Type 0 where
  pub color : SegmentColor
  pub capacity : ℕ
  pub reserved : ℕ
  pub segment_id : Text
  pub name : Text
  pub region : Text
  pub utilization_percent : ℕ
  pub geometry : Json Double

-- `text || other`
abbrev pub text_or : Option Text → Text → Text
text_or none d = d
text_or (some []) d = d
text_or (some (c ∷ s)) d = c ∷ s

-- `a ?? b` where `b` may be missing too.
abbrev pub or_next {ℓ} : {A : Type ℓ} → Option A → Option A → Option A
or_next none b = b
or_next (some a) b = some a

-- `[x]` in front of a list, or `[]` for what is missing.
abbrev pub push {ℓ} : {A : Type ℓ} → Option A → List A → List A
push none xs = xs
push (some x) xs = x ∷ xs

module _ (rounded_product : Double → ℕ → ℕ) where
  -- The feature of one segment that has a geometry; the section's function is `Math.round(u * k)`.
  unfoldable pub feature_of : SegmentData → Json Double → Feature
  unfolding segment_capacity_color
  feature_of seg shape =
      let capacity : ℕ = seg.capacity or_else 0 in
      let utilization : Double = seg.utilization or_else codes "0" in
      let reserved : ℕ = seg.reserved or_else rounded_product utilization capacity in
      record {
        color = segment_capacity_color reserved capacity;
        capacity = capacity;
        reserved = reserved;
        segment_id = seg.segment_id;
        name = text_or seg.name (codes "unnamed");
        region = text_or seg.region (codes "Unknown");
        utilization_percent = rounded_product utilization 100;
        geometry = shape;
      }

  -- `segments.flatMap((seg, index) => …)` from an index on
  unfoldable pub features_from : List (Json Double) → ℕ → List SegmentData → List Feature
  features_from fallback index [] = []
  features_from fallback index (seg ∷ segs) =
      push
        (Option.map (feature_of seg)
          (or_next (normalize_line_geometry seg.coordinates) (get_elem? fallback index)))
        (features_from fallback (suc index) segs)

  unfoldable pub segment_features : List SegmentData → Json Double → List Feature
  unfolding features_from
  segment_features segments route = features_from (split_route route (length segments)) 0 segments

-- `features.slice(0, -1)`
abbrev pub init {ℓ} : {A : Type ℓ} → List A → List A
init [] = []
init (x ∷ []) = []
init (x ∷ y ∷ xs) = x ∷ init (y ∷ xs)

abbrev pub boundary_points : List Feature → List (Double × Double)
boundary_points [] = []
boundary_points (f ∷ fs) = elim (segment_end_coordinate f.geometry) [
  | none ↦ boundary_points fs
  | some p ↦ p ∷ boundary_points fs
]

-- The points of `segmentBoundaryGeojson`.
unfoldable pub segment_boundaries : List Feature → List (Double × Double)
segment_boundaries features = boundary_points (init features)
