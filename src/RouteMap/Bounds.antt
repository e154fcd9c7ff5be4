-- ===== src/RouteMap/Bounds.antt =====
-- RouteMap.tsx: the bounds that are fitted to a route. The map library's bounds are an interface.
use traffic_service.RouteMap.Geometry.{extract_coordinates, member, has_type, flat, geometry}
use traffic_service.Base.Double.{Double}
use traffic_service.Base.Json.{
  Json, num, str, arr, obj, nil, cons, end, field, lookup_field, elements, items,
}
use traffic_service.Base.{
  Option-cases, length, All, codes, ◌===◌, ◌<◌, ◌≡◌, refl, ap, inl, inr, Bool, true, Option, none,
  some, List, [], ◌∷◌, ◌++◌, map, arith,
}

-- `LngLatBounds` of two equal corners, and `extend`, which throws, here `none`, at most on what is
-- no position. Extended bounds contain the new position and what they contained before.
pub record BoundsApi (B : Type 0) : Type 0 where
  pub is_position : Json Double → Bool
  pub has : B → Json Double → Bool
  pub bounds_at : Json Double → Option B
  pub extend : B → Json Double → Option B
  pub at_position : (p : Json Double) → is_position p ≡ true → (b : B) × (bounds_at p ≡ some b)
  pub extend_position :
      (b : B) (p : Json Double) → is_position p ≡ true → (c : B) × (extend b p ≡ some c)
  pub at_contains : (p : Json Double) (b : B) → bounds_at p ≡ some b → has b p ≡ true
  pub extend_contains : (b c : B) (p : Json Double) → extend b p ≡ some c → has c p ≡ true
  pub extend_keeps :
      (b c : B) (p q : Json Double) → extend b p ≡ some c → has b q ≡ true → has c q ≡ true

-- The geometries of GeoJSON that a route can have.
pub data Shape : Type 0 where
  one_line_string : List (Json Double) → Shape
  line_strings : List (List (Json Double)) → Shape
  one_point : Double → Double → Shape

abbrev line_of : List (Json Double) → Json Double
line_of ps = arr (items ps)

abbrev pub json_of : Shape → Json Double
json_of (one_line_string ps) = obj (
    field (codes "type") (str (codes "LineString"))
      (field (codes "coordinates") (arr (items ps)) end))
json_of (line_strings lines) = obj (
    field (codes "type") (str (codes "MultiLineString"))
      (field (codes "coordinates") (arr (items (map line_of lines))) end))
json_of (one_point x y) = obj (
    field (codes "type") (str (codes "Point"))
      (field (codes "coordinates") (arr (cons (num x) (cons (num y) nil))) end))

abbrev all_of : List (List (Json Double)) → List (Json Double)
all_of [] = []
all_of (line ∷ lines) = line ++ all_of lines

abbrev pub positions : Shape → List (Json Double)
positions (one_line_string ps) = ps
positions (line_strings lines) = all_of lines
positions (one_point x y) = arr (cons (num x) (cons (num y) nil)) ∷ []

elements-items : (ps : List (Json Double)) → elements (items ps) ≡ ps
elements-items [] = refl
elements-items (p ∷ ps) = ap (λ qs. p ∷ qs) (elements-items ps)

flat-all_of : (lines : List (List (Json Double))) → flat (map line_of lines) ≡ all_of lines
flat-all_of [] = refl
flat-all_of (line ∷ lines) = rw (elements-items line) (rw (flat-all_of lines) refl)

extract_coordinates-positions :
    (shape : Shape) → extract_coordinates (json_of shape) ≡ positions shape
unfolding extract_coordinates has_type member lookup_field ◌===◌
extract_coordinates-positions (one_line_string ps) = elements-items ps
extract_coordinates-positions (line_strings lines) =
    rw (elements-items (map line_of lines)) (flat-all_of lines)
extract_coordinates-positions (one_point x y) = refl

module _ {B : Type 0} (api : BoundsApi B) where
  -- `coords.reduce((b, coord) => b.extend(coord), …)`
  abbrev pub extend_all : List (Json Double) → B → Option B
  extend_all [] b = some b
  extend_all (p ∷ ps) b = elim (api.extend b p) [ none ↦ none | some c ↦ extend_all ps c ]

  abbrev pub bounds_of : List (Json Double) → Option B
  bounds_of [] = none
  bounds_of (p ∷ ps) = elim (api.bounds_at p) [ none ↦ none | some b ↦ extend_all (p ∷ ps) b ]

  -- What `fitBoundsToGeometry` passes to `map.fitBounds`, if it comes to that; an error is caught.
  unfoldable pub fit_bounds_to_geometry : Option (Json Double) → Option B
  fit_bounds_to_geometry none = none
  fit_bounds_to_geometry (some geometry) = bounds_of (extract_coordinates geometry)

  extend_all-keeps :
      (ps : List (Json Double)) (b c : B) (q : Json Double)
      → extend_all ps b ≡ some c
      → api.has b q ≡ true
      → api.has c q ≡ true
  extend_all-keeps [] b c q e h = ground (arith, e, h)
  extend_all-keeps (p ∷ ps) b c q e h = elim (Option-cases (api.extend b p)) [
    | inl bad ↦ absurd (ground (arith, rw (extend_all, bad) at e))
    | inr (d, step) ↦
        extend_all-keeps ps d c q (rw (extend_all, step) at e) (api.extend_keeps b d p q step h)
  ]

  extend_all-covers :
      (ps : List (Json Double)) (b c : B)
      → extend_all ps b ≡ some c
      → All (λ q. api.has c q ≡ true) ps
  extend_all-covers [] b c e = tt
  extend_all-covers (p ∷ ps) b c e = elim (Option-cases (api.extend b p)) [
    | inl bad ↦ absurd (ground (arith, rw (extend_all, bad) at e))
    | inr (d, step) ↦ (
      extend_all-keeps ps d c p (rw (extend_all, step) at e) (api.extend_contains b d p step),
      extend_all-covers ps d c (rw (extend_all, step) at e),
    )
  ]

  extend_all-total :
      (ps : List (Json Double)) (b : B)
      → All (λ q. api.is_position q ≡ true) ps
      → (c : B) × (extend_all ps b ≡ some c)
  extend_all-total [] b valid = (b, refl)
  extend_all-total (p ∷ ps) b valid =
      let (c, step) = api.extend_position b p valid.0 in
      let (d, rest) = extend_all-total ps c valid.1 in (d, rw (extend_all, step) rest)

  bounds_of-total :
      (ps : List (Json Double))
      → 0 < length ps
      → All (λ q. api.is_position q ≡ true) ps
      → (b : B) × (bounds_of ps ≡ some b) × All (λ q. api.has b q ≡ true) ps
  bounds_of-total [] some_there valid = absurd (omega (arith, some_there))
  bounds_of-total (p ∷ ps) some_there valid =
      let (b, first) = api.at_position p valid.0 in
      let (c, all_in) = extend_all-total (p ∷ ps) b valid in
      (c, rw (bounds_of, first) all_in, extend_all-covers (p ∷ ps) b c all_in)

  -- Every route that is a line, several lines or a point, with at least one position and only such
  -- as the map library accepts, is fitted: to bounds that have all its positions, those of each of
  -- several lines.
  pub fit_bounds_covers :
      (shape : Shape)
      → 0 < length (positions shape)
      → All (λ q. api.is_position q ≡ true) (positions shape)
      → (b : B) × (fit_bounds_to_geometry (some (json_of shape)) ≡ some b)
        × All (λ q. api.has b q ≡ true) (positions shape)
  unfolding fit_bounds_to_geometry
  fit_bounds_covers shape some_there valid =
      rw (extract_coordinates-positions shape) (bounds_of-total (positions shape) some_there valid)
