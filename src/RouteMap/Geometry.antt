-- ===== src/RouteMap/Geometry.antt =====
-- RouteMap.tsx: reading coordinates, and cutting a route into one piece for each segment.
use traffic_service.Base.Double.{Double}
use traffic_service.Base.Json.{
  Json, null, bool, num, str, arr, obj, cons, end, field, lookup_field, elements, items,
}
use traffic_service.Base.{
  ltb, leb, ◌==◌, if◌then◌else◌, ◌or_else◌, length, get_elem?, take, drop, get_last?, Text, codes,
  is_truthy, ◌===◌, ℕ, zero, suc, ◌+◌, ◌-◌, ◌*◌, ◌/◌, min, String, Bool, true, false, ◌&&◌, ◌||◌,
  not, Option, none, some, List, [], ◌∷◌, ◌++◌, map,
}

-- `value?.[k]`
unfoldable pub member : Text → Json Double → Option (Json Double)
member k (obj fs) = lookup_field k fs
member k _ = none

-- Whether a value counts as true.
abbrev pub is_true : Option (Json Double) → Bool
is_true none = false
is_true (some null) = false
is_true (some (bool b)) = b
is_true (some (num t)) = not (t === codes "0" || t === codes "NaN")
is_true (some (str t)) = is_truthy (some t)
is_true (some _) = true

-- `value.type === name`
unfoldable pub has_type : String → Json Double → Bool
has_type name value = elim (member (codes "type") value) [
  | some (str t) ↦ t === codes name
  | _ ↦ false
]

-- The elements of an array; a value of another form is no list of coordinates.
abbrev pub array_of : Json Double → List (Json Double)
array_of (arr vs) = elements vs
array_of _ = []

-- `.flat()`: one level.
abbrev pub flat : List (Json Double) → List (Json Double)
flat [] = []
flat (arr vs ∷ rest) = elements vs ++ flat rest
flat (v ∷ rest) = v ∷ flat rest

unfoldable pub extract_coordinates : Json Double → List (Json Double)
extract_coordinates geo =
    let coordinates = member (codes "coordinates") geo in
    if not (is_true (member (codes "type") geo)) || not (is_true coordinates)
    then []
    else if has_type "LineString" geo
    then array_of (coordinates or_else null)
    else if has_type "MultiLineString" geo
    then flat (array_of (coordinates or_else null))
    else if has_type "Point" geo
    then (coordinates or_else null) ∷ []
    else []

abbrev pub geometry : String → List (Json Double) → Json Double
geometry kind coordinates = obj (
    field (codes "type") (str (codes kind))
      (field (codes "coordinates") (arr (items coordinates)) end))

abbrev pub is_array : Option (Json Double) → Bool
is_array (some (arr vs)) = true
is_array _ = false

abbrev pub first_of_array : Option (Json Double) → Option (Json Double)
first_of_array (some (arr (cons v vs))) = some v
first_of_array _ = none

unfoldable pub to_line_geometry : List (Json Double) → Json Double
to_line_geometry coordinates =
    let first = get_elem? coordinates 0 in
    if is_array first && is_array (first_of_array first)
    then geometry "MultiLineString" coordinates
    else geometry "LineString" coordinates

abbrev pub line_of_array : Json Double → Option (Json Double)
line_of_array (arr vs) = some (to_line_geometry (elements vs))
line_of_array _ = none

unfoldable pub normalize_line_geometry : Json Double → Option (Json Double)
normalize_line_geometry value =
    if has_type "LineString" value || has_type "MultiLineString" value
    then some value
    else line_of_array value

-- The indices of the first and the last coordinate of a piece: of `count` pieces, the one at
-- `index`, of a route with `edges` edges.
abbrev pub start_index : ℕ → ℕ → ℕ → ℕ
start_index edges count index = index * edges / count

abbrev pub last_or : ℕ → ℕ → ℕ → ℕ → ℕ
last_or edges count index stop = if index == count - 1 then edges else stop

abbrev pub at_least_one : ℕ → ℕ → ℕ → ℕ
at_least_one edges from stop = if leb stop from then min (from + 1) edges else stop

unfoldable pub end_index : ℕ → ℕ → ℕ → ℕ
end_index edges count index =
    at_least_one edges (start_index edges count index)
      (last_or edges count index ((index + 1) * edges / count))

-- `coords.slice(from, to)`
abbrev pub slice {ℓ} : {A : Type ℓ} → List A → ℕ → ℕ → List A
slice xs from to = take (to - from) (drop from xs)

unfoldable pub piece : List (Json Double) → ℕ → ℕ → List (Json Double)
unfolding end_index
piece coords count index =
    let edges = length coords - 1 in
    slice coords (start_index edges count index) (end_index edges count index + 1)

-- `Array.from({ length }, (_, index) => f(index))`, from an index on.
abbrev pub indices_from : ℕ → ℕ → List ℕ
indices_from zero i = []
indices_from (suc n) i = i ∷ indices_from n (suc i)

unfoldable pub split_route : Json Double → ℕ → List (Json Double)
split_route route count =
    let coords = extract_coordinates route in
    if count == 0 || ltb (length coords) 2
    then []
    else map (λ i. geometry "LineString" (piece coords count i)) (indices_from count 0)

unfoldable pub to_coordinate_pair : Option (Json Double) → Option (Double × Double)
to_coordinate_pair (some (arr (cons (num x) (cons (num y) vs)))) = some (x, y)
to_coordinate_pair _ = none

-- `lines.findLast((line) => line.length > 0)?.at(-1)`
abbrev pub last_of_lines : List (Json Double) → Option (Json Double)
last_of_lines [] = none
last_of_lines (line ∷ lines) = elim (last_of_lines lines) [
  | none ↦ get_last? (array_of line)
  | some v ↦ some v
]

unfoldable pub segment_end_coordinate : Json Double → Option (Double × Double)
unfolding to_coordinate_pair
segment_end_coordinate geo =
    let coordinates = array_of (member (codes "coordinates") geo or_else null) in
    if has_type "LineString" geo
    then to_coordinate_pair (get_last? coordinates)
    else if has_type "MultiLineString" geo
    then to_coordinate_pair (last_of_lines coordinates)
    else none
